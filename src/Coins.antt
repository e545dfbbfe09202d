-- ===== src/Coins.antt =====
-- Coin objects and the balance operations of internal/consensus/coins.go, over the object store
-- and the counters of internal/state. An object is the record that its FlatBuffers encoding
-- (types/object.fbs) carries; the encoding itself is not modelled. `none` in place of a state is
-- the error that the Go function returns, which leaves the store as it was.
pub mod Store
pub mod Balance
pub mod Backing
pub mod Flows
pub mod Supplies
pub mod Tests
use blue_pods.Prelude.{
  ℕ, ◌+◌, ◌-◌, List, [], ◌∷◌, ◌++◌, Option, none, some, Bool, true, false, ltb, leb, ◌==◌,
  if◌then◌else◌, length, take, drop, bytes_eq, replicate,
}
use blue_pods.Types.{Hash}
use blue_pods.Word.{u64_max, add64, sub64}
use blue_pods.Bytes.{le_bytes, le_num}
use blue_pods.Supply.{Counters, add_coins, sub_coins, add_supply}

pub record Object : Type 0 where
  pub id : List ℕ
  pub version : ℕ
  pub owner : List ℕ
  pub replication : ℕ
  pub content : List ℕ
  pub fees : ℕ
  pub parent_kind : ℕ

pub record State : Type 0 where
  pub objects : Hash → Option Object
  pub counters : Counters

abbrev zero_hash : Hash
zero_hash = replicate 32 0

-- The key of a stored object: its ID, or the zero hash when that has another length.
unfoldable pub extract_object_id : Object → Hash
extract_object_id o = if length o.id == 32 then o.id else zero_hash

unfoldable pub get_object : Hash → State → Option Object
get_object id s = s.objects id

unfoldable pub set_object : Object → State → State
unfolding extract_object_id
set_object o s = record s {
  objects = λ k. if bytes_eq (extract_object_id o) k then some o else s.objects k;
}

unfoldable pub delete_object : Hash → State → State
delete_object id s = record s { objects = λ k. if bytes_eq id k then none else s.objects k }

unfoldable pub read_coin_balance : Object → Option ℕ
read_coin_balance o = if ltb (length o.content) 8 then none else some (le_num (take 8 o.content))

unfoldable read_coin_owner : Object → Option Hash
read_coin_owner o = if length o.owner == 32 then some o.owner else none

-- The rebuilt object has every field of the old one but the parent kind, which the builder leaves
-- out and a reader therefore finds to be 0.
unfoldable pub write_coin_balance : Object → ℕ → Object
write_coin_balance o balance = record o {
  content =
      if ltb (length o.content) 8
      then le_bytes 8 balance
      else le_bytes 8 balance ++ drop 8 o.content;
  parent_kind = 0;
}

unfoldable write_object_owner : Object → Hash → ℕ → ℕ → Object
write_object_owner o owner kind version = record o {
  owner = owner;
  parent_kind = kind;
  version = version;
}

-- What `deductCoinFee` returns beside its error.
pub record Deduction : Type 0 where
  pub after : State
  pub deducted : ℕ
  pub fully_covered : Bool

take_coins : Object → ℕ → ℕ → State → State
take_coins o balance amount s =
    let written = set_object (write_coin_balance o (balance - amount)) s in
    record written { counters = sub_coins amount written.counters }

deduct_from : Object → ℕ → ℕ → State → Deduction
unfolding take_coins
deduct_from o balance fee s =
    if leb fee balance
    then record { after = take_coins o balance fee s; deducted = fee; fully_covered = true }
    else record {
      after = take_coins o balance balance s;
      deducted = balance;
      fully_covered = false;
    }

unfoldable deduct_coin_fee : Hash → ℕ → State → Option Deduction
unfolding deduct_from get_object
deduct_coin_fee coin_id fee s = elim (get_object coin_id s) [
  | none ↦ none
  | some o ↦ elim (read_coin_balance o) [
    | none ↦ none
    | some balance ↦ some (deduct_from o balance fee s)
  ]
]

credit_to : Object → ℕ → ℕ → State → Option State
credit_to o balance amount s =
    let new_balance = add64 balance amount in
    if ltb new_balance balance
    then none
    else let written = set_object (write_coin_balance o new_balance) s in
      some (record written { counters = add_coins amount written.counters })

unfoldable pub credit_coin : Hash → ℕ → State → Option State
unfolding credit_to get_object
credit_coin coin_id amount s = if amount == 0 then some s else elim (get_object coin_id s) [
  | none ↦ none
  | some o ↦ elim (read_coin_balance o) [
    | none ↦ none
    | some balance ↦ credit_to o balance amount s
  ]
]

debit_exact : Object → ℕ → ℕ → State → Option State
unfolding take_coins
debit_exact o balance amount s =
    if ltb balance amount then none else some (take_coins o balance amount s)

-- strictDebit of internal/consensus/commit.go; `none` is its `false`.
unfoldable pub strict_debit : Hash → ℕ → State → Option State
unfolding debit_exact get_object
strict_debit coin_id amount s = elim (get_object coin_id s) [
  | none ↦ none
  | some o ↦
      if o.replication == 0
      then elim (read_coin_balance o) [
        | none ↦ none
        | some balance ↦ debit_exact o balance amount s
      ]
      else none
]
