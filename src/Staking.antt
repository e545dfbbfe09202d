-- ===== src/Staking.antt =====
-- Bonding and delegation of stake: the handlers of internal/consensus/commit.go and the positions
-- of internal/consensus/delegation.go. BLAKE3 is a parameter. `none` is a run-time panic; the
-- Boolean is the handler's result. Events and log lines are left out.
pub mod Values
pub mod Outcomes
pub mod Moving
pub mod Bonding
pub mod Unbonding
pub mod Positions
pub mod DelegateCalls
pub mod Delegating
pub mod Withdrawing
pub mod Tests
use blue_pods.Prelude.{
  ℕ, ◌+◌, ◌-◌, ◌≡◌, List, [], ◌∷◌, ◌++◌, Option, none, some, Bool, true, false, ◌&&◌, not, ltb,
  ◌==◌, if◌then◌else◌, length, take, drop, bytes_eq,
}
use blue_pods.Types.{Hash, Tx, TxRef}
use blue_pods.Text.{codes}
use blue_pods.Word.{safe_add, sub64}
use blue_pods.Bytes.{le_bytes, le_num}
use blue_pods.Validators.{
  ValidatorInfo, ValidatorSet, get, set_self_stake, add_delegated, sub_delegated,
}
use blue_pods.Coins.{
  Object, State, get_object, set_object, delete_object, strict_debit, credit_coin,
}

-- The fields of the DAG that the handlers use; the coin store is nil in a bare DAG.
pub record Dag : Type 0 where
  pub coin_store : Option State
  pub validators : ValidatorSet
  pub min_stake : ℕ
  pub system_pod : Hash

abbrev bond_func : List ℕ
bond_func = codes "bond"

abbrev unbond_func : List ℕ
unbond_func = codes "unbond"

abbrev delegate_func : List ℕ
delegate_func = codes "delegate"

abbrev undelegate_func : List ℕ
undelegate_func = codes "undelegate"

is_system_func : Dag → Tx → List ℕ → Bool
is_system_func d tx fn =
    if not (length tx.pod == 32)
    then false
    else if not (bytes_eq tx.pod d.system_pod)
    then false
    else bytes_eq tx.function_name fn

first_ref_id : List TxRef → Option Hash
first_ref_id [] = none
first_ref_id (ref ∷ refs) = if length ref.id == 32 then some ref.id else none

pub first_mutable_ref_id : Tx → Option Hash
unfolding first_ref_id
first_mutable_ref_id tx = first_ref_id tx.mutable_refs

pub decode_stake_amount : List ℕ → Option ℕ
decode_stake_amount args = if ltb (length args) 8 then none else some (le_num (take 8 args))

-- What the parsers extract, with the coin store that they found.
pub record StakeCall : Type 0 where
  pub store : State
  pub sender : Hash
  pub coin_id : Hash
  pub amount : ℕ

stake_call : State → Tx → Option StakeCall
unfolding first_mutable_ref_id decode_stake_amount
stake_call store tx =
    if not (length tx.sender == 32) then none else elim (first_mutable_ref_id tx) [
      | none ↦ none
      | some coin_id ↦ elim (decode_stake_amount tx.args) [
        | none ↦ none
        | some amount ↦
            if amount == 0
            then none
            else some
                (record { store = store; sender = tx.sender; coin_id = coin_id; amount = amount })
      ]
    ]

pub parse_stake_tx : Dag → Tx → List ℕ → Option StakeCall
unfolding stake_call is_system_func
parse_stake_tx d tx fn = elim d.coin_store [
  | none ↦ none
  | some store ↦ if is_system_func d tx fn then stake_call store tx else none
]

-- The state after a handler that moved value, or the refusal.
unfoldable pub settle : Dag → Option State → Option (ValidatorSet × Bool) → Option (Dag × Bool)
settle d none changed = some (d, false)
settle d (some store) none = none
settle d (some store) (some (vs, _)) =
    some (record d { coin_store = some store; validators = vs }, true)

bond_of : Dag → StakeCall → Option (Option ValidatorInfo) → Option (Dag × Bool)
unfolding settle
bond_of d call none = none
bond_of d call (some none) = some (d, false)
bond_of d call (some (some current)) =
    let new_stake = safe_add current.self_stake call.amount in
    if ltb new_stake d.min_stake
    then some (d, false)
    else settle d (strict_debit call.coin_id call.amount call.store)
        (set_self_stake call.sender new_stake d.validators)

pub handle_bond : Dag → Tx → Option (Dag × Bool)
unfolding bond_of
handle_bond d tx = elim (parse_stake_tx d tx bond_func) [
  | none ↦ some (d, false)
  | some call ↦ bond_of d call (get call.sender d.validators)
]

unbond_of : Dag → StakeCall → Option (Option ValidatorInfo) → Option (Dag × Bool)
unfolding settle
unbond_of d call none = none
unbond_of d call (some none) = some (d, false)
unbond_of d call (some (some current)) =
    if ltb current.self_stake call.amount
    then some (d, false)
    else let remaining = current.self_stake - call.amount in
      if ltb 0 d.min_stake && (ltb 0 remaining && ltb remaining d.min_stake)
      then some (d, false)
      else settle d (credit_coin call.coin_id call.amount call.store)
          (set_self_stake call.sender remaining d.validators)

pub handle_unbond : Dag → Tx → Option (Dag × Bool)
unfolding unbond_of
handle_unbond d tx = elim (parse_stake_tx d tx unbond_func) [
  | none ↦ some (d, false)
  | some call ↦ unbond_of d call (get call.sender d.validators)
]

-- Delegation positions.
abbrev pub delegation_content_size : ℕ
delegation_content_size = 40

unfoldable pub encode_delegation_content : Hash → ℕ → List ℕ
encode_delegation_content validator amount = take 32 validator ++ le_bytes 8 amount

unfoldable decode_delegation_content : List ℕ → Option (Hash × ℕ)
decode_delegation_content content =
    if length content == delegation_content_size
    then some (take 32 content, le_num (take 8 (drop 32 content)))
    else none

pub decode_delegate_args : List ℕ → Bool → Option (Hash × ℕ)
decode_delegate_args args with_amount =
    if ltb (length args) (if with_amount then 40 else 32)
    then none
    else some (take 32 args, if with_amount then le_num (take 8 (drop 32 args)) else 0)

pub record DelegateCall : Type 0 where
  pub store : State
  pub delegator : Hash
  pub coin_id : Hash
  pub validator : Hash
  pub amount : ℕ

delegate_call : State → Tx → Bool → Option DelegateCall
unfolding first_mutable_ref_id decode_delegate_args
delegate_call store tx with_amount =
    if not (length tx.sender == 32) then none else elim (first_mutable_ref_id tx) [
      | none ↦ none
      | some coin_id ↦ elim (decode_delegate_args tx.args with_amount) [
        | none ↦ none
        | some (validator, amount) ↦
            if with_amount && (amount == 0)
            then none
            else some (record {
              store = store;
              delegator = tx.sender;
              coin_id = coin_id;
              validator = validator;
              amount = amount;
            })
      ]
    ]

pub parse_delegate_tx : Dag → Tx → List ℕ → Bool → Option DelegateCall
unfolding delegate_call is_system_func
parse_delegate_tx d tx fn with_amount = elim d.coin_store [
  | none ↦ none
  | some store ↦ if is_system_func d tx fn then delegate_call store tx with_amount else none
]

module _ (blake3 : List ℕ → Hash) where
  unfoldable pub delegation_id : Hash → Hash → Hash
  delegation_id delegator validator =
      blake3 (codes "bluepods/delegation/v1" ++ (delegator ++ validator))

  unfoldable pub build_delegation_object : Hash → Hash → ℕ → Object
  unfolding encode_delegation_content
  build_delegation_object delegator validator amount = record {
    id = delegation_id delegator validator;
    version = 0;
    owner = delegator;
    replication = 0;
    content = encode_delegation_content validator amount;
    fees = 0;
    parent_kind = 0;
  }

  pub read_delegation_amount : Hash → Hash → State → Option ℕ
  unfolding decode_delegation_content
  read_delegation_amount pos_id validator store = elim (get_object pos_id store) [
    | none ↦ none
    | some o ↦ elim (decode_delegation_content o.content) [
      | none ↦ none
      | some (got, amount) ↦ if bytes_eq got validator then some amount else none
    ]
  ]

  delegate_of : Dag → DelegateCall → Option (Option ValidatorInfo) → Option (Dag × Bool)
  unfolding settle
  delegate_of d call none = none
  delegate_of d call (some none) = some (d, false)
  delegate_of d call (some (some target)) =
      if target.jailed
      then some (d, false)
      else elim (strict_debit call.coin_id call.amount call.store) [
        | none ↦ some (d, false)
        | some store ↦
            settle d
              (some (
                set_object (build_delegation_object call.delegator call.validator call.amount)
                  store))
              (add_delegated call.validator call.amount d.validators)
      ]

  pub handle_delegate : Dag → Tx → Option (Dag × Bool)
  unfolding delegate_of
  handle_delegate d tx = elim (parse_delegate_tx d tx delegate_func true) [
    | none ↦ some (d, false)
    | some call ↦ delegate_of d call (get call.validator d.validators)
  ]

  undelegate_of : Dag → DelegateCall → Hash → Option ℕ → Option (Dag × Bool)
  unfolding settle
  undelegate_of d call pos_id none = some (d, false)
  undelegate_of d call pos_id (some amount) = elim (credit_coin call.coin_id amount call.store) [
    | none ↦ some (d, false)
    | some store ↦
        settle d (some (delete_object pos_id store))
          (sub_delegated call.validator amount d.validators)
  ]

  pub handle_undelegate : Dag → Tx → Option (Dag × Bool)
  unfolding undelegate_of
  handle_undelegate d tx = elim (parse_delegate_tx d tx undelegate_func false) [
    | none ↦ some (d, false)
    | some call ↦
        let pos_id = delegation_id call.delegator call.validator in
        undelegate_of d call pos_id (read_delegation_amount pos_id call.validator call.store)
  ]
