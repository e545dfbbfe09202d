-- ===== src/Rounds.antt =====
-- The epoch of a round (internal/consensus/epoch.go), its holder snapshot and eligible members
-- (eligible.go), its designated producer (anchor.go) and its regime (regime.go). BLAKE3 is a
-- parameter. A nil map is `none`.
pub mod Designating
use blue_pods.Prelude.{
  ℕ, zero, suc, ◌+◌, ◌-◌, ◌/◌, ◌%◌, List, [], ◌∷◌, ◌++◌, Option, none, some, Bool, true, false,
  ◌&&◌, ◌||◌, not, ltb, leb, ◌==◌, if◌then◌else◌, length, map, take, get_elem?,
}
use blue_pods.Types.{Hash, contains}
use blue_pods.Text.{codes}
use blue_pods.Word.{add64}
use blue_pods.Bytes.{le_bytes, le_num}
use blue_pods.Validators.{ValidatorInfo}
use blue_pods.Dict.{sort_hashes}
use blue_pods.Anchor.{Store}

abbrev pub Holders : Type 0
Holders = List ValidatorInfo

pub record EpochSnapshot : Type 0 where
  pub epoch : ℕ
  pub holders : Option Holders
  pub prev : Option Holders
  pub next : Option Holders

-- The fields of the DAG that a decision reads.
pub record Dag : Type 0 where
  pub store : Store
  pub epoch_length : ℕ
  pub epoch_mirror : Option EpochSnapshot
  pub current_epoch : ℕ
  pub eligible_holders : Option (List Hash)
  pub prev_eligible_holders : Option (List Hash)
  pub next_eligible_holders : Option (List Hash)
  pub min_validators : ℕ
  pub strict_latched : Bool
  pub strict_start_round : ℕ
  pub voting_cap_mille : ℕ

unfoldable pub commit_epoch_for_round : ℕ → Dag → ℕ
commit_epoch_for_round round d =
    if d.epoch_length == 0
    then 0
    else let epoch = round / d.epoch_length in
      if ltb 0 epoch && (round % d.epoch_length == 0) then epoch - 1 else epoch

abbrev is_some : {A : Type 0} → Option A → Bool
is_some none = false
is_some (some x) = true

unfoldable pub holders_for_epoch : ℕ → Dag → Option Holders
holders_for_epoch epoch d = elim d.epoch_mirror [
  | none ↦ none
  | some snap ↦
      if epoch == snap.epoch
      then snap.holders
      else if ltb 0 snap.epoch && (epoch == snap.epoch - 1) && is_some snap.prev
      then snap.prev
      else if epoch == add64 snap.epoch 1
      then (if is_some snap.next then snap.next else if snap.epoch == 0 then snap.holders else none)
      else none
]

unfoldable pub eligible_for_epoch : ℕ → Dag → Option (List Hash)
eligible_for_epoch epoch d =
    if epoch == d.current_epoch
    then d.eligible_holders
    else if ltb 0 d.current_epoch && (epoch == d.current_epoch - 1)
    then d.prev_eligible_holders
    else if epoch == add64 d.current_epoch 1
    then (if is_some d.next_eligible_holders
        then d.next_eligible_holders
        else if d.current_epoch == 0
        then d.eligible_holders
        else none)
    else none

abbrev pub keys_of : Holders → List Hash
keys_of holders = map (λ (v : ValidatorInfo). v.pubkey) holders

unfoldable pub filter_loop : List Hash → List Hash → List Hash
filter_loop [] eligible = []
filter_loop (key ∷ keys) eligible =
    let rest = filter_loop keys eligible in if contains key eligible then key ∷ rest else rest

abbrev or_else : List Hash → List Hash → List Hash
or_else [] keys = keys
or_else (x ∷ xs) keys = x ∷ xs

-- The length of a nil map is 0, and a filter by an empty set is empty.
unfoldable pub eligible_keys : Holders → Option (List Hash) → List Hash
eligible_keys holders eligible =
    let keys = sort_hashes (keys_of holders) in
    elim eligible [ none ↦ keys | some set ↦ or_else (filter_loop keys set) keys ]

abbrev anchor_domain : List ℕ
anchor_domain = codes "bluepods/anchor/v1"

unfoldable pub round_is_relaxed : ℕ → Dag → Bool
round_is_relaxed round d =
    if d.min_validators == 0 then false else not d.strict_latched || ltb round d.strict_start_round

-- The holders that the citations of a round are weighed over.
abbrev pub citing_holders : ℕ → Dag → Option Holders
citing_holders round d = holders_for_epoch (commit_epoch_for_round (add64 round 1) d) d

module _ (blake3 : List ℕ → List ℕ) where
  -- The index is below the number of keys, which is not 0.
  unfoldable pub anchor_producer_for : ℕ → Dag → Option Hash
  anchor_producer_for round d =
      let epoch = commit_epoch_for_round round d in
      elim (holders_for_epoch epoch d) [
        | none ↦ none
        | some holders ↦
            if length holders == 0
            then none
            else let keys = eligible_keys holders (eligible_for_epoch epoch d) in
              get_elem? keys
                (le_num (take 8 (blake3 (anchor_domain ++ le_bytes 8 round))) % length keys)
      ]
