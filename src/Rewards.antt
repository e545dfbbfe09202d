-- ===== src/Rewards.antt =====
-- The split of a reward of internal/consensus/delegation.go, the scan for positions of
-- internal/state/delegation.go, and the credits of an epoch of internal/consensus/epoch.go. `none`
-- is a run-time panic: a division by zero, a nil store, an index out of range. BLAKE3 and the keys
-- of the database in the order of its iteration are parameters. Log lines and events are left out.
pub mod Split
pub mod Tests
use blue_pods.Prelude.{
  ℕ, ◌+◌, ◌*◌, ◌/◌, List, [], ◌∷◌, Option, none, some, Bool, true, false, ◌&&◌, ◌||◌, not, ltb,
  ◌==◌, if◌then◌else◌, length, take, drop, bytes_eq,
}
use blue_pods.Types.{Hash}
use blue_pods.Text.{codes}
use blue_pods.Word.{safe_mul, safe_add, add64, sub64}
use blue_pods.Bytes.{le_num}
use blue_pods.Validators.{
  ValidatorInfo, ValidatorSet, get, set_self_stake, add_delegated, zero_hash,
}
use blue_pods.Stake.{effective_stake}
use blue_pods.Fees.{bps_max}
use blue_pods.Coins.{Object, State, get_object, set_object, credit_coin}
use blue_pods.Staking.{
  Dag, delegation_content_size, delegation_id, build_delegation_object, read_delegation_amount,
}
use blue_pods.Thermostat.{ThermostatParams, total_reward_weight}

abbrev pub mille_max : ℕ
mille_max = 1000

pub record DelegatorShare : Type 0 where
  pub delegator : Hash
  pub amount : ℕ

sum_loop : ℕ → List DelegatorShare → ℕ
sum_loop total [] = total
sum_loop total (d ∷ ds) = sum_loop (safe_add total d.amount) ds

unfoldable pub sum_delegations : List DelegatorShare → ℕ
unfolding sum_loop
sum_delegations dels = sum_loop 0 dels

unfoldable pub split_pro_rata : ℕ → ℕ → List DelegatorShare → Option (List DelegatorShare)
split_pro_rata pool delegated_total [] = some []
split_pro_rata pool delegated_total (d ∷ ds) =
    let rest = split_pro_rata pool delegated_total ds in
    if delegated_total == 0 then none else elim rest [
      | none ↦ none
      | some out ↦ some (
          record { delegator = d.delegator; amount = safe_mul pool d.amount / delegated_total }
          ∷ out)
    ]

-- The parts of a reward before the delegators' is divided.
pub self_share : ℕ → ℕ → ℕ → ℕ
self_share reward self_stake total = safe_mul reward self_stake / total

to_delegators : ℕ → ℕ → ℕ → ℕ
to_delegators reward own commission_bps =
    let delegated_portion = sub64 reward own in
    let commission = safe_mul delegated_portion commission_bps / bps_max in
    sub64 delegated_portion commission

unfoldable pub split_validator_reward :
    ℕ → ℕ → ℕ → List DelegatorShare → Option (ℕ × List DelegatorShare)
unfolding self_share to_delegators
split_validator_reward reward self_stake commission_bps dels =
    let delegated_total = sum_delegations dels in
    let total = safe_add self_stake delegated_total in
    if total == 0 || length dels == 0
    then some (reward, [])
    else let own = self_share reward self_stake total in
      let pool = to_delegators reward own commission_bps in
      elim (split_pro_rata pool delegated_total dels) [
        | none ↦ none
        | some amounts ↦ some (sub64 reward (sum_delegations amounts), amounts)
      ]

-- The scan for the positions of a validator.
has_prefix : List ℕ → List ℕ → Bool
has_prefix key prefix = bytes_eq (take (length prefix) key) prefix

abbrev consensus_key_prefixes : List (List ℕ)
consensus_key_prefixes =
    codes "v:" ∷ codes "r:" ∷ codes "m:" ∷ codes "t:" ∷ codes "d:" ∷ codes "objsig:" ∷ []

no_prefix : List (List ℕ) → List ℕ → Bool
no_prefix [] key = true
no_prefix (p ∷ ps) key = if has_prefix key p then false else no_prefix ps key

unfoldable pub is_object_key : List ℕ → Bool
unfolding no_prefix has_prefix
is_object_key key = if length key == 32 then no_prefix consensus_key_prefixes key else false

decode_delegation_position : Object → Hash → Option DelegatorShare
decode_delegation_position o validator =
    if not (length o.content == delegation_content_size)
    then none
    else if not (bytes_eq (take 32 o.content) validator)
    then none
    else if not (length o.owner == 32)
    then none
    else some (record { delegator = o.owner; amount = le_num (take 8 (drop 32 o.content)) })

unfoldable pub delegations_for : List Hash → Hash → State → List DelegatorShare
unfolding decode_delegation_position
delegations_for [] validator s = []
delegations_for (key ∷ keys) validator s =
    let rest = delegations_for keys validator s in
    if not (is_object_key key) then rest else elim (get_object key s) [
      | none ↦ rest
      | some o ↦ elim (decode_delegation_position o validator) [
        | none ↦ rest
        | some entry ↦ entry ∷ rest
      ]
    ]
