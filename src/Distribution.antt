-- ===== src/Distribution.antt =====
-- The distribution of an epoch's reward pool, of internal/consensus/epoch.go. `none` is a run-time
-- panic. BLAKE3 and the keys of the database in the order of its iteration are parameters; log
-- lines and events are left out.
pub mod Credits
pub mod Compounding
pub mod Shares
pub mod Remainder
pub mod Tests
use blue_pods.Prelude.{
  ℕ, ◌/◌, List, [], ◌∷◌, Option, none, some, Bool, true, false, ◌&&◌, ◌||◌, not, ltb, ◌==◌,
  if◌then◌else◌, bytes_eq,
}
use blue_pods.Types.{Hash}
use blue_pods.Word.{safe_mul, safe_add, add64, sub64}
use blue_pods.Validators.{
  ValidatorInfo, ValidatorSet, get, set_self_stake, add_delegated, zero_hash,
}
use blue_pods.Stake.{effective_stake}
use blue_pods.Coins.{set_object, credit_coin}
use blue_pods.Staking.{Dag, settle, delegation_id, build_delegation_object, read_delegation_amount}
use blue_pods.Thermostat.{total_reward_weight}
use blue_pods.Rewards.{DelegatorShare, mille_max, split_validator_reward, delegations_for}

-- The fields of the DAG that the distribution reads besides those of Staking; `wired` says that
-- the enumerator of delegations is not nil, `governed` that the fee schedule is not nil.
pub record RewardParams : Type 0 where
  pub commission_bps : ℕ
  pub auto_restake_mille : ℕ
  pub wired : Bool
  pub governed : Bool
  pub epoch_fees : ℕ → ℕ
  pub rounds_produced : ℕ → Hash → ℕ

reward_weight : ValidatorInfo → (Hash → ℕ) → ℕ
reward_weight v produced = safe_mul (effective_stake (some v)) (produced v.pubkey)

-- `bytes.Compare(a, b) < 0`
bytes_lt : List ℕ → List ℕ → Bool
bytes_lt [] [] = false
bytes_lt [] (y ∷ ys) = true
bytes_lt (x ∷ xs) [] = false
bytes_lt (x ∷ xs) (y ∷ ys) = ltb x y || ((x == y) && bytes_lt xs ys)

pick_loop : (ValidatorInfo → ℕ) → List ValidatorInfo → Hash → ℕ → Hash
unfolding bytes_lt
pick_loop weight_of [] best best_weight = best
pick_loop weight_of (v ∷ vs) best best_weight =
    let w = weight_of v in
    let better = ltb best_weight w || ((w == best_weight) && bytes_lt v.pubkey best) in
    let take = not (w == 0) && better in
    pick_loop weight_of vs (if take then v.pubkey else best) (if take then w else best_weight)

pick_remainder_recipient : List ValidatorInfo → (ValidatorInfo → ℕ) → Hash
unfolding pick_loop
pick_remainder_recipient vals weight_of = pick_loop weight_of vals zero_hash 0

-- The set after a setter whose result is ignored.
with_validators : Dag → Option (ValidatorSet × Bool) → Option Dag
with_validators d none = none
with_validators d (some (vs, _)) = some (record d { validators = vs })

credit_liquid : ValidatorInfo → ℕ → ℕ → Option Dag → Option (Dag × ℕ)
credit_liquid v restake liquid none = none
credit_liquid v restake liquid (some d) = elim d.coin_store [
  | none ↦ none
  | some s ↦ elim (credit_coin v.reward_coin liquid s) [
    | none ↦ some (d, restake)
    | some s' ↦ some (record d { coin_store = some s' }, add64 restake liquid)
  ]
]

pub credit_validator_reward : ℕ → ValidatorInfo → ℕ → Dag → Option (Dag × ℕ)
unfolding with_validators credit_liquid
credit_validator_reward auto_restake_mille v amount d =
    if bytes_eq v.reward_coin zero_hash
    then elim (with_validators d
        (set_self_stake v.pubkey (safe_add v.self_stake amount) d.validators)) [
          | none ↦ none
          | some d' ↦ some (d', amount)
        ]
    else let restake = safe_mul amount auto_restake_mille / mille_max in
      let liquid = sub64 amount restake in
      credit_liquid v restake liquid (
        if ltb 0 restake
        then with_validators d
            (set_self_stake v.pubkey (safe_add v.self_stake restake) d.validators)
        else some d)

credit_remainder : Hash → ℕ → Dag → Option (Dag × ℕ)
credit_remainder top remainder d =
    if remainder == 0 then some (d, 0) else elim (get top d.validators) [
      | none ↦ none
      | some none ↦ some (d, 0)
      | some (some info) ↦
          if bytes_eq info.reward_coin zero_hash then some (d, 0) else elim d.coin_store [
            | none ↦ none
            | some s ↦ elim (credit_coin info.reward_coin remainder s) [
              | none ↦ some (d, 0)
              | some s' ↦ some (record d { coin_store = some s' }, remainder)
            ]
          ]
    ]

module _ (blake3 : List ℕ → Hash) (keys : List Hash) where
  compound_delegation : Hash → Hash → ℕ → Dag → Option (Dag × Bool)
  compound_delegation delegator validator reward d =
      if reward == 0 then some (d, false) else elim d.coin_store [
        | none ↦ none
        | some s ↦
            elim (read_delegation_amount blake3 (delegation_id blake3 delegator validator) validator
              s) [
                | none ↦ some (d, false)
                | some current ↦
                    settle d
                      (some (
                        set_object
                          (build_delegation_object blake3 delegator validator
                            (safe_add current reward))
                          s))
                      (add_delegated validator reward d.validators)
              ]
      ]

  delegators_loop : List DelegatorShare → Hash → ℕ → Dag → Option (Dag × ℕ)
  unfolding compound_delegation
  delegators_loop [] validator credited d = some (d, credited)
  delegators_loop (del ∷ dels) validator credited d =
      elim (compound_delegation del.delegator validator del.amount d) [
        | none ↦ none
        | some (d', raised) ↦
            delegators_loop dels validator (if raised then add64 credited del.amount else credited)
              d'
      ]

  pub credit_delegators : List DelegatorShare → Hash → Dag → Option (Dag × ℕ)
  unfolding delegators_loop
  credit_delegators payouts validator d = delegators_loop payouts validator 0 d

  delegator_shares : Bool → Hash → Dag → Option (List DelegatorShare)
  delegator_shares wired validator d =
      if wired
      then elim d.coin_store [ none ↦ none | some s ↦ some (delegations_for keys validator s) ]
      else some []

  -- The delegators' credits are evaluated before the validator's own, and the two are added.
  own_credit : ℕ → ValidatorInfo → ℕ → Option (Dag × ℕ) → Option (Dag × ℕ)
  unfolding credit_validator_reward
  own_credit auto_restake_mille v amount none = none
  own_credit auto_restake_mille v amount (some (d, first)) =
      elim (credit_validator_reward auto_restake_mille v amount d) [
        | none ↦ none
        | some (d', second) ↦ some (d', add64 first second)
      ]

  pub credit_share : RewardParams → ValidatorInfo → ℕ → Dag → Option (Dag × ℕ)
  unfolding own_credit credit_delegators delegator_shares
  credit_share p v share d = elim (delegator_shares p.wired v.pubkey d) [
    | none ↦ none
    | some dels ↦ elim (split_validator_reward share v.self_stake p.commission_bps dels) [
      | none ↦ none
      | some (amount, payouts) ↦
          own_credit p.auto_restake_mille v amount (credit_delegators payouts v.pubkey d)
    ]
  ]

  shares_loop : RewardParams → (Hash → ℕ) → ℕ → ℕ → List ValidatorInfo → ℕ → Dag → Option (Dag × ℕ)
  unfolding credit_share reward_weight
  shares_loop p produced pool total_weight [] distributed d = some (d, distributed)
  shares_loop p produced pool total_weight (v ∷ vs) distributed d =
      elim (credit_share p v (safe_mul pool (reward_weight v produced) / total_weight) d) [
        | none ↦ none
        | some (d', credited) ↦
            shares_loop p produced pool total_weight vs (add64 distributed credited) d'
      ]

  -- The result is what could not be credited.
  distribute_epoch_rewards : RewardParams → ℕ → ℕ → Dag → Option (Dag × ℕ)
  unfolding shares_loop credit_remainder pick_remainder_recipient reward_weight
  distribute_epoch_rewards p epoch issuance d =
      let produced = p.rounds_produced epoch in
      let pool = safe_add (p.epoch_fees epoch) issuance in
      let total_weight = total_reward_weight d.validators produced in
      let vals = d.validators.validators in
      let top = pick_remainder_recipient vals (λ v. reward_weight v produced) in
      elim d.coin_store [
        | none ↦ some (d, pool)
        | some _ ↦
            if pool == 0 || total_weight == 0
            then some (d, pool)
            else if not p.governed
            then none
            else elim (shares_loop p produced pool total_weight vals 0 d) [
              | none ↦ none
              | some (d', distributed) ↦ elim (credit_remainder top (sub64 pool distributed) d') [
                | none ↦ none
                | some (d'', credited) ↦ some (d'', sub64 pool (add64 distributed credited))
              ]
            ]
      ]
