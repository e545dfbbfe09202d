-- ===== src/Rewards/Split.antt =====
-- A reward is divided without loss (splitValidatorReward of internal/consensus/delegation.go).
use blue_pods.Prelude.{
  ℕ, ◌+◌, ◌-◌, ◌*◌, ◌/◌, ◌≤◌, ◌<◌, ◌≡◌, refl, List, [], ◌∷◌, some, false, ◌==◌, map, arith, length,
}
use blue_pods.Prelude.Arith.{mul_mono, div-le_of_le_mul, div-mul-le, le_of_mul_le_mul}
use blue_pods.Word.{u64_max, safe_mul, safe_add, sub64, safe_mul-eq-min, safe_add-eq-min}
use blue_pods.Fees.{bps_max}
use blue_pods.Rewards.{
  DelegatorShare, sum_loop, sum_delegations, split_pro_rata, self_share, to_delegators,
  split_validator_reward,
}

-- The amounts' sum, without bound.
abbrev pub sum_amounts : List DelegatorShare → ℕ
sum_amounts [] = 0
sum_amounts (d ∷ ds) = d.amount + sum_amounts ds

sum_loop-exact :
    (total : ℕ) (ds : List DelegatorShare)
    → total + sum_amounts ds ≤ u64_max
    → sum_loop total ds ≡ total + sum_amounts ds
unfolding sum_loop
sum_loop-exact total [] h = omega arith
sum_loop-exact total (d ∷ ds) h =
    let step = safe_add-eq-min total d.amount (omega arith) (omega arith) in
    omega (arith, step, sum_loop-exact (safe_add total d.amount) ds (omega (arith, step)))

sum_delegations-exact :
    (ds : List DelegatorShare) → sum_amounts ds ≤ u64_max → sum_delegations ds ≡ sum_amounts ds
unfolding sum_delegations
sum_delegations-exact ds h = omega (arith, sum_loop-exact 0 ds (omega arith))

-- A quotient of a saturated product is at most the factor, if the other factor is within the
-- divisor.
share-le : (a b d : ℕ) → 0 < d → b ≤ d → safe_mul a b / d ≤ a
share-le a b d positive h =
    div-le_of_le_mul (safe_mul a b) a d positive
      (omega (arith, safe_mul-eq-min a b, mul_mono a b a d (omega arith) h))

-- What the split gives to the delegators, as a function of their amounts.
abbrev pub amounts_of : ℕ → ℕ → List DelegatorShare → List DelegatorShare
amounts_of pool total =
    map (λ (d : DelegatorShare). record d { amount = safe_mul pool d.amount / total })

split_pro_rata-amounts_of :
    (pool total : ℕ) (ds : List DelegatorShare)
    → 0 < total
    → split_pro_rata pool total ds ≡ some (amounts_of pool total ds)
unfolding split_pro_rata
split_pro_rata-amounts_of pool total [] h = refl
split_pro_rata-amounts_of pool total (d ∷ ds) h =
    ground (arith, split_pro_rata-amounts_of pool total ds h)

amounts_of-scaled :
    (pool total : ℕ) (ds : List DelegatorShare)
    → 0 < total
    → sum_amounts (amounts_of pool total ds) * total ≤ pool * sum_amounts ds
amounts_of-scaled pool total [] h = omega arith
amounts_of-scaled pool total (d ∷ ds) h =
    let one = div-mul-le (safe_mul pool d.amount) total h in
    let product = safe_mul-eq-min pool d.amount in
    let rest = amounts_of-scaled pool total ds h in omega (arith, one, product, rest)

amounts_of-le :
    (pool : ℕ) (ds : List DelegatorShare)
    → 0 < sum_amounts ds
    → sum_amounts (amounts_of pool (sum_amounts ds) ds) ≤ pool
amounts_of-le pool ds h =
    le_of_mul_le_mul (sum_amounts (amounts_of pool (sum_amounts ds) ds)) pool (sum_amounts ds) h
      (amounts_of-scaled pool (sum_amounts ds) ds h)

-- The pool is what the self-stake's share and the commission leave of the reward.
to_delegators-le :
    (reward own commission_bps : ℕ)
    → reward ≤ u64_max
    → own ≤ reward
    → commission_bps ≤ bps_max
    → own + to_delegators reward own commission_bps ≤ reward
unfolding to_delegators
to_delegators-le reward own commission_bps word h bps =
    let portion : sub64 reward own ≡ reward - own = omega arith in
    let commission = share-le (reward - own) commission_bps bps_max (omega arith) bps in
    rw (portion) omega (arith, commission)

has_delegators : (ds : List DelegatorShare) → 0 < sum_amounts ds → (length ds == 0) ≡ false
has_delegators [] h = absurd (omega arith)
has_delegators (d ∷ ds) h = ground arith

-- A reward is split without loss: the validator's amount and the delegators' add up to the reward,
-- the delegators are the given ones in order, and each gets its part of one pool, which with the
-- self-stake's share never passes the reward. Nothing panics, if the stakes fit uint64, the
-- commission is at most 100% and a validator with delegators has delegated stake.
pub split_validator_reward_lem :
    (reward self_stake commission_bps : ℕ) (dels : List DelegatorShare)
    → reward ≤ u64_max
    → self_stake + sum_amounts dels ≤ u64_max
    → commission_bps ≤ bps_max
    → 0 < sum_amounts dels
    → (mine pool : ℕ) × (split_validator_reward reward self_stake commission_bps dels
        ≡ some (mine, amounts_of pool (sum_amounts dels) dels))
      × (mine + sum_amounts (amounts_of pool (sum_amounts dels) dels) ≡ reward)
      × (self_share reward self_stake (self_stake + sum_amounts dels) + pool ≤ reward)
unfolding split_validator_reward self_share
split_validator_reward_lem reward self_stake commission_bps dels word fits bps some_stake =
    let total = self_stake + sum_amounts dels in
    let delegated = sum_delegations-exact dels (omega arith) in
    let whole : safe_add self_stake (sum_amounts dels) ≡ total =
      omega (arith, safe_add-eq-min self_stake (sum_amounts dels) (omega arith) (omega arith)) in
    let own = self_share reward self_stake total in
    let own_le = share-le reward self_stake total (omega arith) (omega arith) in
    let pool = to_delegators reward own commission_bps in
    let pool_le = to_delegators-le reward own commission_bps word own_le bps in
    let divided = amounts_of-le pool dels some_stake in
    let amounts = amounts_of pool (sum_amounts dels) dels in
    let paid = sum_delegations-exact amounts (omega (arith, divided, pool_le)) in
    let done = split_pro_rata-amounts_of pool (sum_amounts dels) dels some_stake in
    let some_dels = has_delegators dels some_stake in
    let back : sub64 reward (sum_amounts amounts) ≡ reward - sum_amounts amounts =
      omega (arith, divided, pool_le) in
    (
      reward - sum_amounts amounts,
      pool,
      rw (delegated, whole, some_dels, done, paid, back) ground (arith, some_stake),
      omega (arith, divided, pool_le),
      pool_le,
    )
