-- ===== src/Thermostat/Control.antt =====
-- The issuance rate stays in its bounds and follows the staking ratio, and what is minted is what
-- the supply gains (internal/consensus/thermostat.go).
use blue_pods.Prelude.{
  ℕ, zero, suc, ◌+◌, ◌-◌, ◌*◌, ◌/◌, ◌≤◌, ◌<◌, ◌≡◌, refl, List, [], ◌∷◌, some, Bool, min, max, ltb,
  if◌then◌else◌, arith, Bool-cases, inl, inr,
}
use blue_pods.Prelude.Arith.{mul_mono, div_mono}
use blue_pods.Supply.Laws.{total_supply-add_supply}
use blue_pods.Types.{Hash}
use blue_pods.Word.{
  u64_max, sub_floor, safe_mul, safe_add, safe_mul-eq-min, safe_add-eq-min, sub_floor-eq-sub,
  safe_mul-le,
}
use blue_pods.Validators.{ValidatorInfo, ValidatorSet}
use blue_pods.Stake.{effective_stake, total_bonded}
use blue_pods.Supply.{Counters, add_supply}
use blue_pods.Thermostat.{
  ThermostatParams, Issuance, clamp_rate, adjust_rate, staking_ratio_mille, issuance_for,
  weight_loop, total_reward_weight, run_thermostat,
}

pub record IsRange (p : ThermostatParams) : Type 0 where
  pub ordered : p.floor_rate_micro ≤ p.ceiling_rate_micro
  pub word : p.ceiling_rate_micro ≤ u64_max
  pub step : p.step_cap_micro ≤ u64_max

clamp_rate_bounds :
    (p : ThermostatParams) (rate : ℕ)
    → p.floor_rate_micro ≤ p.ceiling_rate_micro
    → (p.floor_rate_micro ≤ clamp_rate rate p) × (clamp_rate rate p ≤ p.ceiling_rate_micro)
unfolding clamp_rate
clamp_rate_bounds p rate h = ground arith

-- Whatever the rate was and the ratio is, the next rate lies between the floor and the ceiling,
-- if the floor is not above the ceiling.
adjust_rate_bounds :
    (p : ThermostatParams) (rate ratio : ℕ)
    → p.floor_rate_micro ≤ p.ceiling_rate_micro
    → (p.floor_rate_micro ≤ adjust_rate rate ratio p)
      × (adjust_rate rate ratio p ≤ p.ceiling_rate_micro)
unfolding adjust_rate
adjust_rate_bounds p rate ratio h = ground (
  arith,
  clamp_rate_bounds p rate h,
  clamp_rate_bounds p (safe_add rate p.step_cap_micro) h,
  clamp_rate_bounds p (sub_floor rate p.step_cap_micro) h,
)

-- The control law on exact numbers: hold in the band, else one capped step towards a bound.
abbrev pub next_rate : ThermostatParams → ℕ → ℕ → ℕ
next_rate p rate ratio =
    if ltb ratio p.target_low_mille
    then min (rate + p.step_cap_micro) p.ceiling_rate_micro
    else if ltb p.target_high_mille ratio
    then max (rate - p.step_cap_micro) p.floor_rate_micro
    else rate

-- A rate within its bounds holds while the ratio is in the band, rises by one step below it and
-- falls by one step above it, stopping at the bounds. The bounds must be ordered and fit uint64.
adjust_rate-next_rate :
    (p : ThermostatParams) (rate ratio : ℕ)
    → IsRange p
    → p.floor_rate_micro ≤ rate
    → rate ≤ p.ceiling_rate_micro
    → p.target_low_mille ≤ p.target_high_mille
    → adjust_rate rate ratio p ≡ next_rate p rate ratio
unfolding adjust_rate clamp_rate
adjust_rate-next_rate p rate ratio h low high band = ground (
  arith,
  safe_add-eq-min rate p.step_cap_micro (omega (arith, h.word)) h.step,
  sub_floor-eq-sub rate p.step_cap_micro (omega (arith, h.word)),
  h.ordered,
  h.word,
)

-- The rate after some epochs, of which each has its own staking ratio.
abbrev pub epochs : ThermostatParams → (ℕ → ℕ) → ℕ → ℕ → ℕ
epochs p ratio zero rate = rate
epochs p ratio (suc n) rate = adjust_rate (epochs p ratio n rate) (ratio n) p

-- While the staking ratio stays below the band, the rate climbs by one step an epoch until it
-- stands at the ceiling, under the conditions of one step.
pub epochs_below :
    (p : ThermostatParams) (ratio : ℕ → ℕ) (rate n : ℕ)
    → IsRange p
    → p.floor_rate_micro ≤ rate
    → rate ≤ p.ceiling_rate_micro
    → p.target_low_mille ≤ p.target_high_mille
    → ((m : ℕ) → ratio m < p.target_low_mille)
    → epochs p ratio n rate ≡ min (rate + n * p.step_cap_micro) p.ceiling_rate_micro
epochs_below p ratio rate zero h low high band under = ground arith
epochs_below p ratio rate (suc n) h low high band under =
    let before = epochs_below p ratio rate n h low high band under in
    let next =
      adjust_rate-next_rate p (epochs p ratio n rate) (ratio n) h (ground (arith, before))
        (ground (arith, before)) band in
    let below = under n in ground (arith, before, next, below)

-- Stake times rounds, summed without bound.
abbrev weights : List ValidatorInfo → (Hash → ℕ) → ℕ
weights [] produced = 0
weights (v ∷ vs) produced = effective_stake (some v) * produced v.pubkey + weights vs produced

weight_loop-eq-min :
    (vs : List ValidatorInfo) (produced : Hash → ℕ) (total : ℕ)
    → total ≤ u64_max
    → weight_loop vs produced total ≡ min (total + weights vs produced) u64_max
unfolding weight_loop
weight_loop-eq-min [] produced total h = ground arith
weight_loop-eq-min (v ∷ vs) produced total h =
    let w = safe_mul (effective_stake (some v)) (produced v.pubkey) in
    let small = safe_mul-le (effective_stake (some v)) (produced v.pubkey) in
    let sum = safe_add-eq-min total w h small in
    let product = safe_mul-eq-min (effective_stake (some v)) (produced v.pubkey) in
    let rest = weight_loop-eq-min vs produced (safe_add total w) (omega (arith, sum)) in
    omega (arith, sum, product, rest)

-- The distribution's denominator is the sum over the set of stake times rounds produced, capped
-- once at the largest uint64.
total_reward_weight-eq-min :
    (vs : ValidatorSet) (produced : Hash → ℕ)
    → total_reward_weight vs produced ≡ min (weights vs.validators produced) u64_max
unfolding total_reward_weight
total_reward_weight-eq-min vs produced =
    omega (arith, weight_loop-eq-min vs.validators produced 0 (omega arith))

issuance_for-exact :
    (rate most supply : ℕ)
    → rate ≤ most
    → most * supply ≤ u64_max
    → (issuance_for rate supply ≡ rate * supply / 1000000)
      × (rate * supply / 1000000 ≤ most * supply / 1000000)
unfolding issuance_for
issuance_for-exact rate most supply h fits =
    let less = mul_mono rate supply most supply h (omega arith) in
    let same : safe_mul rate supply ≡ rate * supply = omega (arith, safe_mul-eq-min rate supply) in
    (rw (same) refl, div_mono (rate * supply) (most * supply) 1000000 (omega arith) less)

-- The epoch's step: the rate follows the control law on the supply before minting, nothing is
-- minted when no one can be paid, and otherwise the supply grows by exactly the reported issuance,
-- which is the rate's millionths of the supply. The rate must stand in its bounds, these fit
-- uint64, and the product and the new supply too.
pub run_thermostat_lem :
    (d : Issuance) (c : Counters) (distributable : Bool)
    → d.supply ≡ some c
    → IsRange d.thermostat
    → d.thermostat.floor_rate_micro ≤ d.issuance_rate_micro
    → d.issuance_rate_micro ≤ d.thermostat.ceiling_rate_micro
    → d.thermostat.target_low_mille ≤ d.thermostat.target_high_mille
    → d.thermostat.ceiling_rate_micro * c.total_supply ≤ u64_max
    → c.total_supply + d.thermostat.ceiling_rate_micro * c.total_supply / 1000000 ≤ u64_max
    → (r : Issuance) × (c' : Counters) × (minted : ℕ) × (run_thermostat distributable d
        ≡ (r, minted))
      × (r.supply ≡ some c')
      × (r.issuance_rate_micro
          ≡ next_rate d.thermostat d.issuance_rate_micro
              (staking_ratio_mille (total_bonded d.validators.validators) c.total_supply))
      × (minted ≡ (if distributable then r.issuance_rate_micro * c.total_supply / 1000000 else 0))
      × (c'.total_supply ≡ c.total_supply + minted)
      × (c'.coins_total ≡ c.coins_total)
unfolding run_thermostat
run_thermostat_lem d c distributable there h low high band product supply =
    let ratio = staking_ratio_mille (total_bonded d.validators.validators) c.total_supply in
    let rate = adjust_rate d.issuance_rate_micro ratio d.thermostat in
    let law = adjust_rate-next_rate d.thermostat d.issuance_rate_micro ratio h low high band in
    let (_, most) = adjust_rate_bounds d.thermostat d.issuance_rate_micro ratio h.ordered in
    let (exact, bound) =
      issuance_for-exact rate d.thermostat.ceiling_rate_micro c.total_supply most product in
    let minted = issuance_for rate c.total_supply in
    let (gained, kept) = total_supply-add_supply minted c (omega (arith, exact, bound, supply)) in
    let adjusted = record d { issuance_rate_micro = rate } in
    elim (Bool-cases distributable) [
      | inl pays ↦ (
        record adjusted { supply = some (add_supply minted c) },
        add_supply minted c,
        minted,
        ground (arith, there),
        refl,
        law,
        rw (pays) exact,
        gained,
        kept,
      )
      | inr idle ↦
          (adjusted, c, 0, ground (arith, there), there, law, ground arith, omega arith, refl)
    ]
