-- ===== src/Thermostat.antt =====
-- The issuance control loop of internal/consensus/thermostat.go. The DAG's fields that the loop
-- reads and writes are a record; the event is left out.
pub mod Control
pub mod Tests
use blue_pods.Prelude.{
  ℕ, ◌+◌, ◌*◌, ◌/◌, List, [], ◌∷◌, Option, none, some, Bool, true, false, ◌&&◌, leb, ltb, ◌==◌,
  if◌then◌else◌,
}
use blue_pods.Types.{Hash}
use blue_pods.Word.{safe_mul, safe_add, sub_floor}
use blue_pods.Validators.{ValidatorInfo, ValidatorSet}
use blue_pods.Stake.{effective_stake, total_bonded}
use blue_pods.Supply.{Counters, add_supply}

pub record ThermostatParams : Type 0 where
  pub target_low_mille : ℕ
  pub target_high_mille : ℕ
  pub floor_rate_micro : ℕ
  pub ceiling_rate_micro : ℕ
  pub genesis_rate_micro : ℕ
  pub step_cap_micro : ℕ
  pub auto_restake_mille : ℕ

unfoldable clamp_rate : ℕ → ThermostatParams → ℕ
clamp_rate rate p =
    if ltb rate p.floor_rate_micro
    then p.floor_rate_micro
    else if ltb p.ceiling_rate_micro rate
    then p.ceiling_rate_micro
    else rate

unfoldable adjust_rate : ℕ → ℕ → ThermostatParams → ℕ
unfolding clamp_rate
adjust_rate rate ratio_mille p =
    if leb p.target_low_mille ratio_mille && leb ratio_mille p.target_high_mille
    then clamp_rate rate p
    else if ltb ratio_mille p.target_low_mille
    then clamp_rate (safe_add rate p.step_cap_micro) p
    else clamp_rate (sub_floor rate p.step_cap_micro) p

unfoldable staking_ratio_mille : ℕ → ℕ → ℕ
staking_ratio_mille bonded supply = if supply == 0 then 0 else safe_mul bonded 1000 / supply

unfoldable issuance_for : ℕ → ℕ → ℕ
issuance_for rate_micro supply = safe_mul rate_micro supply / 1000000

-- `produced` is a Go map, which is 0 at a missing key.
weight_loop : List ValidatorInfo → (Hash → ℕ) → ℕ → ℕ
weight_loop [] produced total = total
weight_loop (v ∷ vs) produced total =
    weight_loop vs produced
      (safe_add total (safe_mul (effective_stake (some v)) (produced v.pubkey)))

unfoldable pub total_reward_weight : ValidatorSet → (Hash → ℕ) → ℕ
unfolding weight_loop
total_reward_weight vs produced = weight_loop vs.validators produced 0

-- The DAG's fields of the loop; the supply counters stand for a coin store that may be nil.
pub record Issuance : Type 0 where
  pub supply : Option Counters
  pub validators : ValidatorSet
  pub issuance_rate_micro : ℕ
  pub thermostat : ThermostatParams

unfoldable run_thermostat : Bool → Issuance → Issuance × ℕ
run_thermostat distributable d = elim d.supply [
  | none ↦ (d, 0)
  | some c ↦
      let pre_mint = c.total_supply in
      let ratio = staking_ratio_mille (total_bonded d.validators.validators) pre_mint in
      let rate = adjust_rate d.issuance_rate_micro ratio d.thermostat in
      let adjusted = record d { issuance_rate_micro = rate } in
      let issuance = issuance_for rate pre_mint in
      if distributable
      then (record adjusted { supply = some (add_supply issuance c) }, issuance)
      else (adjusted, 0)
]
