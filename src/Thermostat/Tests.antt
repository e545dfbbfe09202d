-- ===== src/Thermostat/Tests.antt =====
-- The control loop at a committee of four, for parameters of the genesis magnitude.
use blue_pods.Prelude.{
  ℕ, ◌+◌, ◌*◌, ◌/◌, ◌≡◌, refl, some, none, true, false, min, if◌then◌else◌, arith,
}
use blue_pods.Word.{sub_floor}
use blue_pods.Validators.{ValidatorSet}
use blue_pods.Stake.{total_bonded}
use blue_pods.Stake.Tests.{committee}
use blue_pods.Supply.{Counters}
use blue_pods.Thermostat.{
  ThermostatParams, Issuance, adjust_rate, clamp_rate, staking_ratio_mille, run_thermostat,
}
use blue_pods.Thermostat.Control.{IsRange, next_rate, epochs, epochs_below, run_thermostat_lem}

abbrev params : ThermostatParams
params = record {
  target_low_mille = 250;
  target_high_mille = 350;
  floor_rate_micro = 10;
  ceiling_rate_micro = 1000;
  genesis_rate_micro = 500;
  step_cap_micro = 50;
  auto_restake_mille = 500;
}

params-IsRange : IsRange params
params-IsRange = record { ordered = omega arith; word = omega arith; step = omega arith }

-- Above the band the rate falls by one step, and stops at the floor.
falls : adjust_rate 30 400 params ≡ 10
unfolding adjust_rate clamp_rate sub_floor
falls = refl

epochs_below_example : epochs params (λ m. 100) 12 500 ≡ min (500 + 12 * 50) 1000
epochs_below_example =
    epochs_below params (λ m. 100) 500 12 params-IsRange (omega arith) (omega arith) (omega arith)
      (λ m. omega arith)

abbrev set : ValidatorSet
set = record { validators = committee; index = λ k. none; has_callback = false }

abbrev counters : Counters
counters = record { total_supply = 4000000; coins_total = 3000000; db = none }

abbrev issuance : Issuance
issuance = record {
  supply = some counters;
  validators = set;
  issuance_rate_micro = 500;
  thermostat = params;
}

run_thermostat_lem_example :
    (r : Issuance) × (c : Counters) × (minted : ℕ) × (run_thermostat true issuance ≡ (r, minted))
    × (r.supply ≡ some c)
    × (r.issuance_rate_micro
        ≡ next_rate params 500 (staking_ratio_mille (total_bonded committee) 4000000))
    × (minted ≡ (if true then r.issuance_rate_micro * 4000000 / 1000000 else 0))
    × (c.total_supply ≡ 4000000 + minted)
    × (c.coins_total ≡ 3000000)
run_thermostat_lem_example =
    run_thermostat_lem issuance counters true refl params-IsRange (omega arith) (omega arith)
      (omega arith) (omega arith) (omega arith)
