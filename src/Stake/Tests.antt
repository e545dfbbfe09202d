-- ===== src/Stake/Tests.antt =====
-- Runs of the quorum test, and each theorem at a set of three validators.
use blue_pods.Prelude.{
  ℕ, ◌*◌, ◌≤◌, ◌<◌, ◌≡◌, ◌↔◌, refl, Bool, true, false, List, [], ◌∷◌, arith, bytes_eq,
  if◌then◌else◌, not, replicate,
}
use blue_pods.Types.{Hash}
use blue_pods.Word.{safe_mul, safe_add}
use blue_pods.Validators.{ValidatorInfo}
use blue_pods.Stake.{
  effective_stake, total_loop, capped_weight, capped_loop, capped_stake_of, quorum_reached,
  reaches_strict_quorum,
}
use blue_pods.Stake.Quorum.{capped_total, quorum_intersection, reaches_strict_quorum_iff}

abbrev pub member : ℕ → ℕ → Bool → ValidatorInfo
member k stake jailed = record {
  pubkey = replicate 32 k;
  quic_addr = [];
  bls_pubkey = [];
  self_stake = stake;
  delegated_total = 0;
  jailed = jailed;
  reward_coin = [];
}

-- A whale with 900 of 1000, and a jailed fourth validator that weighs nothing.
abbrev pub committee : List ValidatorInfo
committee = member 1 900 false ∷ member 2 60 false ∷ member 3 40 false ∷ member 4 500 true ∷ []

abbrev whale_and_second : Hash → Bool
whale_and_second h = if bytes_eq h (replicate 32 1) then true else bytes_eq h (replicate 32 2)

abbrev all_but_third : Hash → Bool
all_but_third h = not (bytes_eq h (replicate 32 3))

-- The cap of 10% is below an equal share, so the whale weighs 250 of 350.
capped_run : capped_stake_of 100 committee whale_and_second ≡ (310, 350)
unfolding capped_stake_of capped_loop total_loop capped_weight effective_stake safe_mul safe_add
    bytes_eq
capped_run = refl

total_run : capped_total 100 committee ≡ 350
unfolding capped_stake_of capped_loop total_loop capped_weight effective_stake safe_mul safe_add
total_run = refl

first_quorum : reaches_strict_quorum 100 committee whale_and_second ≡ true
unfolding reaches_strict_quorum quorum_reached capped_stake_of capped_loop total_loop capped_weight
    effective_stake safe_mul safe_add bytes_eq
first_quorum = refl

second_quorum : reaches_strict_quorum 100 committee all_but_third ≡ true
unfolding reaches_strict_quorum quorum_reached capped_stake_of capped_loop total_loop capped_weight
    effective_stake safe_mul safe_add bytes_eq
second_quorum = refl

quorum_intersection_example :
    (0 < capped_total 100 committee)
    × (capped_total 100 committee
        ≤ 3
          * (capped_stake_of 100 committee
              (λ h. if whale_and_second h then all_but_third h else false)).0)
quorum_intersection_example =
    quorum_intersection 100 committee whale_and_second all_but_third (omega (arith, total_run))
      first_quorum second_quorum

reaches_strict_quorum_iff_example :
    (reaches_strict_quorum 100 committee whale_and_second ≡ true) ↔ (
      (0 < capped_total 100 committee)
      × (3 * (capped_stake_of 100 committee (λ h. not (whale_and_second h))).0
          ≤ capped_total 100 committee))
reaches_strict_quorum_iff_example =
    reaches_strict_quorum_iff 100 committee whale_and_second (omega (arith, total_run))
