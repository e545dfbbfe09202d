-- ===== src/Stake/Quorum.antt =====
-- The two-thirds quorum over capped stake.
use blue_pods.Prelude.{
  ℕ, ◌+◌, ◌*◌, ◌≤◌, ◌<◌, ◌≡◌, ◌↔◌, Bool, true, false, not, List, min, arith, length, if◌then◌else◌,
}
use blue_pods.Types.{Hash}
use blue_pods.Word.{u64_max, safe_mul-eq-min}
use blue_pods.Validators.{ValidatorInfo}
use blue_pods.Stake.{total_loop, capped_stake_of, quorum_reached, reaches_strict_quorum}
use blue_pods.Stake.Weights.{
  weight_sum, capped_loop-eq, weight_sum-le_all, weight_sum-and, weight_sum_mono,
  weight_sum_disjoint, weight_sum_split,
}

-- The test is the strict two-thirds rule as long as three times the total fits in 64 bits; a set
-- with no stake has no quorum.
pub quorum_reached_iff :
    (sum total : ℕ)
    → 3 * total ≤ u64_max
    → sum ≤ total
    → (quorum_reached sum total ≡ true → (0 < total) × (2 * total ≤ 3 * sum))
      × (0 < total → 2 * total ≤ 3 * sum → quorum_reached sum total ≡ true)
unfolding quorum_reached
quorum_reached_iff sum total fits le =
    ground (arith, safe_mul-eq-min 2 total, safe_mul-eq-min 3 sum)

module _ (cap_mille : ℕ) (all : List ValidatorInfo) where
  abbrev pub capped_total : ℕ
  capped_total = (capped_stake_of cap_mille all (λ h. true)).1

  abbrev sum_of : (Hash → Bool) → ℕ
  sum_of producers = weight_sum (total_loop 0 all) cap_mille (length all) producers all

  stake_of-eq :
      (producers : Hash → Bool)
      → ((capped_stake_of cap_mille all producers).0 ≡ min (sum_of producers) u64_max)
        × ((capped_stake_of cap_mille all producers).1 ≡ min (sum_of (λ h. true)) u64_max)
  unfolding capped_stake_of
  stake_of-eq producers = omega (
    arith,
    capped_loop-eq (total_loop 0 all) cap_mille (length all) producers 0 0 all (omega arith)
        (omega arith),
  )

  pub quorum_sound :
      (p : Hash → Bool)
      → 3 * capped_total ≤ u64_max
      → reaches_strict_quorum cap_mille all p ≡ true
      → (0 < capped_total) × (2 * capped_total ≤ 3 * (capped_stake_of cap_mille all p).0)
  unfolding reaches_strict_quorum
  quorum_sound p fits h =
      let (sum, total) = capped_stake_of cap_mille all p in
      ground (
        arith,
        stake_of-eq p,
        stake_of-eq (λ h. true),
        weight_sum-le_all (total_loop 0 all) cap_mille (length all) p all,
        quorum_reached_iff sum total,
      )

  -- The producers' sum never passes the total, whoever they are.
  capped_stake_of-le :
      (producers : Hash → Bool)
      → (capped_stake_of cap_mille all producers).0 ≤ (capped_stake_of cap_mille all producers).1
  capped_stake_of-le producers = omega (
    arith,
    stake_of-eq producers,
    weight_sum-le_all (total_loop 0 all) cap_mille (length all) producers all,
  )

  pub capped_stake_of_mono :
      (p q : Hash → Bool)
      → ((h : Hash) → p h ≡ true → q h ≡ true)
      → (capped_stake_of cap_mille all p).0 ≤ (capped_stake_of cap_mille all q).0
  capped_stake_of_mono p q implies = omega (
    arith,
    stake_of-eq p,
    stake_of-eq q,
    weight_sum_mono (total_loop 0 all) cap_mille (length all) p q all implies,
  )

  pub capped_stake_of_disjoint :
      (p q : Hash → Bool)
      → 3 * capped_total ≤ u64_max
      → ((h : Hash) → p h ≡ true → q h ≡ false)
      → (capped_stake_of cap_mille all p).0 + (capped_stake_of cap_mille all q).0 ≤ capped_total
  capped_stake_of_disjoint p q fits apart = omega (
    arith,
    stake_of-eq p,
    stake_of-eq q,
    stake_of-eq (λ h. true),
    weight_sum_disjoint (total_loop 0 all) cap_mille (length all) p q all apart,
  )

  -- The total does not depend on the producers.
  pub capped_stake_of_total : (p : Hash → Bool) → (capped_stake_of cap_mille all p).1 ≡ capped_total
  capped_stake_of_total p = omega (arith, stake_of-eq p, stake_of-eq (λ h. true))

  -- Two quorums of one set share producers whose capped stake is at least a third of the total, which
  -- is positive; three times the capped total fits in 64 bits.
  pub quorum_intersection :
      (p q : Hash → Bool)
      → 3 * capped_total ≤ u64_max
      → reaches_strict_quorum cap_mille all p ≡ true
      → reaches_strict_quorum cap_mille all q ≡ true
      → (0 < capped_total)
        × (capped_total ≤ 3 * (capped_stake_of cap_mille all (λ h. if p h then q h else false)).0)
  quorum_intersection p q fits hp hq = omega (
    arith,
    stake_of-eq p,
    stake_of-eq q,
    stake_of-eq (λ h. true),
    stake_of-eq (λ h. if p h then q h else false),
    weight_sum-and (total_loop 0 all) cap_mille (length all) p q all,
    quorum_sound p fits hp,
    quorum_sound q fits hq,
  )

  -- The quorum is reached exactly when the set has capped stake and the validators that are left out
  -- weigh at most a third of it, however stake is spread; three times the capped total fits in 64 bits.
  pub reaches_strict_quorum_iff :
      (p : Hash → Bool)
      → 3 * capped_total ≤ u64_max
      → (reaches_strict_quorum cap_mille all p ≡ true) ↔ (
          (0 < capped_total)
          × (3 * (capped_stake_of cap_mille all (λ h. not (p h))).0 ≤ capped_total))
  unfolding reaches_strict_quorum
  reaches_strict_quorum_iff p fits =
      let sum = (capped_stake_of cap_mille all p).0 in
      let total = (capped_stake_of cap_mille all p).1 in
      let absent = (capped_stake_of cap_mille all (λ h. not (p h))).0 in
      let parts : sum + absent ≡ total = omega (
        arith,
        fits,
        stake_of-eq p,
        stake_of-eq (λ h. true),
        stake_of-eq (λ h. not (p h)),
        weight_sum_split (total_loop 0 all) cap_mille (length all) p all,
      ) in
      let whole : total ≡ capped_total = capped_stake_of_total p in
      let (sound, complete) =
        quorum_reached_iff sum total (omega (arith, fits, whole)) (omega (arith, parts)) in
      (
        λ reached. let told = sound reached in omega (arith, parts, whole, told),
        λ enough. complete (omega (arith, whole, enough)) (omega (arith, parts, whole, enough)),
      )
