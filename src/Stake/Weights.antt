-- ===== src/Stake/Weights.antt =====
-- The per-validator cap, and the capped sums as sums of weights.
use blue_pods.Prelude.{
  ℕ, ◌+◌, ◌*◌, ◌/◌, ◌≤◌, ◌<◌, ◌≡◌, refl, Bool, true, false, not, List, [], ◌∷◌, some, min, max,
  arith, if◌then◌else◌, Bool-cases, inl, inr,
}
use blue_pods.Types.{Hash}
use blue_pods.Word.{u64_max, safe_add, safe_mul-eq-min, safe_add-eq-min, safe_add-le}
use blue_pods.Validators.{ValidatorInfo}
use blue_pods.Stake.{effective_stake, capped_weight, capped_loop}

effective_stake-le : (v : ValidatorInfo) → effective_stake (some v) ≤ u64_max
unfolding effective_stake
effective_stake-le v = ground (arith, safe_add-le v.self_stake v.delegated_total)

-- The voting weight is the effective stake, capped at the larger of the configured share of the
-- total and an equal share, when there is a total and a set.
capped_weight-eq-min :
    (effective total cap_mille set_size : ℕ)
    → 0 < set_size
    → 0 < total
    → capped_weight effective total cap_mille set_size
      ≡ min effective (max (min (total * cap_mille) u64_max / 1000) (total / set_size))
unfolding capped_weight
capped_weight-eq-min effective total cap_mille set_size hs ht =
    ground (arith, safe_mul-eq-min total cap_mille)

capped_weight-le :
    (effective total cap_mille set_size : ℕ)
    → capped_weight effective total cap_mille set_size ≤ effective
unfolding capped_weight
capped_weight-le effective total cap_mille set_size = ground arith

module _ (raw_total cap_mille set_size : ℕ) where
  abbrev weight : ValidatorInfo → ℕ
  weight v = capped_weight (effective_stake (some v)) raw_total cap_mille set_size

  -- The unbounded sum of the weights of the producers in the list.
  abbrev pub weight_sum : (Hash → Bool) → List ValidatorInfo → ℕ
  weight_sum producers [] = 0
  weight_sum producers (v ∷ vs) =
      (if producers v.pubkey then weight v else 0) + weight_sum producers vs

  weight-le-max : (v : ValidatorInfo) → weight v ≤ u64_max
  weight-le-max v = omega (
    arith,
    effective_stake-le v,
    capped_weight-le (effective_stake (some v)) raw_total cap_mille set_size,
  )

  pub capped_loop-eq :
      (producers : Hash → Bool) (sum total : ℕ) (vs : List ValidatorInfo)
      → sum ≤ u64_max
      → total ≤ u64_max
      → ((capped_loop producers raw_total cap_mille set_size sum total vs).0
          ≡ min (sum + weight_sum producers vs) u64_max)
        × ((capped_loop producers raw_total cap_mille set_size sum total vs).1
            ≡ min (total + weight_sum (λ h. true) vs) u64_max)
  unfolding capped_loop
  capped_loop-eq producers sum total [] hs ht = omega arith
  capped_loop-eq producers sum total (v ∷ vs) hs ht =
      let w = weight v in
      let fits = weight-le-max v in
      let grown = safe_add-eq-min total w ht fits in
      elim (Bool-cases (producers v.pubkey)) [
        | inl counted ↦
            let raised = safe_add-eq-min sum w hs fits in
            let ih =
              capped_loop-eq producers (safe_add sum w) (safe_add total w) vs (safe_add-le sum w)
                (safe_add-le total w) in
            ground (arith, counted, raised, grown, ih)
        | inr left_out ↦
            let ih = capped_loop-eq producers sum (safe_add total w) vs hs (safe_add-le total w) in
            ground (arith, left_out, grown, ih)
      ]

  pub weight_sum-le_all :
      (producers : Hash → Bool) (vs : List ValidatorInfo)
      → weight_sum producers vs ≤ weight_sum (λ h. true) vs
  weight_sum-le_all producers [] = omega arith
  weight_sum-le_all producers (v ∷ vs) = ground (arith, weight_sum-le_all producers vs)

  -- Two groups of producers weigh together what their union and their intersection do.
  pub weight_sum-and :
      (p q : Hash → Bool) (vs : List ValidatorInfo)
      → weight_sum p vs + weight_sum q vs
        ≤ weight_sum (λ h. if p h then q h else false) vs + weight_sum (λ h. true) vs
  weight_sum-and p q [] = omega arith
  weight_sum-and p q (v ∷ vs) = ground (arith, weight_sum-and p q vs)

  pub weight_sum_mono :
      (p q : Hash → Bool) (vs : List ValidatorInfo)
      → ((h : Hash) → p h ≡ true → q h ≡ true)
      → weight_sum p vs ≤ weight_sum q vs
  weight_sum_mono p q [] implies = omega arith
  weight_sum_mono p q (v ∷ vs) implies =
      let ih = weight_sum_mono p q vs implies in
      elim (Bool-cases (p v.pubkey)) [
        | inl counted ↦ ground (arith, counted, implies v.pubkey counted, ih)
        | inr left_out ↦ ground (arith, left_out, ih)
      ]

  weight_sum_none : (vs : List ValidatorInfo) → weight_sum (λ h. false) vs ≡ 0
  weight_sum_none [] = refl
  weight_sum_none (v ∷ vs) = ground (arith, weight_sum_none vs)

  -- Two groups without a common producer weigh together at most what all do.
  pub weight_sum_disjoint :
      (p q : Hash → Bool) (vs : List ValidatorInfo)
      → ((h : Hash) → p h ≡ true → q h ≡ false)
      → weight_sum p vs + weight_sum q vs ≤ weight_sum (λ h. true) vs
  weight_sum_disjoint p q vs apart =
      let both : (h : Hash) → (if p h then q h else false) ≡ true → false ≡ true =
        λ h e. ground (arith, e, apart h) in
      omega (
        arith,
        weight_sum-and p q vs,
        weight_sum_mono (λ h. if p h then q h else false) (λ h. false) vs both,
        weight_sum_none vs,
      )

  -- A group and the others weigh together what all do.
  pub weight_sum_split :
      (p : Hash → Bool) (vs : List ValidatorInfo)
      → weight_sum p vs + weight_sum (λ h. not (p h)) vs ≡ weight_sum (λ h. true) vs
  weight_sum_split p [] = refl
  weight_sum_split p (v ∷ vs) = ground (arith, weight_sum_split p vs)
