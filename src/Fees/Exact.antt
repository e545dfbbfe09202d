-- ===== src/Fees/Exact.antt =====
-- CalculateFee against the fee schedule.
use blue_pods.Prelude.{
  ℕ, ◌+◌, ◌*◌, ◌/◌, ◌≤◌, ◌<◌, ◌≡◌, Bool, ◌&&◌, List, [], ◌∷◌, min, arith, ltb, ◌==◌, if◌then◌else◌,
  ◌||◌, ◌∙◌, ap, Bool-cases, inl, inr, true, false,
}
use blue_pods.Prelude.Arith.{div-le_of_le_mul, mul_mono}
use blue_pods.Types.{
  DeclaredOp, reparent_op, delete_op, domain_register_op, domain_renew_op, domain_update_op,
  domain_transfer_op, domain_delete_op,
}
use blue_pods.Word.{u64_max, safe_mul, safe_add, safe_mul-eq-min, safe_add-eq-min}
use blue_pods.Fees.{
  FeeParams, storage_deposit, declared_op_fee, declared_ops_loop, declared_ops_fee, storage_loop,
  compute_fee, calculate_fee,
}

-- The parameters are uint64 values.
pub record IsWord (p : FeeParams) : Type 0 where
  pub min_gas : p.min_gas * p.gas_price ≤ u64_max
  pub transit : p.transit_fee ≤ u64_max
  pub reparent : p.reparent_fee ≤ u64_max
  pub delete : p.delete_fee ≤ u64_max
  pub domain_update : p.domain_update_fee ≤ u64_max
  pub domain_transfer : p.domain_transfer_fee ≤ u64_max
  pub domain_delete : p.domain_delete_fee ≤ u64_max
  pub index_entry : p.index_entry_fee ≤ u64_max

-- The schedule, with no bound on a number but on the products that are divided.
abbrev pub compute_term : ℕ → ℕ → ℕ → Bool → FeeParams → ℕ
compute_term max_gas num denom ops_only p =
    if ops_only
    then p.min_gas * p.gas_price
    else if ltb 0 denom && ltb 0 num
    then min (max_gas * p.gas_price * num) u64_max / denom
    else 0

abbrev deposit_term : ℕ → ℕ → FeeParams → ℕ
deposit_term rep tv p =
    min ((if rep == 0 then tv else rep) * p.storage_fee) u64_max / tv + p.index_entry_fee

abbrev pub deposit_terms : List ℕ → ℕ → FeeParams → ℕ
deposit_terms [] tv p = 0
deposit_terms (rep ∷ reps) tv p = deposit_term rep tv p + deposit_terms reps tv p

abbrev op_term : DeclaredOp → FeeParams → ℕ
op_term op p =
    if op.kind == reparent_op
    then p.reparent_fee
    else if op.kind == delete_op
    then p.delete_fee
    else if op.kind == domain_register_op || op.kind == domain_renew_op
    then p.rental_rate_per_epoch * op.term_epochs
    else if op.kind == domain_update_op
    then p.domain_update_fee
    else if op.kind == domain_transfer_op
    then p.domain_transfer_fee
    else if op.kind == domain_delete_op
    then p.domain_delete_fee
    else 0

abbrev pub op_terms : List DeclaredOp → FeeParams → ℕ
op_terms [] p = 0
op_terms (op ∷ ops) p = op_term op p + op_terms ops p

div-le_word : (x d : ℕ) → 0 < d → x ≤ u64_max → x / d ≤ u64_max
div-le_word x d hd h = div-le_of_le_mul x u64_max d hd (omega (arith, mul_mono u64_max 1 u64_max d))

-- Saturating twice is saturating once.
capped_product : (x c : ℕ) → 0 < c → min (min x u64_max * c) u64_max ≡ min (x * c) u64_max
capped_product x c h = elim (Bool-cases (ltb u64_max x)) [
  | inl big ↦ ground (arith, big, mul_mono u64_max 1 (min x u64_max) c, mul_mono u64_max 1 x c)
  | inr small ↦ ground (arith, small)
]

compute_product : (a b c : ℕ) → 0 < c → safe_mul (safe_mul a b) c ≡ min (a * b * c) u64_max
compute_product a b c h =
    safe_mul-eq-min (safe_mul a b) c
    ∙ ap (λ x. min (x * c) u64_max) (safe_mul-eq-min a b)
    ∙ capped_product (a * b) c h

module _ (p : FeeParams) (w : IsWord p) where
  op_fee-eq : (op : DeclaredOp) → declared_op_fee op p ≡ min (op_term op p) u64_max
  unfolding declared_op_fee
  op_fee-eq op =
      let e = safe_mul-eq-min p.rental_rate_per_epoch op.term_epochs in ground (arith, e, w)

  ops_loop-eq :
      (total : ℕ) (ops : List DeclaredOp)
      → total ≤ u64_max
      → declared_ops_loop total ops p ≡ min (total + op_terms ops p) u64_max
  unfolding declared_ops_loop
  ops_loop-eq total [] h = omega arith
  ops_loop-eq total (op ∷ ops) h = omega (
    arith,
    op_fee-eq op,
    safe_add-eq-min total (declared_op_fee op p),
    ops_loop-eq (safe_add total (declared_op_fee op p)) ops,
  )

  deposit-eq :
      (rep tv : ℕ)
      → 0 < tv
      → storage_deposit rep tv p.storage_fee p.index_entry_fee ≡ min (deposit_term rep tv p) u64_max
  unfolding storage_deposit
  deposit-eq rep tv h = ground (
    arith,
    safe_mul-eq-min (if rep == 0 then tv else rep) p.storage_fee,
    div-le_word (min ((if rep == 0 then tv else rep) * p.storage_fee) u64_max) tv h,
    safe_add-eq-min (min ((if rep == 0 then tv else rep) * p.storage_fee) u64_max / tv)
        p.index_entry_fee,
    w.index_entry,
  )

  storage_loop-eq :
      (total : ℕ) (reps : List ℕ) (tv : ℕ)
      → 0 < tv
      → total ≤ u64_max
      → storage_loop total reps tv p ≡ min (total + deposit_terms reps tv p) u64_max
  unfolding storage_loop
  storage_loop-eq total [] tv hv h = omega arith
  storage_loop-eq total (rep ∷ reps) tv hv h =
      let d = storage_deposit rep tv p.storage_fee p.index_entry_fee in
      omega (
        arith,
        deposit-eq rep tv hv,
        safe_add-eq-min total d,
        storage_loop-eq (safe_add total d) reps tv hv,
      )

  compute-eq :
      (max_gas num denom : ℕ) (ops_only : Bool)
      → compute_fee max_gas num denom ops_only p
        ≡ min (compute_term max_gas num denom ops_only p) u64_max
  unfolding compute_fee
  compute-eq max_gas num denom true = omega (
    arith,
    w.min_gas,
    safe_mul-eq-min p.min_gas p.gas_price,
    safe_add-eq-min 0 (safe_mul p.min_gas p.gas_price),
  )
  compute-eq max_gas num denom false = elim (Bool-cases (ltb 0 denom && ltb 0 num)) [
    | inr off ↦ rw off (omega arith)
    | inl on ↦ rw on (
        ground (
          arith,
          on,
          compute_product max_gas p.gas_price num,
          div-le_word (min (max_gas * p.gas_price * num) u64_max) denom,
          safe_add-eq-min 0 (min (max_gas * p.gas_price * num) u64_max / denom),
        ))
  ]

  -- CalculateFee is the exact sum of the terms of the schedule, capped at the largest uint64. In the
  -- terms, two products are capped at the largest uint64 before they are divided: gas, price and the
  -- ratio's numerator, and replication and storage fee. No other saturation on the way changes the
  -- result. There is a validator, and the least execution fee and the flat fees fit in 64 bits.
  pub calculate_fee-eq-schedule :
      (max_gas num denom count : ℕ) (reps : List ℕ) (ops : List DeclaredOp) (ops_only : Bool)
      (tv : ℕ)
      → 0 < tv
      → calculate_fee max_gas num denom count reps ops ops_only tv p
        ≡ min
            (compute_term max_gas num denom ops_only p
              + count * p.transit_fee
              + deposit_terms reps tv p
              + op_terms ops p)
            u64_max
  unfolding calculate_fee declared_ops_fee
  calculate_fee-eq-schedule max_gas num denom count reps ops ops_only tv hv =
      let c = compute_fee max_gas num denom ops_only p in
      let t = safe_add c (safe_mul count p.transit_fee) in
      ground (
        arith,
        hv,
        compute-eq max_gas num denom ops_only,
        safe_mul-eq-min count p.transit_fee,
        safe_add-eq-min c (safe_mul count p.transit_fee),
        storage_loop-eq t reps tv hv,
        ops_loop-eq 0 ops,
        safe_add-eq-min (storage_loop t reps tv p) (declared_ops_loop 0 ops p),
      )
