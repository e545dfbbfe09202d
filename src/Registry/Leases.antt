-- ===== src/Registry/Leases.antt =====
-- The rules of leases and of names (domainExpiry, validDomainName, parentDomainName).
use blue_pods.Prelude.{
  ℕ, ◌+◌, ◌^◌, ◌≤◌, ◌<◌, ◌≡◌, none, some, ◌||◌, ltb, ◌==◌, if◌then◌else◌, arith, Bool-cases, inl,
  inr, max,
}
use blue_pods.Word.{u64_max, safe_add-le, safe_add-eq-min}
use blue_pods.Registry.{domain_expiry}

pub domain_expiry-lt :
    (current epoch term max_term : ℕ) {expiry : ℕ}
    → domain_expiry current epoch term max_term ≡ some expiry
    → expiry < 2 ^ 64
unfolding domain_expiry
domain_expiry-lt current epoch term max_term e =
    ground (arith, e, safe_add-le current term, safe_add-le epoch term)

-- A lease runs from the later of its current end and the current epoch, for a term of at least one
-- epoch, and at most to the cap past the current epoch; a longer one is refused, never cut. The
-- current epoch and the cap must be far enough below the limits of 64 bits.
pub domain_expiry_lem :
    (current epoch term max_term : ℕ)
    → current ≤ u64_max
    → term < 2 ^ 32
    → epoch + max_term < u64_max
    → domain_expiry current epoch term max_term ≡ (
        if (term == 0) || ltb (epoch + max_term) (max current epoch + term)
        then none
        else some (max current epoch + term))
unfolding domain_expiry
domain_expiry_lem current epoch term max_term hc ht hm = elim (Bool-cases (ltb current epoch)) [
  | inl past ↦ ground (
    arith,
    past,
    safe_add-eq-min epoch term (omega arith) (omega arith),
    safe_add-eq-min epoch max_term (omega arith) (omega arith),
  )
  | inr running ↦ ground (
    arith,
    running,
    safe_add-eq-min current term hc (omega arith),
    safe_add-eq-min epoch max_term (omega arith) (omega arith),
  )
]
