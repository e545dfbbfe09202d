-- ===== src/Fees/Ratio.antt =====
-- ReplicationRatio: the share of the validators that executes a transaction.
use blue_pods.Prelude.{
  ℕ, suc, ◌≤◌, ◌<◌, ◌≡◌, true, false, List, [], ◌∷◌, length, All, bytes_eq, bytes_eq_iff, arith,
  if◌then◌else◌, Bool-cases, inl, inr,
}
use blue_pods.Types.{Hash, contains}
use blue_pods.Fees.{ObjectRef, add_key, add_keys, holder_union, ratio_of_refs, replication_ratio}

abbrev IsDistinct : List Hash → Type 0
IsDistinct [] = Unit
IsDistinct (x ∷ xs) = (contains x xs ≡ false) × IsDistinct xs

-- Every key of the first list is one of the second.
abbrev pub Within : List Hash → List Hash → Type 0
Within xs vs = All (λ x. contains x vs ≡ true) xs

remove : Hash → List Hash → List Hash
remove h [] = []
remove h (x ∷ xs) = if bytes_eq h x then xs else x ∷ remove h xs

length-remove :
    (h : Hash) (vs : List Hash) → contains h vs ≡ true → suc (length (remove h vs)) ≡ length vs
unfolding contains remove
length-remove h [] c = cc
length-remove h (v ∷ vs) c = ground (arith, length-remove h vs)

contains-remove :
    (h x : Hash) (vs : List Hash)
    → bytes_eq x h ≡ false
    → contains x vs ≡ true
    → contains x (remove h vs) ≡ true
unfolding contains remove
contains-remove h x [] d c = cc
contains-remove h x (v ∷ vs) d c =
    ground (arith, contains-remove h x vs d, bytes_eq_iff h v, bytes_eq_iff x v, bytes_eq_iff x h)

Within-remove :
    (h : Hash) (xs vs : List Hash) → contains h xs ≡ false → Within xs vs → Within xs (remove h vs)
unfolding contains
Within-remove h [] vs d w = tt
Within-remove h (x ∷ xs) vs d w =
    ground
      (arith, Within-remove h xs vs, contains-remove h x vs, bytes_eq_iff h x, bytes_eq_iff x h)

length-le_of_Within : (xs vs : List Hash) → IsDistinct xs → Within xs vs → length xs ≤ length vs
length-le_of_Within [] vs d w = omega arith
length-le_of_Within (x ∷ xs) vs d w = omega (
  arith,
  length-remove x vs w.0,
  length-le_of_Within xs (remove x vs) d.1 (Within-remove x xs vs d.0 w.1),
)

add_keys_sound :
    (hs seen vs : List Hash)
    → Within hs vs
    → IsDistinct seen
    → Within seen vs
    → IsDistinct (add_keys hs seen) × Within (add_keys hs seen) vs
unfolding add_keys add_key
add_keys_sound [] seen vs w d s = (d, s)
add_keys_sound (h ∷ hs) seen vs w d s = elim (Bool-cases (contains h seen)) [
  | inl old ↦ rw old (add_keys_sound hs seen vs w.1 d s)
  | inr new ↦ rw new (add_keys_sound hs (h ∷ seen) vs w.1 (new, d) (w.0, s))
]

module _ (compute_holders : Hash → ℕ → List Hash) (vs : List Hash)
    (among : (id : Hash) (replication : ℕ) → Within (compute_holders id replication) vs) where
  holder_union_sound :
      (refs : List ObjectRef) (seen : List Hash)
      → IsDistinct seen
      → Within seen vs
      → IsDistinct (holder_union compute_holders refs seen)
        × Within (holder_union compute_holders refs seen) vs
  unfolding holder_union
  holder_union_sound [] seen d s = (d, s)
  holder_union_sound (ref ∷ refs) seen d s =
      let k =
        add_keys_sound (compute_holders ref.id ref.replication) seen vs
          (among ref.id ref.replication) d s in
      holder_union_sound refs (add_keys (compute_holders ref.id ref.replication) seen) k.0 k.1

  -- When holders are validators, the ratio is a proper fraction: a denominator that is not zero
  -- and a numerator that does not pass it, on every branch.
  replication_ratio_bounds :
      (refs : List ObjectRef) (created : ℕ)
      → ((replication_ratio refs created compute_holders (length vs)).0
          ≤ (replication_ratio refs created compute_holders (length vs)).1)
        × (0 < (replication_ratio refs created compute_holders (length vs)).1)
  unfolding replication_ratio ratio_of_refs
  replication_ratio_bounds [] created = ground arith
  replication_ratio_bounds (ref ∷ refs) created =
      let s = holder_union_sound (ref ∷ refs) [] tt tt in
      ground (arith, length-le_of_Within (holder_union compute_holders (ref ∷ refs) []) vs s.0 s.1)
