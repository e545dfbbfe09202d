-- ===== src/Tracker/Fields.antt =====
-- A field of an entry under the writes of the tracker: a write of an entry sets it at one object,
-- and the bookkeeping of child counts leaves it alone (internal/consensus/tracker.go).
use blue_pods.Prelude.{
  ℕ, ◌+◌, ◌%◌, ◌^◌, ◌≤◌, ◌≡◌, refl, ◌∙◌, List, Option, none, some, ltb, ◌==◌, ◌&&◌, arith, length,
  take, drop, bytes_eq, bytes_eq_iff, Option-cases, Bool-cases, inl, inr,
}
use blue_pods.Types.{Hash}
use blue_pods.Bytes.{le_num}
use blue_pods.Tracker.{
  Tracker, with_children, adjust_child_count, rebind_child_count, minus_one, plus_one,
}

-- A field of the entry of an object, if the object is tracked.
abbrev pub look {ℓ} : {A : Type ℓ} → (List ℕ → A) → Hash → Tracker → Option A
look f k t = elim (t.entries k) [ none ↦ none | some v ↦ some (f v) ]

module _ {ℓ} {A : Type ℓ} (f : List ℕ → A)
    (keeps : (v : List ℕ) (count : ℕ) → 55 ≤ length v → f (with_children v count) ≡ f v) where
  pub look-adjust_child_count :
      (kind : ℕ) (parent : Hash) (delta : ℕ) (t : Tracker) (k : Hash)
      → look f k (adjust_child_count kind parent delta t) ≡ look f k t
  unfolding adjust_child_count
  look-adjust_child_count kind parent delta t k = elim (Option-cases (t.entries parent)) [
    | inl absent ↦ ground arith
    | inr (v, there) ↦ elim (Bool-cases (ltb (length v) 55)) [
      | inl short ↦ ground (arith, there, short)
      | inr long ↦
          let count = (le_num (take 4 (drop 51 v)) + delta) % 2 ^ 32 in
          let same = keeps v count (ground arith) in
          ground (arith, there, long, same, bytes_eq_iff parent k)
    ]
  ]

  pub look-rebind_child_count :
      (old : Option (ℕ × Hash)) (kind : ℕ) (parent : Hash) (t : Tracker) (k : Hash)
      → look f k (rebind_child_count old kind parent t) ≡ look f k t
  unfolding rebind_child_count
  look-rebind_child_count none kind parent t k = look-adjust_child_count kind parent plus_one t k
  look-rebind_child_count (some (old_kind, old_parent)) kind parent t k =
      elim (Bool-cases ((old_kind == kind) && bytes_eq old_parent parent)) [
        | inl same ↦ rw (same) refl
        | inr other ↦ rw (other) (
            look-adjust_child_count kind parent plus_one
              (adjust_child_count old_kind old_parent minus_one t) k
            ∙ look-adjust_child_count old_kind old_parent minus_one t k)
      ]
