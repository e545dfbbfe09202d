-- ===== src/Tracker/Deletions.antt =====
-- A deleted object is out of the tracker (internal/consensus/tracker.go).
use blue_pods.Prelude.{
  ℕ, ◌≡◌, refl, ap, ◌∙◌, List, none, Bool, true, arith, bytes_eq_refl, Option-cases, inl, inr,
}
use blue_pods.Types.{Hash}
use blue_pods.Tracker.{
  Tracker, drop_entry, get_fees, get_parent, adjust_child_count, delete_object, minus_one,
}
use blue_pods.Tracker.Fields.{look, look-adjust_child_count}

-- Whether an object is tracked.
abbrev tracked : List ℕ → Bool
tracked v = true

gone : (id : Hash) (t : Tracker) → look tracked id (delete_object id t) ≡ none
unfolding delete_object
gone id t = elim (Option-cases (get_parent id t)) [
  | inl absent ↦ ground (arith, absent, bytes_eq_refl id)
  | inr ((kind, parent), edge) ↦
      let same : delete_object id t ≡ adjust_child_count kind parent minus_one (drop_entry id t) =
        ground (arith, edge) in
      ap (look tracked id) same
      ∙ look-adjust_child_count tracked (λ v count long. refl) kind parent minus_one
          (drop_entry id t) id
      ∙ ground (arith, bytes_eq_refl id)
]

-- A deleted object's deposit is released.
pub get_fees-delete_object : (id : Hash) (t : Tracker) → get_fees id (delete_object id t) ≡ 0
unfolding get_fees
get_fees-delete_object id t = ground (arith, gone id t)
