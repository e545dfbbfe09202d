-- ===== src/Tracker/Parents.antt =====
-- What setParent does to the parent edges (internal/consensus/tracker.go).
use blue_pods.Prelude.{
  ℕ, ◌≡◌, ◌∙◌, List, some, none, Option-cases, inl, inr, if◌then◌else◌, arith, length, bytes_eq,
}
use blue_pods.Types.{Hash}
use blue_pods.Tracker.{
  Tracker, encode_value, parent_of, put_entry, get_parent, get_version, get_replication, get_fees,
  child_count, set_parent, delete_object, drop_entry, minus_one,
}
use blue_pods.Tracker.Fields.{look-rebind_child_count, look-adjust_child_count}
use blue_pods.Tracker.Values.{parent-encode_value, parent-with_children}

get_parent-put_entry :
    (id : Hash) (value : List ℕ) (kind : ℕ) (parent : Hash) (t : Tracker) (k : Hash)
    → parent_of value ≡ (kind, parent)
    → get_parent k (put_entry id value t)
      ≡ (if bytes_eq id k then some (kind, parent) else get_parent k t)
unfolding get_parent
get_parent-put_entry id value kind parent t k edge = ground (arith, edge)

-- Setting an object's parent sets that edge, and no other object's, for a parent of 32 bytes.
pub get_parent-set_parent :
    (id : Hash) (kind : ℕ) (parent : Hash) (t : Tracker) (k : Hash)
    → length parent ≡ 32
    → get_parent k (set_parent id kind parent t)
      ≡ (if bytes_eq id k then some (kind, parent) else get_parent k t)
unfolding set_parent get_parent
get_parent-set_parent id kind parent t k wide =
    let value =
      encode_value (get_version id t) (get_replication id t) (get_fees id t) kind parent
        (child_count id t) in
    let edge =
      parent-encode_value (get_version id t) (get_replication id t) (get_fees id t) kind parent
        (child_count id t) wide in
    look-rebind_child_count parent_of parent-with_children (get_parent id t) kind parent
      (put_entry id value t) k
    ∙ get_parent-put_entry id value kind parent t k edge

-- A deleted object has no edge, and the others keep theirs.
pub get_parent-delete_object :
    (id : Hash) (t : Tracker) (k : Hash)
    → get_parent k (delete_object id t) ≡ (if bytes_eq id k then none else get_parent k t)
unfolding delete_object get_parent
get_parent-delete_object id t k = elim (Option-cases (t.entries id)) [
  | inl absent ↦ ground (arith, absent)
  | inr (v, there) ↦ ground (
    arith,
    there,
    look-adjust_child_count parent_of parent-with_children (parent_of v).0 (parent_of v).1 minus_one
        (drop_entry id t) k,
  )
]
