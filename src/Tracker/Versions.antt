-- ===== src/Tracker/Versions.antt =====
-- The version check of internal/consensus/tracker.go lets a transaction that changes an object
-- pass once.
use blue_pods.Prelude.{
  ℕ, ◌+◌, ◌%◌, ◌^◌, ◌<◌, ◌≡◌, ◌≢◌, ◌⊎◌, ap, ◌∙◌, List, [], ◌∷◌, Option, none, some, true, false,
  ◌&&◌, ◌==◌, if◌then◌else◌, arith, length, bytes_eq, bytes_eq_iff, Bool-cases, inl, inr,
}
use blue_pods.Types.{Hash, Tx, TxRef}
use blue_pods.Word.{add64}
use blue_pods.Tracker.{
  Tracker, encode_value, version_of, put_entry, get_parent, get_version, get_replication, get_fees,
  child_count, track_object, rebind_child_count, edge_or_zero, increment, increment_refs,
  check_refs, check_and_update,
}
use blue_pods.Tracker.Fields.{look, look-rebind_child_count}
use blue_pods.Tracker.Values.{version-encode_value, version-with_children}

version_or_zero : Option ℕ → ℕ
version_or_zero none = 0
version_or_zero (some v) = v

get_version-look :
    (k : Hash) (t : Tracker) → get_version k t ≡ version_or_zero (look version_of k t)
unfolding get_version version_or_zero
get_version-look k t = ground arith

get_version-track_object :
    (id : Hash) (version replication fees kind : ℕ) (parent : Hash) (t : Tracker) (k : Hash)
    → version < 2 ^ 64
    → get_version k (track_object id version replication fees kind parent t)
      ≡ (if bytes_eq id k then version else get_version k t)
unfolding track_object get_version version_or_zero
get_version-track_object id version replication fees kind parent t k word =
    let value = encode_value version replication fees kind parent (child_count id t) in
    let written = put_entry id value t in
    let read = version-encode_value version replication fees kind parent (child_count id t) word in
    let kept =
      look-rebind_child_count version_of version-with_children (get_parent id t) kind parent written
        k in
    get_version-look k (rebind_child_count (get_parent id t) kind parent written)
    ∙ ap version_or_zero kept
    ∙ ground (arith, read)

-- How often a list of references names an object.
abbrev pub occurrences : Hash → List TxRef → ℕ
occurrences k [] = 0
occurrences k (ref ∷ refs) =
    (if (length ref.id == 32) && bytes_eq ref.id k then 1 else 0) + occurrences k refs

get_version-increment :
    (id : Hash) (t : Tracker) (k : Hash)
    → get_version k (increment id t)
      ≡ (if bytes_eq id k then (get_version id t + 1) % 2 ^ 64 else get_version k t)
unfolding increment
get_version-increment id t k =
    let (kind, parent) = edge_or_zero (get_parent id t) in
    get_version-track_object id (add64 (get_version id t) 1) (get_replication id t) (get_fees id t)
      kind parent t k (omega arith)

get_version-increment_refs :
    (refs : List TxRef) (t : Tracker) (k : Hash)
    → get_version k t < 2 ^ 64
    → get_version k (increment_refs refs t) ≡ (get_version k t + occurrences k refs) % 2 ^ 64
unfolding increment_refs
get_version-increment_refs [] t k word = omega (arith, word)
get_version-increment_refs (ref ∷ refs) t k word = elim (Bool-cases (length ref.id == 32)) [
  | inl object ↦
      let step = get_version-increment ref.id t k in
      let small : get_version k (increment ref.id t) < 2 ^ 64 = ground (arith, step, word) in
      let rest = get_version-increment_refs refs (increment ref.id t) k small in
      rw (object) (ground (arith, step, rest, bytes_eq_iff ref.id k))
  | inr domain ↦ rw (domain) (omega (arith, get_version-increment_refs refs t k word))
]

-- References that were current are stale once the version of one of them has moved.
check_refs_stale :
    (refs : List TxRef) (t t' : Tracker) (k : Hash)
    → check_refs refs t ≡ true
    → 0 < occurrences k refs
    → get_version k t' ≢ get_version k t
    → check_refs refs t' ≡ false
unfolding check_refs
check_refs_stale [] t t' k passed named moved = absurd (omega arith)
check_refs_stale (ref ∷ refs) t t' k passed named moved =
    elim (Bool-cases ((length ref.id == 32) && bytes_eq ref.id k)) [
      | inl here ↦ ground (arith, bytes_eq_iff ref.id k)
      | inr away ↦
          let rest = check_refs_stale refs t t' k (ground arith) (ground arith) moved in
          ground (arith, rest)
    ]

-- The version check is all or nothing: a refusal changes nothing, and after a success an
-- object's version has risen by the number of mutable references that name it, modulo 2^64, and the
-- same transaction is refused from there. The transaction must name the object as mutable,
-- fewer than 2^64 times, and the object's version be a 64-bit one.
pub check_and_update_lem :
    (tx : Tx) (t : Tracker) (k : Hash)
    → 0 < occurrences k tx.mutable_refs
    → occurrences k tx.mutable_refs < 2 ^ 64
    → get_version k t < 2 ^ 64
    → (check_and_update tx t ≡ (t, false))
      ⊎ ((t' : Tracker) × (check_and_update tx t ≡ (t', true))
          × (get_version k t' ≡ (get_version k t + occurrences k tx.mutable_refs) % 2 ^ 64)
          × (check_and_update tx t' ≡ (t', false)))
unfolding check_and_update
check_and_update_lem tx t k named few word =
    elim (Bool-cases (check_refs tx.read_refs t && check_refs tx.mutable_refs t)) [
      | inr refused ↦ inl (ground (arith, refused))
      | inl passed ↦
          let t' = increment_refs tx.mutable_refs t in
          let risen = get_version-increment_refs tx.mutable_refs t k word in
          let moved : get_version k t' ≢ get_version k t =
            λ same. absurd (omega (arith, same, risen)) in
          let stale =
            check_refs_stale tx.mutable_refs t t' k (ground (arith, passed)) named moved in
          inr (t', ground (arith, passed), risen, ground (arith, stale))
    ]
