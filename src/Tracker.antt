-- ===== src/Tracker.antt =====
-- The object tracker of internal/consensus/tracker.go and the walks of internal/consensus/walk.go:
-- version, replication, fees, parent and child count of an object, stored as 55 bytes, or as the
-- first 18 of them in a legacy value. The database is a function from the keys without their
-- prefix; a failing read or write of the database is left out.
pub mod Values
pub mod Fields
pub mod Parents
pub mod Versions
pub mod Deletions
pub mod Walks
pub mod Tests
use blue_pods.Prelude.{
  ℕ, zero, suc, ◌+◌, ◌-◌, ◌%◌, ◌^◌, List, [], ◌∷◌, ◌++◌, Option, none, some, Bool, true, false,
  ◌&&◌, not, ltb, ◌==◌, if◌then◌else◌, length, take, drop, get_or, replicate, bytes_eq,
}
use blue_pods.Types.{Hash, TxRef, Tx}
use blue_pods.Word.{add64}
use blue_pods.Bytes.{le_bytes, le_num}

abbrev pub key_root_kind : ℕ
key_root_kind = 0

abbrev pub object_parent_kind : ℕ
object_parent_kind = 1

abbrev zero_hash : Hash
zero_hash = replicate 32 0

pub record Tracker : Type 0 where
  pub entries : Hash → Option (List ℕ)
  pub committed : Hash → Bool

abbrev put_entry : Hash → List ℕ → Tracker → Tracker
put_entry id value t = record t { entries = λ k. if bytes_eq id k then some value else t.entries k }

abbrev drop_entry : Hash → Tracker → Tracker
drop_entry id t = record t { entries = λ k. if bytes_eq id k then none else t.entries k }

unfoldable encode_value : ℕ → ℕ → ℕ → ℕ → Hash → ℕ → List ℕ
encode_value version replication fees parent_kind parent child_count =
    le_bytes 8 version
    ++ (le_bytes 2 replication
        ++ (le_bytes 8 fees ++ ((parent_kind ∷ []) ++ (parent ++ le_bytes 4 child_count))))

-- The getters on a stored value.
unfoldable version_of : List ℕ → ℕ
version_of v = if ltb (length v) 8 then 0 else le_num (take 8 v)

unfoldable replication_of : List ℕ → ℕ
replication_of v = if ltb (length v) 10 then 0 else le_num (take 2 (drop 8 v))

unfoldable fees_of : List ℕ → ℕ
fees_of v = if ltb (length v) 18 then 0 else le_num (take 8 (drop 10 v))

unfoldable pub parent_of : List ℕ → ℕ × Hash
parent_of v =
    if ltb (length v) 55
    then (key_root_kind, zero_hash)
    else (le_num (take 1 (drop 18 v)), take 32 (drop 19 v))

unfoldable children_of : List ℕ → ℕ
children_of v = if ltb (length v) 55 then 0 else le_num (take 4 (drop 51 v))

pub get_version : Hash → Tracker → ℕ
get_version id t = elim (t.entries id) [ none ↦ 0 | some v ↦ version_of v ]

get_replication : Hash → Tracker → ℕ
get_replication id t = elim (t.entries id) [ none ↦ 0 | some v ↦ replication_of v ]

pub get_fees : Hash → Tracker → ℕ
get_fees id t = elim (t.entries id) [ none ↦ 0 | some v ↦ fees_of v ]

-- `none` is an object that is not tracked.
unfoldable pub get_parent : Hash → Tracker → Option (ℕ × Hash)
get_parent id t = elim (t.entries id) [ none ↦ none | some v ↦ some (parent_of v) ]

pub child_count : Hash → Tracker → ℕ
child_count id t = elim (t.entries id) [ none ↦ 0 | some v ↦ children_of v ]

-- A delta is a residue modulo 2^32, as the conversion to uint32 takes it.
abbrev pub plus_one : ℕ
plus_one = 1

abbrev pub minus_one : ℕ
minus_one = 2 ^ 32 - 1

pub with_children : List ℕ → ℕ → List ℕ
with_children v count = take 51 v ++ (le_bytes 4 count ++ drop 55 v)

pub adjust_child_count : ℕ → Hash → ℕ → Tracker → Tracker
unfolding with_children
adjust_child_count kind parent delta t =
    if not (kind == object_parent_kind) then t else elim (t.entries parent) [
      | none ↦ t
      | some v ↦
          if ltb (length v) 55
          then t
          else put_entry parent (with_children v ((le_num (take 4 (drop 51 v)) + delta) % (2 ^ 32)))
              t
    ]

-- The old edge is `none` for a new object.
pub rebind_child_count : Option (ℕ × Hash) → ℕ → Hash → Tracker → Tracker
unfolding adjust_child_count
rebind_child_count none kind parent t = adjust_child_count kind parent plus_one t
rebind_child_count (some (old_kind, old_parent)) kind parent t =
    if (old_kind == kind) && bytes_eq old_parent parent
    then t
    else adjust_child_count kind parent plus_one
        (adjust_child_count old_kind old_parent minus_one t)

track_object : Hash → ℕ → ℕ → ℕ → ℕ → Hash → Tracker → Tracker
unfolding rebind_child_count child_count
track_object id version replication fees kind parent t =
    let value = encode_value version replication fees kind parent (child_count id t) in
    rebind_child_count (get_parent id t) kind parent (put_entry id value t)

pub set_parent : Hash → ℕ → Hash → Tracker → Tracker
unfolding rebind_child_count child_count get_version get_replication get_fees
set_parent id kind parent t =
    let value =
      encode_value (get_version id t) (get_replication id t) (get_fees id t) kind parent
        (child_count id t) in
    rebind_child_count (get_parent id t) kind parent (put_entry id value t)

pub delete_object : Hash → Tracker → Tracker
unfolding adjust_child_count
delete_object id t = elim (get_parent id t) [
  | none ↦ drop_entry id t
  | some (kind, parent) ↦ adjust_child_count kind parent minus_one (drop_entry id t)
]

-- A reference without an ID is a domain reference if it has a domain, and malformed otherwise.
check_refs : List TxRef → Tracker → Bool
unfolding get_version
check_refs [] t = true
check_refs (ref ∷ refs) t =
    let rest = check_refs refs t in
    if not (length ref.id == 32)
    then (if ltb 0 (length ref.domain) then rest else false)
    else if get_version ref.id t == ref.version
    then rest
    else false

-- The edge that `getParent` returns when its flag is dropped.
edge_or_zero : Option (ℕ × Hash) → ℕ × Hash
edge_or_zero none = (key_root_kind, zero_hash)
edge_or_zero (some edge) = edge

increment : Hash → Tracker → Tracker
unfolding track_object get_version get_replication get_fees edge_or_zero
increment id t =
    let (kind, parent) = edge_or_zero (get_parent id t) in
    track_object id (add64 (get_version id t) 1) (get_replication id t) (get_fees id t) kind parent
      t

increment_refs : List TxRef → Tracker → Tracker
unfolding increment
increment_refs [] t = t
increment_refs (ref ∷ refs) t =
    increment_refs refs (if length ref.id == 32 then increment ref.id t else t)

pub check_and_update : Tx → Tracker → Tracker × Bool
unfolding check_refs increment_refs
check_and_update tx t =
    if not (check_refs tx.read_refs t && check_refs tx.mutable_refs t)
    then (t, false)
    else (increment_refs tx.mutable_refs t, true)

was_committed : Hash → Tracker → Bool
was_committed tx_hash t = t.committed tx_hash

mark_committed : Hash → Tracker → Tracker
mark_committed tx_hash t = record t {
  committed = λ k. if bytes_eq tx_hash k then true else t.committed k;
}

-- The walks over parent edges.
abbrev pub walk_depth_limit : ℕ
walk_depth_limit = 256

unfoldable controller_loop : ℕ → Hash → Tracker → Option Hash
controller_loop zero current t = none
controller_loop (suc n) current t = elim (get_parent current t) [
  | none ↦ none
  | some (kind, parent) ↦ elim (kind == key_root_kind) [
    | true ↦ some parent
    | false ↦ controller_loop n parent t
  ]
]

pub controller_of : Hash → Tracker → Option Hash
controller_of id t = controller_loop walk_depth_limit id t

controls : Hash → Hash → Tracker → Bool
unfolding controller_of
controls sender id t = elim (controller_of id t) [
  | none ↦ false
  | some controller ↦ bytes_eq controller sender
]

unfoldable cycle_loop : ℕ → Hash → Hash → Tracker → Bool
cycle_loop zero id current t = true
cycle_loop (suc n) id current t = elim (bytes_eq current id) [
  | true ↦ true
  | false ↦ elim (get_parent current t) [
    | none ↦ true
    | some (kind, parent) ↦ elim (kind == key_root_kind) [
      | true ↦ false
      | false ↦ cycle_loop n id parent t
    ]
  ]
]

pub would_cycle : Hash → ℕ → Hash → Tracker → Bool
would_cycle id new_parent_kind new_parent t =
    if new_parent_kind == key_root_kind then false else cycle_loop walk_depth_limit id new_parent t
