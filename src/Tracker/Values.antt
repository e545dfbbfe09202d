-- ===== src/Tracker/Values.antt =====
-- The fields of a stored value are read back, and a change of its child count keeps the others
-- (internal/consensus/tracker.go).
use blue_pods.Prelude.{
  take-within, length-take, take-drop, ℕ, zero, suc, ◌+◌, ◌^◌, ◌≤◌, ◌<◌, ◌≡◌, ap, sym, ◌∙◌, List,
  [], ◌∷◌, ◌++◌, arith, length, take, drop, length-append, take-append, take_all, drop-append,
  drop-drop,
}
use blue_pods.Types.{Hash}
use blue_pods.Bytes.{le_bytes, le_num, length-le_bytes, le_num-le_bytes}
use blue_pods.Tracker.{
  encode_value, version_of, replication_of, fees_of, parent_of, children_of, with_children,
}

-- The ranges of the fields.
pub record IsEntry (version replication fees kind : ℕ) (parent : Hash) (count : ℕ) : Type 0 where
  pub word : version < 2 ^ 64
  pub holders : replication < 2 ^ 16
  pub deposit : fees < 2 ^ 64
  pub key : length parent ≡ 32
  pub children : count < 2 ^ 32

module _ (version replication fees kind : ℕ) (parent : Hash) (count : ℕ)
    (key : length parent ≡ 32) where
  abbrev tail_of_children : List ℕ
  tail_of_children = le_bytes 4 count

  abbrev tail_of_parent : List ℕ
  tail_of_parent = parent ++ tail_of_children

  abbrev tail_of_kind : List ℕ
  tail_of_kind = (kind ∷ []) ++ tail_of_parent

  abbrev tail_of_fees : List ℕ
  tail_of_fees = le_bytes 8 fees ++ tail_of_kind

  abbrev tail_of_replication : List ℕ
  tail_of_replication = le_bytes 2 replication ++ tail_of_fees

  abbrev value : List ℕ
  value = le_bytes 8 version ++ tail_of_replication

  length-value : length value ≡ 55
  length-value = omega (
    arith,
    length-append (le_bytes 8 version) tail_of_replication,
    length-append (le_bytes 2 replication) tail_of_fees,
    length-append (le_bytes 8 fees) tail_of_kind,
    length-append parent tail_of_children,
    length-le_bytes 8 version,
    length-le_bytes 2 replication,
    length-le_bytes 8 fees,
    length-le_bytes 4 count,
    key,
  )

  at_8 : drop 8 value ≡ tail_of_replication
  at_8 = drop-append (le_bytes 8 version) tail_of_replication 8 (length-le_bytes 8 version)

  at_10 : drop 10 value ≡ tail_of_fees
  at_10 =
      sym (drop-drop 8 2 value)
      ∙ ap (drop 2) at_8
      ∙ drop-append (le_bytes 2 replication) tail_of_fees 2 (length-le_bytes 2 replication)

  at_18 : drop 18 value ≡ tail_of_kind
  at_18 =
      sym (drop-drop 10 8 value)
      ∙ ap (drop 8) at_10
      ∙ drop-append (le_bytes 8 fees) tail_of_kind 8 (length-le_bytes 8 fees)

  at_19 : drop 19 value ≡ tail_of_parent
  at_19 = sym (drop-drop 18 1 value) ∙ ap (drop 1) at_18

  at_51 : drop 51 value ≡ tail_of_children
  at_51 =
      sym (drop-drop 19 32 value) ∙ ap (drop 32) at_19 ∙ drop-append parent tail_of_children 32 key

  version-value : IsEntry version replication fees kind parent count → version_of value ≡ version
  unfolding version_of
  version-value h =
      rw
        (
          length-value,
          take-append (le_bytes 8 version) tail_of_replication 8 (length-le_bytes 8 version),
        )
        (le_num-le_bytes 8 version (omega (arith, h.word)))

  replication-value :
      IsEntry version replication fees kind parent count → replication_of value ≡ replication
  unfolding replication_of
  replication-value h =
      rw
        (
          length-value,
          at_8,
          take-append (le_bytes 2 replication) tail_of_fees 2 (length-le_bytes 2 replication),
        )
        (le_num-le_bytes 2 replication (omega (arith, h.holders)))

  fees-value : IsEntry version replication fees kind parent count → fees_of value ≡ fees
  unfolding fees_of
  fees-value h =
      rw
        (length-value, at_10, take-append (le_bytes 8 fees) tail_of_kind 8 (length-le_bytes 8 fees))
        (le_num-le_bytes 8 fees (omega (arith, h.deposit)))

  parent-value : parent_of value ≡ (kind, parent)
  unfolding parent_of le_num
  parent-value =
      rw (length-value, at_18, at_19, take-append parent tail_of_children 32 key) ground arith

  children-value : IsEntry version replication fees kind parent count → children_of value ≡ count
  unfolding children_of
  children-value h =
      rw (length-value, at_51, take_all (le_bytes 4 count) 4 (length-le_bytes 4 count))
        (le_num-le_bytes 4 count (omega (arith, h.children)))

  pub parent-encode_value :
      parent_of (encode_value version replication fees kind parent count) ≡ (kind, parent)
  unfolding encode_value
  parent-encode_value = parent-value

-- Every field of an encoded entry is read back, if it fits its width and the parent has 32 bytes.
encode_value_lem :
    (version replication fees kind : ℕ) (parent : Hash) (count : ℕ)
    → IsEntry version replication fees kind parent count
    → (version_of (encode_value version replication fees kind parent count) ≡ version)
      × (replication_of (encode_value version replication fees kind parent count) ≡ replication)
      × (fees_of (encode_value version replication fees kind parent count) ≡ fees)
      × (parent_of (encode_value version replication fees kind parent count) ≡ (kind, parent))
      × (children_of (encode_value version replication fees kind parent count) ≡ count)
unfolding encode_value
encode_value_lem version replication fees kind parent count h = (
  version-value version replication fees kind parent count h.key h,
  replication-value version replication fees kind parent count h.key h,
  fees-value version replication fees kind parent count h.key h,
  parent-value version replication fees kind parent count h.key,
  children-value version replication fees kind parent count h.key h,
)

-- A window within a common front is the same whatever follows.
window :
    (xs ys zs : List ℕ) (m n : ℕ)
    → m + n ≤ length xs
    → take n (drop m (xs ++ ys)) ≡ take n (drop m (xs ++ zs))
window xs ys zs zero n h =
    take-within n xs ys (omega arith) ∙ sym (take-within n xs zs (omega arith))
window [] ys zs (suc m) n h = absurd (omega arith)
window (x ∷ xs) ys zs (suc m) n h = window xs ys zs m n (omega arith)

parent_of_long :
    (v : List ℕ) → 55 ≤ length v → parent_of v ≡ (le_num (take 1 (drop 18 v)), take 32 (drop 19 v))
unfolding parent_of
parent_of_long v h = ground arith

-- A new child count keeps the parent.
pub parent-with_children :
    (v : List ℕ) (count : ℕ) → 55 ≤ length v → parent_of (with_children v count) ≡ parent_of v
unfolding with_children
parent-with_children v count h =
    let front = length-take 51 v (omega arith) in
    let whole = take-drop 51 v in
    let after = le_bytes 4 count ++ drop 55 v in
    let size : 55 ≤ length (take 51 v ++ after) = omega (
      arith,
      length-append (take 51 v) after,
      length-append (le_bytes 4 count) (drop 55 v),
      length-le_bytes 4 count,
      front,
    ) in
    let kinds : take 1 (drop 18 (take 51 v ++ after)) ≡ take 1 (drop 18 v) =
      window (take 51 v) after (drop 51 v) 18 1 (omega (arith, front))
      ∙ ap (λ x. take 1 (drop 18 x)) whole in
    let parents : take 32 (drop 19 (take 51 v ++ after)) ≡ take 32 (drop 19 v) =
      window (take 51 v) after (drop 51 v) 19 32 (omega (arith, front))
      ∙ ap (λ x. take 32 (drop 19 x)) whole in
    parent_of_long (take 51 v ++ after) size
    ∙ (λ i. (le_num (kinds i), parents i))
    ∙ sym (parent_of_long v h)

-- A new child count keeps the version.
pub version-with_children :
    (v : List ℕ) (count : ℕ) → 55 ≤ length v → version_of (with_children v count) ≡ version_of v
unfolding version_of with_children
version-with_children v count h =
    let after = le_bytes 4 count ++ drop 55 v in
    let front = length-take 51 v (omega arith) in
    let eight : take 8 (take 51 v ++ after) ≡ take 8 v =
      window (take 51 v) after (drop 51 v) 0 8 (omega (arith, front))
      ∙ ap (take 8) (take-drop 51 v) in
    rw (eight) ground (arith, front, length-append (take 51 v) after)

-- The version of an encoded entry is read back, whatever the other fields are.
pub version-encode_value :
    (version replication fees kind : ℕ) (parent : Hash) (count : ℕ)
    → version < 2 ^ 64
    → version_of (encode_value version replication fees kind parent count) ≡ version
unfolding encode_value version_of
version-encode_value version replication fees kind parent count h =
    let rest =
      le_bytes 2 replication
      ++ (le_bytes 8 fees ++ ((kind ∷ []) ++ (parent ++ le_bytes 4 count))) in
    let size = length-append (le_bytes 8 version) rest in
    let eight = length-le_bytes 8 version in
    let read = take-append (le_bytes 8 version) rest 8 eight in
    rw (read, le_num-le_bytes 8 version (omega (arith, h))) ground (arith, size, eight)
