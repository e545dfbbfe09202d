-- ===== src/Smt.antt =====
-- The sparse Merkle tree of internal/index/smt.go and smt_inc.go. BLAKE3 is a parameter. A nil node
-- is `empty`; a node's memoised hash and its dirty flag are fields of the model's nodes, and the
-- functions that change nodes in place return the changed node. The hash counter, a hook of the
-- benchmarks, is left out. A bit is read at a depth below 256, except where `splitLeaves` runs out
-- of bits: there the index is out of range, and the panic is `none`.
pub mod Bits
pub mod Shape
pub mod Splitting
pub mod Inserting
pub mod Deleting
pub mod Hashing
pub mod Canonical
pub mod States
pub mod Proofs
pub mod Binding
pub mod Paths
pub mod Walking
pub mod Runs
pub mod Completeness
pub mod Descending
pub mod Soundness
pub mod Wire
pub mod Tests
use blue_pods.Prelude.{
  ℕ, zero, suc, ◌-◌, ◌/◌, ◌%◌, ◌^◌, List, ◌∷◌, ◌++◌, Option, none, some, Bool, true, false, ◌==◌,
  ◌>>=◌, if◌then◌else◌, get_or, replicate, bytes_eq,
}
use blue_pods.Types.{Hash}

abbrev tree_depth : ℕ
tree_depth = 256

abbrev leaf_prefix : ℕ
leaf_prefix = 0

abbrev internal_prefix : ℕ
internal_prefix = 1

abbrev zero_hash : Hash
zero_hash = replicate 32 0

pub record Entry : Type 0 where
  pub key_hash : Hash
  pub value_hash : Hash
  pub value : List ℕ

pub record Leaf : Type 0 where
  pub leaf_key : Hash
  pub leaf_value : Hash
  pub leaf_memo : Hash

pub data Node : Type 0 where
  empty : Node
  leaf : Leaf → Node
  internal : Node → Node → Hash → Bool → Node

pub record Smt : Type 0 where
  pub entries : Hash → Option Entry
  pub root : Node

unfoldable bit : Hash → ℕ → ℕ
bit h i = get_or h (i / 8) 0 / 2 ^ (7 - i % 8) % 2

abbrev new : Smt
new = record { entries = λ k. none; root = empty }

unfoldable branch : Node → Node → ℕ → Node
branch first second first_bit =
    if first_bit == 0
    then internal first second zero_hash true
    else internal second first zero_hash true

-- `levels` is the number of bits from `depth` to the end of the key.
unfoldable split_leaves : ℕ → Leaf → Leaf → ℕ → Option Node
split_leaves zero a b depth = none
split_leaves (suc levels) a b depth =
    let rest = split_leaves levels a b (suc depth) in
    if bit a.leaf_key depth == bit b.leaf_key depth
    then (do inner ← rest; some (branch inner empty (bit a.leaf_key depth)))
    else some (branch (leaf a) (leaf b) (bit a.leaf_key depth))

unfoldable collapse : Node → Node
collapse (internal empty (leaf l) h dirty) = leaf l
collapse (internal (leaf l) empty h dirty) = leaf l
collapse n = n

unfoldable delete_node : Node → ℕ → Hash → Node
delete_node empty depth key_hash = empty
delete_node (leaf l) depth key_hash = if bytes_eq l.leaf_key key_hash then empty else leaf l
delete_node (internal left right h dirty) depth key_hash =
    if bit key_hash depth == 0
    then collapse (internal (delete_node left (suc depth) key_hash) right h true)
    else collapse (internal left (delete_node right (suc depth) key_hash) h true)

module _ (blake3 : List ℕ → Hash) where
  unfoldable leaf_hash : Hash → Hash → Hash
  leaf_hash key_hash value_hash = blake3 (leaf_prefix ∷ key_hash ++ value_hash)

  unfoldable internal_hash : Hash → Hash → Hash
  internal_hash left right = blake3 (internal_prefix ∷ left ++ right)

  -- The empty subtree that stands a number of levels above the bottom.
  unfoldable compute_default_hashes : ℕ → Hash
  compute_default_hashes zero = zero_hash
  compute_default_hashes (suc levels) = let d = compute_default_hashes levels in internal_hash d d

  unfoldable default_hashes : ℕ → Hash
  default_hashes depth = compute_default_hashes (tree_depth - depth)

  unfoldable new_leaf : Hash → Hash → Leaf
  new_leaf key_hash value_hash = record {
    leaf_key = key_hash;
    leaf_value = value_hash;
    leaf_memo = leaf_hash key_hash value_hash;
  }

  unfoldable insert_node : Node → ℕ → Hash → Hash → Option Node
  insert_node empty depth key_hash value_hash = some (leaf (new_leaf key_hash value_hash))
  insert_node (leaf l) depth key_hash value_hash =
      if bytes_eq l.leaf_key key_hash
      then some
          (leaf (record l { leaf_value = value_hash; leaf_memo = leaf_hash key_hash value_hash }))
      else split_leaves (tree_depth - depth) l (new_leaf key_hash value_hash) depth
  insert_node (internal left right h dirty) depth key_hash value_hash =
      let on_left = insert_node left (suc depth) key_hash value_hash in
      let on_right = insert_node right (suc depth) key_hash value_hash in
      if bit key_hash depth == 0
      then (do changed ← on_left; some (internal changed right h true))
      else (do changed ← on_right; some (internal left changed h true))

  unfoldable insert : List ℕ → List ℕ → Smt → Option Smt
  unfolding insert_node
  insert key value t =
      let key_hash = blake3 key in
      let value_hash = blake3 value in
      let stored : Entry = record { key_hash = key_hash; value_hash = value_hash; value = value } in
      do
        root ← insert_node t.root 0 key_hash value_hash
        some (record {
          entries = λ k. if bytes_eq key_hash k then some stored else t.entries k;
          root = root;
        })

  unfoldable delete : List ℕ → Smt → Smt
  unfolding delete_node
  delete key t =
      let key_hash = blake3 key in
      elim (t.entries key_hash) [
        | none ↦ t
        | some e ↦ record {
          entries = λ k. if bytes_eq key_hash k then none else t.entries k;
          root = delete_node t.root 0 key_hash;
        }
      ]

  unfoldable get : List ℕ → Smt → Option (List ℕ)
  get key t = do e ← t.entries (blake3 key); some e.value

  unfoldable node_hash : Node → ℕ → Hash × Node
  node_hash empty depth = (default_hashes depth, empty)
  node_hash (leaf l) depth = (l.leaf_memo, leaf l)
  node_hash (internal left right h dirty) depth =
      let (left_hash, left') = node_hash left (suc depth) in
      let (right_hash, right') = node_hash right (suc depth) in
      let fresh = internal_hash left_hash right_hash in
      if dirty then (fresh, internal left' right' fresh false) else (h, internal left right h false)

  unfoldable root_hash : Smt → Hash × Smt
  root_hash t = let (hash, root) = node_hash t.root 0 in (hash, record t { root = root })
