-- ===== src/Smt/Shape.antt =====
-- The shape of the materialised tree: each leaf lies on the side its bits name, an internal node
-- has two entries or more below it, and the hash of a clean node is the hash of its subtree.
use blue_pods.Prelude.{
  ℕ, suc, ◌+◌, ◌≤◌, ◌<◌, ◌≡◌, Option, none, some, true, ◌==◌, if◌then◌else◌, subst, ◌≢◌,
  Option-cases, bytes_eq, bytes_eq_iff, Bool-cases, ◌⊎◌, inl, inr, List, arith,
}
use blue_pods.Types.{Hash}
use blue_pods.Smt.{Node, empty, leaf, internal, bit, leaf_hash, internal_hash, default_hashes}
use blue_pods.Smt.Bits.{IsHash}

-- A property of every key in a tree.
abbrev pub Every {κ} : (Hash → Type κ) → Node → Type κ
Every P empty = Unit
Every P (leaf l) = P l.leaf_key
Every P (internal left right h dirty) = Every P left × Every P right

-- The number of entries.
unfoldable pub count : Node → ℕ
count empty = 0
count (leaf l) = 1
count (internal left right h dirty) = count left + count right

-- The value hash that a tree holds for a key.
unfoldable pub lookup : Node → ℕ → Hash → Option Hash
lookup empty depth k = none
lookup (leaf l) depth k = if bytes_eq l.leaf_key k then some l.leaf_value else none
lookup (internal left right h dirty) depth k =
    if bit k depth == 0 then lookup left (suc depth) k else lookup right (suc depth) k

abbrev pub Side : ℕ → ℕ → Node → Type 0
Side b depth = Every (λ k. bit k depth ≡ b)

pub Every-map :
    (P Q : Hash → Type 0) → ((k : Hash) → P k → Q k) → (n : Node) → Every P n → Every Q n
Every-map P Q f empty h = tt
Every-map P Q f (leaf l) h = f l.leaf_key h
Every-map P Q f (internal left right hash dirty) h =
    (Every-map P Q f left h.0, Every-map P Q f right h.1)

pub Every-both : (P Q : Hash → Type 0) (n : Node) → Every P n → Every Q n → Every (λ k. P k × Q k) n
Every-both P Q empty h g = tt
Every-both P Q (leaf l) h g = (h, g)
Every-both P Q (internal left right hash dirty) h g =
    (Every-both P Q left h.0 g.0, Every-both P Q right h.1 g.1)

-- A key that is found is a key of the tree.
pub lookup-Every :
    (P : Hash → Type 0) (n : Node) (depth : ℕ) (k v : Hash)
    → Every P n
    → lookup n depth k ≡ some v
    → P k
unfolding lookup
lookup-Every P empty depth k v h e = absurd (ground (arith, e))
lookup-Every P (leaf l) depth k v h e =
    let same : l.leaf_key ≡ k = ground (arith, e, bytes_eq_iff l.leaf_key k) in subst P same h
lookup-Every P (internal left right hash dirty) depth k v h e =
    elim (Bool-cases (bit k depth == 0)) [
      | inl zero_bit ↦ lookup-Every P left (suc depth) k v h.0 (ground (arith, e, zero_bit))
      | inr one_bit ↦ lookup-Every P right (suc depth) k v h.1 (ground (arith, e, one_bit))
    ]

-- A key with the other bit is not on a side.
pub lookup-Side :
    (b : ℕ) (n : Node) (depth : ℕ) (k : Hash) (below : ℕ)
    → Side b depth n
    → bit k depth ≢ b
    → lookup n below k ≡ none
lookup-Side b n depth k below h other = elim (Option-cases (lookup n below k)) [
  | inl missing ↦ missing
  | inr (v, found) ↦ absurd (other (lookup-Every (λ j. bit j depth ≡ b) n below k v h found))
]

module _ (blake3 : List ℕ → Hash) where
  -- The hash of a subtree, recomputed from its leaves.
  unfoldable pub subtree_hash : Node → ℕ → Hash
  unfolding leaf_hash internal_hash default_hashes
  subtree_hash empty depth = default_hashes blake3 depth
  subtree_hash (leaf l) depth = leaf_hash blake3 l.leaf_key l.leaf_value
  subtree_hash (internal left right h dirty) depth =
      internal_hash blake3 (subtree_hash left (suc depth)) (subtree_hash right (suc depth))

  abbrev pub IsTree : ℕ → Node → Type 0
  IsTree depth empty = Unit
  IsTree depth (leaf l) =
      IsHash l.leaf_key
      × (IsHash l.leaf_value × (l.leaf_memo ≡ leaf_hash blake3 l.leaf_key l.leaf_value))
  IsTree depth (internal left right h dirty) =
      (depth < 256)
      × ((IsTree (suc depth) left × IsTree (suc depth) right)
          × ((Side 0 depth left × Side 1 depth right)
              × ((2 ≤ count left + count right)
                  × ((dirty ≡ true) ⊎ (h ≡ subtree_hash (internal left right h dirty) depth)))))
