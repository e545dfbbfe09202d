-- ===== src/Smt/Deleting.antt =====
-- Deletion: deleteNode and collapse keep the shape of the tree and take out one key.
use blue_pods.Prelude.{
  ℕ, suc, ◌+◌, ◌≤◌, ◌<◌, ◌≡◌, refl, none, Bool, true, ◌==◌, if◌then◌else◌, bytes_eq, bytes_eq_iff,
  Bool-cases, inl, inr, List, arith,
}
use blue_pods.Types.{Hash}
use blue_pods.Smt.{Node, empty, leaf, internal, bit, collapse, delete_node}
use blue_pods.Smt.Shape.{Every, count, lookup, Side, IsTree}

collapse-Every :
    (P : Hash → Type 0) (left right : Node) (h : Hash) (dirty : Bool)
    → Every P left
    → Every P right
    → Every P (collapse (internal left right h dirty))
unfolding collapse
collapse-Every P empty empty h dirty p q = (p, q)
collapse-Every P empty (leaf l) h dirty p q = q
collapse-Every P empty (internal a b c e) h dirty p q = (p, q)
collapse-Every P (leaf l) empty h dirty p q = p
collapse-Every P (leaf l) (leaf r) h dirty p q = (p, q)
collapse-Every P (leaf l) (internal a b c e) h dirty p q = (p, q)
collapse-Every P (internal a b c e) right h dirty p q = (p, q)

delete_node-Every :
    (P : Hash → Type 0) (n : Node) (depth : ℕ) (key_hash : Hash)
    → Every P n
    → Every P (delete_node n depth key_hash)
unfolding delete_node
delete_node-Every P empty depth key_hash p = tt
delete_node-Every P (leaf l) depth key_hash p = elim (Bool-cases (bytes_eq l.leaf_key key_hash)) [
  | inl same ↦ rw same tt
  | inr other ↦ rw other p
]
delete_node-Every P (internal left right h dirty) depth key_hash p =
    elim (Bool-cases (bit key_hash depth == 0)) [
      | inl zero_bit ↦ rw zero_bit (
          collapse-Every P (delete_node left (suc depth) key_hash) right h true
            (delete_node-Every P left (suc depth) key_hash p.0) p.1)
      | inr one_bit ↦ rw one_bit (
          collapse-Every P left (delete_node right (suc depth) key_hash) h true p.0
            (delete_node-Every P right (suc depth) key_hash p.1))
    ]

lookup-collapse :
    (left right : Node) (h : Hash) (dirty : Bool) (depth : ℕ)
    → Side 0 depth left
    → Side 1 depth right
    → (k : Hash)
    → lookup (collapse (internal left right h dirty)) depth k
      ≡ lookup (internal left right h dirty) depth k
unfolding collapse lookup
lookup-collapse empty empty h dirty depth sl sr k = refl
lookup-collapse empty (leaf l) h dirty depth sl sr k = ground (arith, sr, bytes_eq_iff l.leaf_key k)
lookup-collapse empty (internal a b c e) h dirty depth sl sr k = refl
lookup-collapse (leaf l) empty h dirty depth sl sr k = ground (arith, sl, bytes_eq_iff l.leaf_key k)
lookup-collapse (leaf l) (leaf r) h dirty depth sl sr k = refl
lookup-collapse (leaf l) (internal a b c e) h dirty depth sl sr k = refl
lookup-collapse (internal a b c e) right h dirty depth sl sr k = refl

count-collapse :
    (left right : Node) (h : Hash) (dirty : Bool)
    → count (collapse (internal left right h dirty)) ≡ count left + count right
unfolding collapse count
count-collapse empty empty h dirty = refl
count-collapse empty (leaf l) h dirty = refl
count-collapse empty (internal a b c e) h dirty = refl
count-collapse (leaf l) empty h dirty = refl
count-collapse (leaf l) (leaf r) h dirty = refl
count-collapse (leaf l) (internal a b c e) h dirty = refl
count-collapse (internal a b c e) right h dirty = refl

module _ (blake3 : List ℕ → Hash) where
  collapse-IsTree :
      (left right : Node) (h : Hash) (depth : ℕ)
      → depth < 256
      → IsTree blake3 (suc depth) left
      → IsTree blake3 (suc depth) right
      → Side 0 depth left
      → Side 1 depth right
      → 1 ≤ count left + count right
      → IsTree blake3 depth (collapse (internal left right h true))
  unfolding collapse count
  collapse-IsTree empty empty h depth d tl tr sl sr size = absurd (omega arith)
  collapse-IsTree empty (leaf l) h depth d tl tr sl sr size = tr
  collapse-IsTree empty (internal a b c e) h depth d tl tr sl sr size =
      (d, ((tl, tr), ((sl, sr), (omega (arith, tr.1.1.1.0), inl refl))))
  collapse-IsTree (leaf l) empty h depth d tl tr sl sr size = tl
  collapse-IsTree (leaf l) (leaf r) h depth d tl tr sl sr size =
      (d, ((tl, tr), ((sl, sr), (omega arith, inl refl))))
  collapse-IsTree (leaf l) (internal a b c e) h depth d tl tr sl sr size =
      (d, ((tl, tr), ((sl, sr), (omega (arith, tr.1.1.1.0), inl refl))))
  collapse-IsTree (internal a b c e) right h depth d tl tr sl sr size =
      (d, ((tl, tr), ((sl, sr), (omega (arith, tl.1.1.1.0), inl refl))))

  -- `deleteNode` returns a tree of the right shape, without the key and with all others.
  pub delete_node_lem :
      (n : Node) (depth : ℕ) (key_hash : Hash)
      → IsTree blake3 depth n
      → IsTree blake3 depth (delete_node n depth key_hash)
        × (count n ≤ suc (count (delete_node n depth key_hash)))
        × ((k : Hash)
            → lookup (delete_node n depth key_hash) depth k
              ≡ (if bytes_eq key_hash k then none else lookup n depth k))
  unfolding delete_node count lookup
  delete_node_lem empty depth key_hash tree = (tt, omega arith, λ k. ground arith)
  delete_node_lem (leaf l) depth key_hash tree = elim (Bool-cases (bytes_eq l.leaf_key key_hash)) [
    | inl same ↦ rw same (
      tt,
      omega arith,
      λ k. ground (
        arith,
        bytes_eq_iff l.leaf_key key_hash,
        bytes_eq_iff l.leaf_key k,
        bytes_eq_iff key_hash k,
      ),
    )
    | inr other ↦ rw other (
      tree,
      omega arith,
      λ k. ground (
        arith,
        bytes_eq_iff l.leaf_key key_hash,
        bytes_eq_iff l.leaf_key k,
        bytes_eq_iff key_hash k,
      ),
    )
  ]
  delete_node_lem (internal left right h dirty) depth key_hash
        (deep, ((tl, tr), ((sl, sr), (size, memo)))) =
      elim (Bool-cases (bit key_hash depth == 0)) [
        | inl zero_bit ↦
            let (shape, more, removed) = delete_node_lem left (suc depth) key_hash tl in
            let left' = delete_node left (suc depth) key_hash in
            let side = delete_node-Every (λ k. bit k depth ≡ 0) left (suc depth) key_hash sl in
            rw zero_bit (
              collapse-IsTree left' right h depth deep shape tr side sr (omega arith),
              omega (arith, count-collapse left' right h true),
              λ k. ground (
                arith,
                lookup-collapse left' right h true depth side sr k,
                removed k,
                zero_bit,
                bytes_eq_iff key_hash k,
              ),
            )
        | inr one_bit ↦
            let (shape, more, removed) = delete_node_lem right (suc depth) key_hash tr in
            let right' = delete_node right (suc depth) key_hash in
            let side = delete_node-Every (λ k. bit k depth ≡ 1) right (suc depth) key_hash sr in
            rw one_bit (
              collapse-IsTree left right' h depth deep tl shape sl side (omega arith),
              omega (arith, count-collapse left right' h true),
              λ k. ground (
                arith,
                lookup-collapse left right' h true depth sl side k,
                removed k,
                one_bit,
                bytes_eq_iff key_hash k,
              ),
            )
      ]
