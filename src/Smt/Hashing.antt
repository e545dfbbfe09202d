-- ===== src/Smt/Hashing.antt =====
-- The memoised hashes of nodeHash, and the hash as a function of the entries.
use blue_pods.Prelude.{ℕ, suc, ◌≡◌, refl, true, false, inl, inr, List, arith}
use blue_pods.Types.{Hash}
use blue_pods.Smt.{Node, empty, leaf, internal, bit, node_hash}
use blue_pods.Smt.Shape.{Every, count, lookup, IsTree, subtree_hash}

module _ (blake3 : List ℕ → Hash) where
  pub node_hash-Every :
      (P : Hash → Type 0) (n : Node) (depth : ℕ) → Every P n → Every P (node_hash blake3 n depth).1
  unfolding node_hash
  node_hash-Every P empty depth p = p
  node_hash-Every P (leaf l) depth p = p
  node_hash-Every P (internal left right h true) depth p =
      (node_hash-Every P left (suc depth) p.0, node_hash-Every P right (suc depth) p.1)
  node_hash-Every P (internal left right h false) depth p = p

  pub count-node_hash : (n : Node) (depth : ℕ) → count (node_hash blake3 n depth).1 ≡ count n
  unfolding node_hash count
  count-node_hash empty depth = refl
  count-node_hash (leaf l) depth = refl
  count-node_hash (internal left right h true) depth =
      omega (arith, count-node_hash left (suc depth), count-node_hash right (suc depth))
  count-node_hash (internal left right h false) depth = refl

  pub lookup-node_hash :
      (n : Node) (depth : ℕ) (k : Hash)
      → lookup (node_hash blake3 n depth).1 depth k ≡ lookup n depth k
  unfolding node_hash lookup
  lookup-node_hash empty depth k = refl
  lookup-node_hash (leaf l) depth k = refl
  lookup-node_hash (internal left right h true) depth k =
      ground (arith, lookup-node_hash left (suc depth) k, lookup-node_hash right (suc depth) k)
  lookup-node_hash (internal left right h false) depth k = refl

  pub subtree_hash-node_hash :
      (n : Node) (depth : ℕ)
      → subtree_hash blake3 (node_hash blake3 n depth).1 depth ≡ subtree_hash blake3 n depth
  unfolding node_hash subtree_hash
  subtree_hash-node_hash empty depth = refl
  subtree_hash-node_hash (leaf l) depth = refl
  subtree_hash-node_hash (internal left right h true) depth =
      rw (subtree_hash-node_hash left (suc depth), subtree_hash-node_hash right (suc depth)) refl
  subtree_hash-node_hash (internal left right h false) depth = refl

  -- On a tree whose clean nodes hold their hashes, `nodeHash` returns the hash recomputed from the
  -- leaves, and every node it leaves clean holds its hash.
  pub node_hash_lem :
      (n : Node) (depth : ℕ)
      → IsTree blake3 depth n
      → ((node_hash blake3 n depth).0 ≡ subtree_hash blake3 n depth)
        × IsTree blake3 depth (node_hash blake3 n depth).1
  unfolding node_hash subtree_hash
  node_hash_lem empty depth tree = (refl, tt)
  node_hash_lem (leaf l) depth tree = (tree.1.1, tree)
  node_hash_lem (internal left right h false) depth tree =
      (elim tree.1.1.1.1 [ inl stale ↦ absurd cc | inr memo ↦ memo ], tree)
  node_hash_lem (internal left right h true) depth (deep, ((tl, tr), ((sl, sr), (size, memo)))) =
      let (left_hash, left_tree) = node_hash_lem left (suc depth) tl in
      let (right_hash, right_tree) = node_hash_lem right (suc depth) tr in
      (
        rw (left_hash, right_hash) refl,
        (
          deep,
          (
            (left_tree, right_tree),
            (
              (
                node_hash-Every (λ k. bit k depth ≡ 0) left (suc depth) sl,
                node_hash-Every (λ k. bit k depth ≡ 1) right (suc depth) sr,
              ),
              (
                omega (arith, count-node_hash left (suc depth), count-node_hash right (suc depth)),
                inr rw
                    (
                      left_hash,
                      right_hash,
                      subtree_hash-node_hash left (suc depth),
                      subtree_hash-node_hash right (suc depth),
                    )
                    refl,
              ),
            ),
          ),
        ),
      )
