-- ===== src/Smt/Walking.antt =====
-- The walk of `provePath`: it ends at an empty subtree or a leaf, its siblings fold the hash found
-- there up to the root, and the hashes it recomputes on the way leave the tree as it was.
use blue_pods.Prelude.{
  ℕ, suc, ◌+◌, ◌≤◌, ◌≡◌, refl, sym, ◌∙◌, Bool, ◌==◌, List, [], ◌∷◌, arith, length, Bool-cases, inl,
  inr, subst,
}
use blue_pods.Types.{Hash}
use blue_pods.Smt.{Node, empty, leaf, internal, bit, node_hash}
use blue_pods.Smt.Shape.{Every, Side, count, lookup, IsTree, subtree_hash}
use blue_pods.Smt.Hashing.{
  node_hash_lem, node_hash-Every, count-node_hash, lookup-node_hash, subtree_hash-node_hash,
}
use blue_pods.Smt.Proofs.{walk_path}
use blue_pods.Smt.Paths.{join, descend}

-- Where a walk ends.
abbrev pub IsEnd : Node → Type 0
IsEnd empty = Unit
IsEnd (leaf l) = Unit
IsEnd (internal left right h dirty) = ⊥

module _ (blake3 : List ℕ → Hash) where
  walk_path-Every :
      (P : Hash → Type 0) (n : Node) (depth : ℕ) (k : Hash)
      → Every P n
      → Every P (walk_path blake3 n depth k).2
  unfolding walk_path
  walk_path-Every P empty depth k p = p
  walk_path-Every P (leaf l) depth k p = p
  walk_path-Every P (internal left right h dirty) depth k p = elim (Bool-cases (bit k depth == 0)) [
    | inl zero_bit ↦
        rw zero_bit
          (walk_path-Every P left (suc depth) k p.0, node_hash-Every blake3 P right (suc depth) p.1)
    | inr one_bit ↦
        rw one_bit
          (node_hash-Every blake3 P left (suc depth) p.0, walk_path-Every P right (suc depth) k p.1)
  ]

  -- The same entries and the same hash, in a tree of the right shape.
  pub record IsCopy (depth : ℕ) (n n' : Node) : Type 0 where
    pub shape : IsTree blake3 depth n'
    pub size : count n' ≡ count n
    pub held : (k : Hash) → lookup n' depth k ≡ lookup n depth k
    pub hash : subtree_hash blake3 n' depth ≡ subtree_hash blake3 n depth

  node_hash-IsCopy :
      (n : Node) (depth : ℕ) → IsTree blake3 depth n → IsCopy depth n (node_hash blake3 n depth).1
  node_hash-IsCopy n depth tree = record {
    shape = (node_hash_lem blake3 n depth tree).1;
    size = count-node_hash blake3 n depth;
    held = lookup-node_hash blake3 n depth;
    hash = subtree_hash-node_hash blake3 n depth;
  }

  IsCopy-internal :
      (left right left' right' : Node) (h : Hash) (dirty : Bool) (depth : ℕ)
      → IsTree blake3 depth (internal left right h dirty)
      → IsCopy (suc depth) left left'
      → IsCopy (suc depth) right right'
      → Side 0 depth left'
      → Side 1 depth right'
      → IsCopy depth (internal left right h dirty) (internal left' right' h dirty)
  unfolding count lookup subtree_hash
  IsCopy-internal left right left' right' h dirty depth (deep, (trees, (sides, (more, memo)))) l r
        sl sr =
      let same : subtree_hash blake3 (internal left' right' h dirty) depth
          ≡ subtree_hash blake3 (internal left right h dirty) depth =
        rw (l.hash, r.hash) refl in
      record {
        shape = (
          deep,
          (
            (l.shape, r.shape),
            (
              (sl, sr),
              (
                omega (arith, l.size, r.size),
                elim memo [ inl stale ↦ inl stale | inr fresh ↦ inr (fresh ∙ sym same) ],
              ),
            ),
          ),
        );
        size = omega (arith, l.size, r.size);
        held = λ k. ground (arith, l.held k, r.held k);
        hash = same;
      }

  -- The end of a walk, some levels below its start.
  pub record Ends (k : Hash) (depth : ℕ) (n : Node) (siblings : List Hash) (end : Node) (bottom : ℕ)
      : Type 0 where
    pub levels : length siblings + depth ≡ bottom
    pub deepest : bottom ≤ 256
    pub ends : IsEnd end
    pub end_shape : IsTree blake3 bottom end
    pub found : lookup end bottom k ≡ lookup n depth k
    pub folds :
        descend blake3 k depth siblings (subtree_hash blake3 end bottom)
        ≡ subtree_hash blake3 n depth

  pub walk_path_lem :
      (n : Node) (depth : ℕ) (k : Hash)
      → IsTree blake3 depth n
      → depth ≤ 256
      → (siblings : List Hash) × (end : Node) × (n' : Node) × (bottom : ℕ) × (walk_path blake3 n
            depth k
          ≡ (siblings, end, n'))
        × IsCopy depth n n'
        × Ends k depth n siblings end bottom
  unfolding walk_path lookup descend subtree_hash join
  walk_path_lem empty depth k tree d = (
    [],
    empty,
    empty,
    depth,
    refl,
    record { shape = tt; size = refl; held = λ j. refl; hash = refl },
    record {
      levels = omega arith;
      deepest = d;
      ends = tt;
      end_shape = tt;
      found = refl;
      folds = refl;
    },
  )
  walk_path_lem (leaf l) depth k tree d = (
    [],
    leaf l,
    leaf l,
    depth,
    refl,
    record { shape = tree; size = refl; held = λ j. refl; hash = refl },
    record {
      levels = omega arith;
      deepest = d;
      ends = tt;
      end_shape = tree;
      found = refl;
      folds = refl;
    },
  )
  walk_path_lem (internal left right h dirty) depth k tree d =
      let (deep, ((tl, tr), ((sl, sr), rest))) = tree in
      elim (Bool-cases (bit k depth == 0)) [
        | inl zero_bit ↦
            let (siblings, end, left', bottom, step, copy, e) =
              walk_path_lem left (suc depth) k tl deep in
            let other = (node_hash blake3 right (suc depth)).1 in
            (
              (node_hash blake3 right (suc depth)).0 ∷ siblings,
              end,
              internal left' other h dirty,
              bottom,
              rw (zero_bit, step) refl,
              IsCopy-internal left right left' other h dirty depth tree copy
                  (node_hash-IsCopy right (suc depth) tr)
                  (subst (λ (w : List Hash × Node × Node). Side 0 depth w.2) step
                    (walk_path-Every (λ j. bit j depth ≡ 0) left (suc depth) k sl))
                  (node_hash-Every blake3 (λ j. bit j depth ≡ 1) right (suc depth) sr),
              record {
                levels = omega (arith, e.levels);
                deepest = e.deepest;
                ends = e.ends;
                end_shape = e.end_shape;
                found = ground (arith, e.found, zero_bit);
                folds = rw (zero_bit, e.folds, (node_hash_lem blake3 right (suc depth) tr).0) refl;
              },
            )
        | inr one_bit ↦
            let (siblings, end, right', bottom, step, copy, e) =
              walk_path_lem right (suc depth) k tr deep in
            let other = (node_hash blake3 left (suc depth)).1 in
            (
              (node_hash blake3 left (suc depth)).0 ∷ siblings,
              end,
              internal other right' h dirty,
              bottom,
              rw (one_bit, step) refl,
              IsCopy-internal left right other right' h dirty depth tree
                  (node_hash-IsCopy left (suc depth) tl) copy
                  (node_hash-Every blake3 (λ j. bit j depth ≡ 0) left (suc depth) sl)
                  (subst (λ (w : List Hash × Node × Node). Side 1 depth w.2) step
                    (walk_path-Every (λ j. bit j depth ≡ 1) right (suc depth) k sr)),
              record {
                levels = omega (arith, e.levels);
                deepest = e.deepest;
                ends = e.ends;
                end_shape = e.end_shape;
                found = ground (arith, e.found, one_bit);
                folds = rw (one_bit, e.folds, (node_hash_lem blake3 left (suc depth) tl).0) refl;
              },
            )
      ]
