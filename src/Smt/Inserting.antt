-- ===== src/Smt/Inserting.antt =====
-- Insertion: insertNode keeps the shape of the tree and changes one key.
use blue_pods.Prelude.{
  ℕ, suc, ◌-◌, ◌≤◌, ◌≡◌, refl, sym, subst, ap, some, true, ◌==◌, bytes_eq, bytes_eq_iff, Bool-cases,
  Option-cases, inl, inr, List, arith,
}
use blue_pods.Types.{Hash}
use blue_pods.Smt.{Node, empty, leaf, internal, bit, leaf_hash, new_leaf, insert_node}
use blue_pods.Smt.Bits.{IsHash, Agree, bit-lt}
use blue_pods.Smt.Shape.{Every, count, lookup, Side, IsTree, Every-map, Every-both}
use blue_pods.Smt.Splitting.{Agree-suc, Written, split_leaves-Every, split_leaves_lem}

module _ (blake3 : List ℕ → Hash) where
  insert_node-Every :
      (P : Hash → Type 0) (n : Node) (depth : ℕ) (key_hash value_hash : Hash) {n' : Node}
      → insert_node blake3 n depth key_hash value_hash ≡ some n'
      → Every P n
      → P key_hash
      → Every P n'
  unfolding insert_node new_leaf
  insert_node-Every P empty depth key_hash value_hash {n'} e h g =
      let same : leaf (new_leaf blake3 key_hash value_hash) ≡ n' = cc in subst (Every P) same g
  insert_node-Every P (leaf l) depth key_hash value_hash {n'} e h g =
      elim (Bool-cases (bytes_eq l.leaf_key key_hash)) [
        | inl same ↦
            let there : leaf (record l {
              leaf_value = value_hash;
              leaf_memo = leaf_hash blake3 key_hash value_hash;
            })
                ≡ n' =
              ground (arith, e, same) in
            subst (Every P) there h
        | inr other ↦
            split_leaves-Every P (256 - depth) l (new_leaf blake3 key_hash value_hash) depth
              (ground (arith, e, other)) h g
      ]
  insert_node-Every P (internal left right hash dirty) depth key_hash value_hash {n'} e h g =
      elim (Bool-cases (bit key_hash depth == 0)) [
        | inl zero_bit ↦
            elim (Option-cases (insert_node blake3 left (suc depth) key_hash value_hash)) [
              | inl missing ↦ absurd (ground (arith, e, zero_bit, missing))
              | inr (changed, step) ↦
                  let same : internal changed right hash true ≡ n' =
                    ground (arith, e, zero_bit, step) in
                  subst (Every P) same
                    (insert_node-Every P left (suc depth) key_hash value_hash step h.0 g, h.1)
            ]
        | inr one_bit ↦
            elim (Option-cases (insert_node blake3 right (suc depth) key_hash value_hash)) [
              | inl missing ↦ absurd (ground (arith, e, one_bit, missing))
              | inr (changed, step) ↦
                  let same : internal left changed hash true ≡ n' =
                    ground (arith, e, one_bit, step) in
                  subst (Every P) same
                    (h.0, insert_node-Every P right (suc depth) key_hash value_hash step h.1 g)
            ]
      ]

  -- `insertNode` returns a tree of the right shape, in which the key has its new value hash and the
  -- other keys theirs.
  pub insert_node_lem :
      (n : Node) (depth : ℕ) (key_hash value_hash : Hash)
      → IsTree blake3 depth n
      → IsHash key_hash
      → IsHash value_hash
      → depth ≤ 256
      → Every (Agree depth key_hash) n
      → (n' : Node) × (insert_node blake3 n depth key_hash value_hash ≡ some n')
        × IsTree blake3 depth n'
        × (count n ≤ count n')
        × Written key_hash value_hash depth n n'
  unfolding insert_node new_leaf count lookup
  insert_node_lem empty depth key_hash value_hash tree wide value_wide d agree = (
    leaf (new_leaf blake3 key_hash value_hash),
    refl,
    (wide, (value_wide, refl)),
    omega arith,
    λ k. refl,
  )
  insert_node_lem (leaf l) depth key_hash value_hash tree wide value_wide d agree =
      elim (Bool-cases (bytes_eq l.leaf_key key_hash)) [
        | inl same ↦
            let here : l.leaf_key ≡ key_hash = (bytes_eq_iff l.leaf_key key_hash).0 same in
            (
              leaf (record l {
                leaf_value = value_hash;
                leaf_memo = leaf_hash blake3 key_hash value_hash;
              }),
              ground (arith, same),
              (tree.0, (value_wide, ap (λ k. leaf_hash blake3 k value_hash) (sym here))),
              omega arith,
              λ k. ground (arith, here, bytes_eq_iff l.leaf_key k, bytes_eq_iff key_hash k),
            )
        | inr other ↦
            let (n, split, shape, size, written) =
              split_leaves_lem blake3 (256 - depth) l (new_leaf blake3 key_hash value_hash) depth
                (omega arith) tree (wide, (value_wide, refl)) (λ i h. sym (agree i h))
                (λ e. ground (arith, other, bytes_eq_iff l.leaf_key key_hash)) in
            (n, ground (arith, other, split), shape, omega (arith, size), written)
      ]
  insert_node_lem (internal left right hash dirty) depth key_hash value_hash
        (deep, ((tl, tr), ((sl, sr), (size, memo)))) wide value_wide d agree =
      elim (Bool-cases (bit key_hash depth == 0)) [
        | inl zero_bit ↦
            let (changed, step, shape, more, written) =
              insert_node_lem left (suc depth) key_hash value_hash tl wide value_wide deep
                (narrow left (λ k e. ground (arith, e)) agree.0 sl) in
            (
              internal changed right hash true,
              ground (arith, zero_bit, step),
              (
                deep,
                (
                  (shape, tr),
                  (
                    (
                      insert_node-Every (λ k. bit k depth ≡ 0) left (suc depth) key_hash value_hash
                          step sl (ground arith),
                      sr,
                    ),
                    (omega arith, inl refl),
                  ),
                ),
              ),
              omega arith,
              λ k. ground (arith, written k, zero_bit, bytes_eq_iff key_hash k),
            )
        | inr one_bit ↦
            let (changed, step, shape, more, written) =
              insert_node_lem right (suc depth) key_hash value_hash tr wide value_wide deep
                (narrow right (λ k e. ground (arith, e, bit-lt key_hash depth)) agree.1 sr) in
            (
              internal left changed hash true,
              ground (arith, one_bit, step),
              (
                deep,
                (
                  (tl, shape),
                  (
                    (
                      sl,
                      insert_node-Every (λ k. bit k depth ≡ 1) right (suc depth) key_hash value_hash
                          step sr (ground (arith, bit-lt key_hash depth)),
                    ),
                    (omega arith, inl refl),
                  ),
                ),
              ),
              omega arith,
              λ k. ground (arith, written k, one_bit, bytes_eq_iff key_hash k),
            )
      ]
    where
      narrow :
          {b : ℕ} (m : Node)
          → ((k : Hash) → bit k depth ≡ b → bit key_hash depth ≡ bit k depth)
          → Every (Agree depth key_hash) m
          → Side b depth m
          → Every (Agree (suc depth) key_hash) m
      narrow {b} m f h g =
          Every-map (λ k. Agree depth key_hash k × (bit k depth ≡ b)) (Agree (suc depth) key_hash)
            (λ k p. Agree-suc depth key_hash k p.0 (f k p.1)) m
            (Every-both (Agree depth key_hash) (λ k. bit k depth ≡ b) m h g)
