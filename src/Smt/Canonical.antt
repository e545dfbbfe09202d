-- ===== src/Smt/Canonical.antt =====
-- The hash of a tree depends on its entries only: trees of the right shape that hold the same
-- values for the same keys have the same hash, whatever the order of the changes was.
use blue_pods.Prelude.{
  ℕ, suc, ◌≤◌, ◌≡◌, ◌≢◌, refl, sym, ◌∙◌, some, Bool, ◌==◌, bytes_eq_iff, bytes_eq_refl, Bool-cases,
  inl, inr, List, arith,
}
use blue_pods.Types.{Hash}
use blue_pods.Smt.{Node, Leaf, empty, leaf, internal, bit}
use blue_pods.Smt.Shape.{count, lookup, Side, IsTree, subtree_hash, lookup-Side, lookup-Every}

-- A tree that holds a key.
abbrev HasKey : Node → ℕ → Type 0
HasKey n depth = (k : Hash) × (v : Hash) × (lookup n depth k ≡ some v)

module _ (blake3 : List ℕ → Hash) where
  Side-bit :
      (b : ℕ) (n : Node) (depth : ℕ) (k v : Hash)
      → Side b depth n
      → lookup n (suc depth) k ≡ some v
      → bit k depth ≡ b
  Side-bit b n depth k v side e = lookup-Every (λ j. bit j depth ≡ b) n (suc depth) k v side e

  lookup-left :
      (left right : Node) (h : Hash) (dirty : Bool) (depth : ℕ) (k v : Hash)
      → Side 0 depth left
      → lookup left (suc depth) k ≡ some v
      → lookup (internal left right h dirty) depth k ≡ some v
  unfolding lookup
  lookup-left left right h dirty depth k v side e =
      ground (arith, e, Side-bit 0 left depth k v side e)

  lookup-right :
      (left right : Node) (h : Hash) (dirty : Bool) (depth : ℕ) (k v : Hash)
      → Side 1 depth right
      → lookup right (suc depth) k ≡ some v
      → lookup (internal left right h dirty) depth k ≡ some v
  unfolding lookup
  lookup-right left right h dirty depth k v side e =
      ground (arith, e, Side-bit 1 right depth k v side e)

  some_key : (n : Node) (depth : ℕ) → IsTree blake3 depth n → 1 ≤ count n → HasKey n depth
  unfolding count lookup
  some_key empty depth tree size = absurd (omega arith)
  some_key (leaf l) depth tree size =
      (l.leaf_key, l.leaf_value, ground (arith, bytes_eq_refl l.leaf_key))
  some_key (internal left right h dirty) depth (deep, ((tl, tr), ((sl, sr), (more, memo)))) size =
      elim (Bool-cases (count left == 0)) [
        | inl none_left ↦
            let (k, v, found) = some_key right (suc depth) tr (ground arith) in
            (k, v, lookup-right left right h dirty depth k v sr found)
        | inr some_left ↦
            let (k, v, found) = some_key left (suc depth) tl (ground arith) in
            (k, v, lookup-left left right h dirty depth k v sl found)
      ]

  two_keys :
      (n : Node) (depth : ℕ)
      → IsTree blake3 depth n
      → 2 ≤ count n
      → (k : Hash) × (j : Hash) × (v : Hash) × (w : Hash) × (lookup n depth k ≡ some v)
        × (lookup n depth j ≡ some w)
        × (k ≢ j)
  unfolding count
  two_keys empty depth tree size = absurd (omega arith)
  two_keys (leaf l) depth tree size = absurd (omega arith)
  two_keys (internal left right h dirty) depth (deep, ((tl, tr), ((sl, sr), (more, memo)))) size =
      elim (Bool-cases (count left == 0)) [
        | inl none_left ↦
            let (k, j, v, w, at_k, at_j, differ) = two_keys right (suc depth) tr (ground arith) in
            (
              k,
              j,
              v,
              w,
              lookup-right left right h dirty depth k v sr at_k,
              lookup-right left right h dirty depth j w sr at_j,
              differ,
            )
        | inr some_left ↦ elim (Bool-cases (count right == 0)) [
          | inl none_right ↦
              let (k, j, v, w, at_k, at_j, differ) = two_keys left (suc depth) tl (ground arith) in
              (
                k,
                j,
                v,
                w,
                lookup-left left right h dirty depth k v sl at_k,
                lookup-left left right h dirty depth j w sl at_j,
                differ,
              )
          | inr some_right ↦
              let (k, v, at_k) = some_key left (suc depth) tl (ground arith) in
              let (j, w, at_j) = some_key right (suc depth) tr (ground arith) in
              (
                k,
                j,
                v,
                w,
                lookup-left left right h dirty depth k v sl at_k,
                lookup-right left right h dirty depth j w sr at_j,
                λ e.
                    ground (
                      arith,
                      Side-bit 0 left depth k v sl at_k,
                      Side-bit 1 right depth j w sr at_j,
                    ),
              )
        ]
      ]

  -- An internal node is no leaf, and no empty tree.
  not_leaf :
      (l : Leaf) (n : Node) (depth : ℕ)
      → IsTree blake3 depth n
      → 2 ≤ count n
      → ((k : Hash) → lookup (leaf l) depth k ≡ lookup n depth k)
      → ⊥
  unfolding lookup
  not_leaf l n depth tree size same =
      let (k, j, v, w, at_k, at_j, differ) = two_keys n depth tree size in
      differ (
        ground
          (arith, same k, same j, bytes_eq_iff l.leaf_key k, bytes_eq_iff l.leaf_key j, at_k, at_j))

  not_empty :
      (n : Node) (depth : ℕ)
      → IsTree blake3 depth n
      → 1 ≤ count n
      → ((k : Hash) → lookup empty depth k ≡ lookup n depth k)
      → ⊥
  unfolding lookup
  not_empty n depth tree size same =
      let (k, v, found) = some_key n depth tree size in ground (arith, same k, found)

  pub subtree_hash_canonical :
      (n m : Node) (depth : ℕ)
      → IsTree blake3 depth n
      → IsTree blake3 depth m
      → ((k : Hash) → lookup n depth k ≡ lookup m depth k)
      → subtree_hash blake3 n depth ≡ subtree_hash blake3 m depth
  unfolding subtree_hash lookup count
  subtree_hash_canonical empty empty depth tn tm same = refl
  subtree_hash_canonical empty (leaf l) depth tn tm same =
      absurd (not_empty (leaf l) depth tm (omega arith) same)
  subtree_hash_canonical empty (internal a b c e) depth tn tm same =
      absurd (not_empty (internal a b c e) depth tm (omega (arith, tm.1.1.1.0)) same)
  subtree_hash_canonical (leaf l) empty depth tn tm same =
      absurd (not_empty (leaf l) depth tn (omega arith) (λ k. sym (same k)))
  subtree_hash_canonical (leaf l) (leaf r) depth tn tm same =
      let here = same l.leaf_key in
      let keys : l.leaf_key ≡ r.leaf_key =
        ground (arith, bytes_eq_refl l.leaf_key, bytes_eq_iff r.leaf_key l.leaf_key) in
      let values : l.leaf_value ≡ r.leaf_value =
        ground (arith, bytes_eq_refl l.leaf_key, bytes_eq_iff r.leaf_key l.leaf_key) in
      rw (keys, values) refl
  subtree_hash_canonical (leaf l) (internal a b c e) depth tn tm same =
      absurd (not_leaf l (internal a b c e) depth tm tm.1.1.1.0 same)
  subtree_hash_canonical (internal a b c e) empty depth tn tm same =
      absurd (not_empty (internal a b c e) depth tn (omega (arith, tn.1.1.1.0)) (λ k. sym (same k)))
  subtree_hash_canonical (internal a b c e) (leaf l) depth tn tm same =
      absurd (not_leaf l (internal a b c e) depth tn tn.1.1.1.0 (λ k. sym (same k)))
  subtree_hash_canonical (internal a b c e) (internal a' b' c' e') depth
        (deep, ((tl, tr), ((sl, sr), (size, memo))))
        (deep', ((tl', tr'), ((sl', sr'), (size', memo')))) same =
      let on_left = subtree_hash_canonical a a' (suc depth) tl tl' (λ k.
        elim (Bool-cases (bit k depth == 0)) [
          | inl zero_bit ↦ ground (arith, same k, zero_bit)
          | inr one_bit ↦
              lookup-Side 0 a depth k (suc depth) sl (ground arith)
              ∙ sym (lookup-Side 0 a' depth k (suc depth) sl' (ground arith))
        ]) in
      let on_right = subtree_hash_canonical b b' (suc depth) tr tr' (λ k.
        elim (Bool-cases (bit k depth == 0)) [
          | inl zero_bit ↦
              lookup-Side 1 b depth k (suc depth) sr (ground arith)
              ∙ sym (lookup-Side 1 b' depth k (suc depth) sr' (ground arith))
          | inr one_bit ↦ ground (arith, same k, one_bit)
        ]) in
      rw (on_left, on_right) refl
