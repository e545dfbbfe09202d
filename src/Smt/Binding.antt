-- ===== src/Smt/Binding.antt =====
-- The hash of a tree binds its entries: two trees with one hash hold the same values, unless two
-- byte strings with one BLAKE3 hash, or one with the hash of zeros, can be read off them.
use blue_pods.Prelude.{
  ℕ, zero, suc, ◌-◌, ◌≤◌, ◌<◌, ◌≡◌, ◌≢◌, refl, sym, ◌∙◌, ap, Bool, ◌==◌, bytes_eq, bytes_eq_iff,
  Bool-cases, inl, inr, List, ◌∷◌, ◌++◌, arith, length, take, drop, take-append, drop-append, ◌⊎◌,
}
use blue_pods.Types.{Hash}
use blue_pods.Smt.{
  Node, Leaf, empty, leaf, internal, leaf_hash, internal_hash, default_hashes,
  compute_default_hashes, zero_hash,
}
use blue_pods.Smt.Bits.{IsHash}
use blue_pods.Smt.Shape.{lookup, IsTree, subtree_hash}

module _ (blake3 : List ℕ → Hash) where
  -- A collision of BLAKE3, or a preimage of 32 zero bytes.
  abbrev pub Broken : Type 0
  Broken =
      ((x : List ℕ) × (y : List ℕ) × (x ≢ y) × (blake3 x ≡ blake3 y))
      ⊎ ((x : List ℕ) × (blake3 x ≡ zero_hash))

  pub same_preimage : (x y : List ℕ) → blake3 x ≡ blake3 y → (x ≡ y) ⊎ Broken
  same_preimage x y e = elim (Bool-cases (bytes_eq x y)) [
    | inl same ↦ inl ((bytes_eq_iff x y).0 same)
    | inr differ ↦ inr (inl (x, y, λ h. ground (arith, differ, bytes_eq_iff x y), e))
  ]

  append_parts :
      (a b c d : List ℕ) → length a ≡ 32 → length c ≡ 32 → a ++ b ≡ c ++ d → (a ≡ c) × (b ≡ d)
  append_parts a b c d la lc e = (
    sym (take-append a b 32 la) ∙ ap (take 32) e ∙ take-append c d 32 lc,
    sym (drop-append a b 32 la) ∙ ap (drop 32) e ∙ drop-append c d 32 lc,
  )

  leaf_hash_parts :
      (a b c d : Hash)
      → length a ≡ 32
      → length c ≡ 32
      → leaf_hash blake3 a b ≡ leaf_hash blake3 c d
      → ((a ≡ c) × (b ≡ d)) ⊎ Broken
  unfolding leaf_hash
  leaf_hash_parts a b c d la lc e = elim (same_preimage (0 ∷ a ++ b) (0 ∷ c ++ d) e) [
    | inl same ↦ inl (append_parts a b c d la lc (cc))
    | inr broken ↦ inr broken
  ]

  internal_hash_parts :
      (a b c d : Hash)
      → length a ≡ 32
      → length c ≡ 32
      → internal_hash blake3 a b ≡ internal_hash blake3 c d
      → ((a ≡ c) × (b ≡ d)) ⊎ Broken
  unfolding internal_hash
  internal_hash_parts a b c d la lc e = elim (same_preimage (1 ∷ a ++ b) (1 ∷ c ++ d) e) [
    | inl same ↦ inl (append_parts a b c d la lc (cc))
    | inr broken ↦ inr broken
  ]

  pub leaf_hash-internal_hash :
      (a b c d : Hash) → leaf_hash blake3 a b ≡ internal_hash blake3 c d → Broken
  unfolding internal_hash leaf_hash
  leaf_hash-internal_hash a b c d e = elim (same_preimage (0 ∷ a ++ b) (1 ∷ c ++ d) e) [
    | inl same ↦ absurd cc
    | inr broken ↦ broken
  ]

  pub default_hashes-suc :
      (depth : ℕ)
      → depth < 256
      → default_hashes blake3 depth
        ≡ internal_hash blake3
            (default_hashes blake3 (suc depth))
            (default_hashes blake3 (suc depth))
  unfolding default_hashes compute_default_hashes
  default_hashes-suc depth d =
      let level : 256 - depth ≡ suc (256 - suc depth) = omega arith in rw level refl

  leaf_hash-default :
      (a b : Hash) (depth : ℕ)
      → depth ≤ 256
      → leaf_hash blake3 a b ≡ default_hashes blake3 depth
      → Broken
  unfolding leaf_hash default_hashes compute_default_hashes
  leaf_hash-default a b depth d e = elim (Bool-cases (depth == 256)) [
    | inl bottom ↦
        let at : depth ≡ 256 = ground arith in
        inr (0 ∷ a ++ b, e ∙ ap (λ (d : ℕ). compute_default_hashes blake3 (256 - d)) at)
    | inr above ↦
        let below = default_hashes blake3 (suc depth) in
        leaf_hash-internal_hash a b below below (e ∙ default_hashes-suc depth (ground arith))
  ]

  module _ (digest : (bytes : List ℕ) → IsHash (blake3 bytes)) where
    length-compute_default_hashes : (n : ℕ) → length (compute_default_hashes blake3 n) ≡ 32
    unfolding compute_default_hashes internal_hash
    length-compute_default_hashes zero = refl
    length-compute_default_hashes (suc n) =
        let d = compute_default_hashes blake3 n in (digest (1 ∷ d ++ d)).0

    length-default_hashes : (depth : ℕ) → length (default_hashes blake3 depth) ≡ 32
    unfolding default_hashes
    length-default_hashes depth = length-compute_default_hashes (256 - depth)

    pub length-subtree_hash : (n : Node) (depth : ℕ) → length (subtree_hash blake3 n depth) ≡ 32
    unfolding subtree_hash leaf_hash internal_hash
    length-subtree_hash empty depth = length-default_hashes depth
    length-subtree_hash (leaf l) depth = (digest (0 ∷ l.leaf_key ++ l.leaf_value)).0
    length-subtree_hash (internal left right h dirty) depth =
        (digest
          (1 ∷ subtree_hash blake3 left (suc depth) ++ subtree_hash blake3 right (suc depth))).0

    -- The children of a node whose hash is that of another pair.
    pub children_bind :
        (a b : Node) (c d : Hash) (depth : ℕ)
        → length c ≡ 32
        → internal_hash blake3
            (subtree_hash blake3 a (suc depth))
            (subtree_hash blake3 b (suc depth))
          ≡ internal_hash blake3 c d
        → ((subtree_hash blake3 a (suc depth) ≡ c) × (subtree_hash blake3 b (suc depth) ≡ d))
          ⊎ Broken
    children_bind a b c d depth wide e =
        internal_hash_parts (subtree_hash blake3 a (suc depth)) (subtree_hash blake3 b (suc depth))
          c d (length-subtree_hash a (suc depth)) wide e

    lookup-leaf :
        (l r : Leaf) (depth : ℕ) (k : Hash)
        → l.leaf_key ≡ r.leaf_key
        → l.leaf_value ≡ r.leaf_value
        → lookup (leaf l) depth k ≡ lookup (leaf r) depth k
    unfolding lookup
    lookup-leaf l r depth k keys values = rw (keys, values) refl

    both_sides :
        (left right : Node) (h : Hash) (dirty : Bool) (left' right' : Node) (h' : Hash)
        (dirty' : Bool) (depth : ℕ)
        → (((k : Hash) → lookup left (suc depth) k ≡ lookup left' (suc depth) k) ⊎ Broken)
        → (((k : Hash) → lookup right (suc depth) k ≡ lookup right' (suc depth) k) ⊎ Broken)
        → ((k : Hash)
            → lookup (internal left right h dirty) depth k
              ≡ lookup (internal left' right' h' dirty') depth k)
          ⊎ Broken
    unfolding lookup
    both_sides left right h dirty left' right' h' dirty' depth (inl p) (inl q) =
        inl (λ k. ground (arith, p k, q k))
    both_sides left right h dirty left' right' h' dirty' depth (inr p) q = inr p
    both_sides left right h dirty left' right' h' dirty' depth (inl p) (inr q) = inr q

    split_empty :
        (h : Hash) (dirty : Bool) (depth : ℕ) (k : Hash)
        → lookup empty depth k ≡ lookup (internal empty empty h dirty) depth k
    unfolding lookup
    split_empty h dirty depth k = ground arith

    pub subtree_hash_binds :
        (n m : Node) (depth : ℕ)
        → depth ≤ 256
        → IsTree blake3 depth n
        → IsTree blake3 depth m
        → subtree_hash blake3 n depth ≡ subtree_hash blake3 m depth
        → ((k : Hash) → lookup n depth k ≡ lookup m depth k) ⊎ Broken
    unfolding subtree_hash
    subtree_hash_binds empty empty depth d tn tm e = inl (λ k. refl)
    subtree_hash_binds empty (leaf l) depth d tn tm e =
        inr (leaf_hash-default l.leaf_key l.leaf_value depth d (sym e))
    subtree_hash_binds (leaf l) empty depth d tn tm e =
        inr (leaf_hash-default l.leaf_key l.leaf_value depth d e)
    subtree_hash_binds (leaf l) (leaf r) depth d tn tm e =
        elim (leaf_hash_parts l.leaf_key l.leaf_value r.leaf_key r.leaf_value tn.0.0 tm.0.0 e) [
          | inl (keys, values) ↦ inl (λ k. lookup-leaf l r depth k keys values)
          | inr broken ↦ inr broken
        ]
    subtree_hash_binds (leaf l) (internal a b c f) depth d tn tm e = inr (
        leaf_hash-internal_hash l.leaf_key l.leaf_value (subtree_hash blake3 a (suc depth))
          (subtree_hash blake3 b (suc depth)) e)
    subtree_hash_binds (internal a b c f) (leaf l) depth d tn tm e = inr (
        leaf_hash-internal_hash l.leaf_key l.leaf_value (subtree_hash blake3 a (suc depth))
          (subtree_hash blake3 b (suc depth)) (sym e))
    subtree_hash_binds empty (internal a b c f) depth d tn tm e =
        let default = default_hashes blake3 (suc depth) in
        elim (children_bind a b default default depth (length-default_hashes (suc depth))
          (sym e ∙ default_hashes-suc depth tm.0)) [
            | inl (on_left, on_right) ↦
                elim (both_sides empty empty c f a b c f depth
                  (subtree_hash_binds empty a (suc depth) tm.0 tt tm.1.0.0 (sym on_left))
                  (subtree_hash_binds empty b (suc depth) tm.0 tt tm.1.0.1 (sym on_right))) [
                    | inl same ↦ inl (λ k. split_empty c f depth k ∙ same k)
                    | inr broken ↦ inr broken
                  ]
            | inr broken ↦ inr broken
          ]
    subtree_hash_binds (internal a b c f) empty depth d tn tm e =
        let default = default_hashes blake3 (suc depth) in
        elim (children_bind a b default default depth (length-default_hashes (suc depth))
          (e ∙ default_hashes-suc depth tn.0)) [
            | inl (on_left, on_right) ↦
                elim (both_sides a b c f empty empty c f depth
                  (subtree_hash_binds a empty (suc depth) tn.0 tn.1.0.0 tt on_left)
                  (subtree_hash_binds b empty (suc depth) tn.0 tn.1.0.1 tt on_right)) [
                    | inl same ↦ inl (λ k. same k ∙ sym (split_empty c f depth k))
                    | inr broken ↦ inr broken
                  ]
            | inr broken ↦ inr broken
          ]
    subtree_hash_binds (internal a b c f) (internal a' b' c' f') depth d tn tm e =
        elim (children_bind a b (subtree_hash blake3 a' (suc depth))
          (subtree_hash blake3 b' (suc depth)) depth (length-subtree_hash a' (suc depth)) e) [
            | inl (on_left, on_right) ↦
                both_sides a b c f a' b' c' f' depth
                  (subtree_hash_binds a a' (suc depth) tn.0 tn.1.0.0 tm.1.0.0 on_left)
                  (subtree_hash_binds b b' (suc depth) tn.0 tn.1.0.1 tm.1.0.1 on_right)
            | inr broken ↦ inr broken
          ]
