-- ===== src/Smt/Descending.antt =====
-- A path of siblings against a tree with one hash: both end at the same entry.
use blue_pods.Prelude.{
  ℕ, suc, ◌+◌, ◌≤◌, ◌<◌, ◌≡◌, sym, ◌∙◌, ap, ◌==◌, if◌then◌else◌, List, [], ◌∷◌, ◌++◌, arith, length,
  Bool-cases, inl, inr, ◌⊎◌, Option, All, subst,
}
use blue_pods.Types.{Hash}
use blue_pods.Smt.{Node, Leaf, empty, leaf, internal, bit, leaf_hash, internal_hash}
use blue_pods.Smt.Bits.{IsHash}
use blue_pods.Smt.Shape.{lookup, IsTree, subtree_hash}
use blue_pods.Smt.Paths.{join, descend}
use blue_pods.Smt.Binding.{
  Broken, children_bind, leaf_hash-internal_hash, default_hashes-suc, length-subtree_hash,
  subtree_hash_binds,
}

abbrev pub AreWide : List Hash → Type 0
AreWide = All (λ s. length s ≡ 32)

module _ (blake3 : List ℕ → Hash) (digest : (bytes : List ℕ) → IsHash (blake3 bytes)) where
  length-descend :
      (k : Hash) (depth : ℕ) (ss : List Hash) (target : Hash)
      → length target ≡ 32
      → length (descend blake3 k depth ss target) ≡ 32
  unfolding descend join internal_hash
  length-descend k depth [] target wide = wide
  length-descend k depth (s ∷ ss) target wide =
      let inner = descend blake3 k (suc depth) ss target in
      elim (Bool-cases (bit k depth == 0)) [
        | inl zero_bit ↦ rw zero_bit (digest (1 ∷ inner ++ s)).0
        | inr one_bit ↦ rw one_bit (digest (1 ∷ s ++ inner)).0
      ]

  -- One step down: the hash of a pair of subtrees is that of a pair with a sibling.
  step_down :
      (left right : Node) (k : Hash) (depth : ℕ) (inner s : Hash) (goal : Option Hash)
      → length inner ≡ 32
      → length s ≡ 32
      → internal_hash blake3
          (subtree_hash blake3 left (suc depth))
          (subtree_hash blake3 right (suc depth))
        ≡ join blake3 k depth inner s
      → IsTree blake3 (suc depth) left
      → IsTree blake3 (suc depth) right
      → ((m : Node)
          → IsTree blake3 (suc depth) m
          → subtree_hash blake3 m (suc depth) ≡ inner
          → (lookup m (suc depth) k ≡ goal) ⊎ Broken blake3)
      → ((if bit k depth == 0 then lookup left (suc depth) k else lookup right (suc depth) k)
          ≡ goal)
        ⊎ Broken blake3
  unfolding join
  step_down left right k depth inner s goal wide_inner wide e tl tr below =
      elim (Bool-cases (bit k depth == 0)) [
        | inl zero_bit ↦
            elim (children_bind blake3 digest left right inner s depth wide_inner
              (rw zero_bit at e)) [
                | inl (on_left, on_right) ↦ rw zero_bit (below left tl on_left)
                | inr broken ↦ inr broken
              ]
        | inr one_bit ↦
            elim (children_bind blake3 digest left right s inner depth wide (rw one_bit at e)) [
              | inl (on_left, on_right) ↦ rw one_bit (below right tr on_right)
              | inr broken ↦ inr broken
            ]
      ]

  leaf_hash-join :
      (l : Leaf) (k : Hash) (depth : ℕ) (inner s : Hash)
      → leaf_hash blake3 l.leaf_key l.leaf_value ≡ join blake3 k depth inner s
      → Broken blake3
  unfolding join
  leaf_hash-join l k depth inner s e = elim (Bool-cases (bit k depth == 0)) [
    | inl zero_bit ↦
        leaf_hash-internal_hash blake3 l.leaf_key l.leaf_value inner s (rw zero_bit at e)
    | inr one_bit ↦ leaf_hash-internal_hash blake3 l.leaf_key l.leaf_value s inner (rw one_bit at e)
  ]

  -- A path whose fold is the hash of a tree ends where the tree does.
  pub descend_binds :
      (ss : List Hash) (n end : Node) (k : Hash) (depth bottom : ℕ)
      → AreWide ss
      → length ss + depth ≡ bottom
      → bottom ≤ 256
      → IsTree blake3 depth n
      → IsTree blake3 bottom end
      → subtree_hash blake3 n depth ≡ descend blake3 k depth ss (subtree_hash blake3 end bottom)
      → (lookup n depth k ≡ lookup end bottom k) ⊎ Broken blake3
  unfolding descend lookup subtree_hash
  descend_binds [] n end k depth bottom wide levels d tn te e =
      let same : depth ≡ bottom = omega arith in
      let at_bottom = subst (λ (x : ℕ). IsTree blake3 x end) (sym same) te in
      let hashes =
        subst (λ (x : ℕ). subtree_hash blake3 n depth ≡ subtree_hash blake3 end x) (sym same) e in
      elim (subtree_hash_binds blake3 digest n end depth (omega arith) tn at_bottom hashes) [
        | inl held ↦ inl (held k ∙ ap (λ (x : ℕ). lookup end x k) same)
        | inr broken ↦ inr broken
      ]
  descend_binds (s ∷ ss) empty end k depth bottom wide levels d tn te e =
      let deep : depth < 256 = omega arith in
      let inner = descend blake3 k (suc depth) ss (subtree_hash blake3 end bottom) in
      elim (step_down empty empty k depth inner s (lookup end bottom k)
        (length-descend k (suc depth) ss (subtree_hash blake3 end bottom)
          (length-subtree_hash blake3 digest end bottom))
        wide.0 (sym (default_hashes-suc blake3 depth deep) ∙ e) tt tt
        (λ m tm h. descend_binds ss m end k (suc depth) bottom wide.1 (omega arith) d tm te h)) [
          | inl held ↦ inl (ground (arith, held))
          | inr broken ↦ inr broken
        ]
  descend_binds (s ∷ ss) (leaf l) end k depth bottom wide levels d tn te e = inr (
      leaf_hash-join l k depth (descend blake3 k (suc depth) ss (subtree_hash blake3 end bottom)) s
        e)
  descend_binds (s ∷ ss) (internal left right h dirty) end k depth bottom wide levels d tn te e =
      let inner = descend blake3 k (suc depth) ss (subtree_hash blake3 end bottom) in
      step_down left right k depth inner s (lookup end bottom k)
        (length-descend k (suc depth) ss (subtree_hash blake3 end bottom)
          (length-subtree_hash blake3 digest end bottom))
        wide.0 e tn.1.0.0 tn.1.0.1
        (λ m tm h. descend_binds ss m end k (suc depth) bottom wide.1 (omega arith) d tm te h)
