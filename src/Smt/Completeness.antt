-- ===== src/Smt/Completeness.antt =====
-- Completeness of the proofs: `Verify` accepts what `Prove` returns, for a key that is there with
-- its value, and for one that is not.
use mathlib.Core.List.{reverse}
use blue_pods.Prelude.{
  ℕ, ◌≤◌, ◌≡◌, refl, sym, ◌∙◌, true, false, ◌>>=◌, ltb, List, arith, length, length-append,
  Bool-cases, inl, inr, Option, none, some, bytes_eq, bytes_eq_iff, bytes_eq_refl, take-append,
  drop-append,
}
use blue_pods.Types.{Hash}
use blue_pods.Bytes.{length-reverse}
use blue_pods.Smt.{Smt, Node, Leaf, empty, leaf, internal, leaf_hash, get, root_hash, Entry}
use blue_pods.Smt.Bits.{IsHash}
use blue_pods.Smt.Shape.{lookup, IsTree, subtree_hash}
use blue_pods.Smt.States.{IsSmt, root_hash-IsSmt, value_hash_of}
use blue_pods.Smt.Proofs.{
  Proof, path_leaf, other_leaf, prove_path, prove, absence_target, proof_target, fold_path, verify,
}
use blue_pods.Smt.Paths.{fold_path-reverse}
use blue_pods.Smt.Walking.{IsEnd, walk_path_lem}

module _ (blake3 : List ℕ → Hash) where
  -- The occupant of a leaf with another key is read back from the proof.
  absence_target-other :
      (l : Leaf) (k : Hash) (siblings : List Hash)
      → IsHash l.leaf_key
      → IsHash l.leaf_value
      → bytes_eq l.leaf_key k ≡ false
      → absence_target blake3 k
          (record { siblings = siblings; occupant = other_leaf l.leaf_key l.leaf_value })
        ≡ some (leaf_hash blake3 l.leaf_key l.leaf_value)
  unfolding absence_target other_leaf
  absence_target-other l k siblings hk hv other = ground (
    arith,
    length-append l.leaf_key l.leaf_value,
    hk.0,
    hv.0,
    other,
    take-append l.leaf_key l.leaf_value 32 hk.0,
    drop-append l.leaf_key l.leaf_value 32 hk.0,
  )

  -- The target that `Verify` starts from is the hash at the end of the walk.
  target_found :
      (end : Node) (k : Hash) (siblings : List Hash) (bottom : ℕ) (entry : Option Entry)
      → length siblings ≡ bottom
      → IsEnd end
      → IsTree blake3 bottom end
      → lookup end bottom k ≡ value_hash_of entry
      → ((e : Entry) → entry ≡ some e → e.value_hash ≡ blake3 e.value)
      → proof_target blake3 k
          (entry >>= (λ e. some e.value))
          (record { siblings = siblings; occupant = path_leaf end k })
        ≡ some (subtree_hash blake3 end bottom)
  unfolding proof_target path_leaf lookup subtree_hash
  target_found empty k siblings bottom none levels end tree found hashed = rw levels refl
  target_found empty k siblings bottom (some e) levels end tree found hashed = absurd cc
  target_found (leaf l) k siblings bottom none levels end tree found hashed =
      elim (Bool-cases (bytes_eq l.leaf_key k)) [
        | inl same ↦ absurd (ground (arith, found, same))
        | inr other ↦ rw other (absence_target-other l k siblings tree.0 tree.1.0 other)
      ]
  target_found (leaf l) k siblings bottom (some e) levels end tree found hashed =
      elim (Bool-cases (bytes_eq l.leaf_key k)) [
        | inl same ↦
            let keys : l.leaf_key ≡ k = (bytes_eq_iff l.leaf_key k).0 same in
            let values : l.leaf_value ≡ blake3 e.value =
              ground (arith, found, same, hashed e refl) in
            rw (same, sym keys, sym values) refl
        | inr other ↦ absurd (ground (arith, found, other))
      ]
  target_found (internal left right h dirty) k siblings bottom entry levels end tree found hashed =
      absurd end

  verify_accepts :
      (root : Hash) (key : List ℕ) (value : Option (List ℕ)) (p : Proof) (target : Hash)
      → length p.siblings ≤ 256
      → proof_target blake3 (blake3 key) value p ≡ some target
      → fold_path blake3 target (blake3 key) p.siblings ≡ root
      → verify blake3 root key value p ≡ true
  unfolding verify
  verify_accepts root key value p target bound found folds =
      let short : ltb 256 (length p.siblings) ≡ false = ground arith in
      rw (short, found, folds) (bytes_eq_refl root)

  module _ (digest : (bytes : List ℕ) → IsHash (blake3 bytes)) where
    -- On a tree that holds its entries, `Verify` accepts the proof that `Prove` returns for a key
    -- against the tree's root: as an inclusion of the value that `Get` returns, or as an absence
    -- where `Get` returns none.
    pub verify-prove :
        (key : List ℕ) (t : Smt)
        → IsSmt blake3 t
        → verify blake3 (root_hash blake3 t).0 key (get blake3 key t) (prove blake3 key t).0 ≡ true
    unfolding get prove prove_path path_leaf
    verify-prove key t smt =
        let k = blake3 key in
        let (siblings, end, root', bottom, step, copy, e) =
          walk_path_lem blake3 t.root 0 k smt.tree (omega arith) in
        let levels : length (reverse siblings) ≡ bottom =
          omega (arith, length-reverse siblings, e.levels) in
        let target =
          target_found end k (reverse siblings) bottom (t.entries k) levels e.ends e.end_shape
            (e.found ∙ smt.holds k) (smt.hashed k) in
        let proof : Proof = record { siblings = reverse siblings; occupant = path_leaf end k } in
        let proved : (prove blake3 key t).0 ≡ proof = rw step refl in
        let bound : length (reverse siblings) ≤ 256 = omega (arith, levels, e.deepest) in
        let folds =
          fold_path-reverse blake3 k (subtree_hash blake3 end bottom) siblings ∙ e.folds in
        let root = (root_hash-IsSmt blake3 digest t smt).0 in
        rw proved (
          verify_accepts (root_hash blake3 t).0 key (get blake3 key t) proof
            (subtree_hash blake3 end bottom) bound target (folds ∙ sym root))
