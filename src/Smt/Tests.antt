-- ===== src/Smt/Tests.antt =====
-- The theorems on the tree, with a number of the bytes in the place of BLAKE3.
use blue_pods.Prelude.{
  ℕ, ◌<◌, ◌≡◌, refl, true, false, if◌then◌else◌, List, [], ◌∷◌, arith, none, some, replicate,
  bytes_eq, bytes_eq_iff,
}
use blue_pods.Types.{Hash}
use blue_pods.Bytes.{le_bytes, be_bytes, be_num, le_num, length-be_bytes, reverse-All}
use blue_pods.Coins.Store.{le_bytes-AreBytes}
use blue_pods.Smt.{
  Smt, Entry, Node, Leaf, leaf, new, new_leaf, insert, insert_node, get, root_hash, split_leaves,
}
use blue_pods.Smt.Bits.{IsHash}
use blue_pods.Smt.Shape.{IsTree, count, subtree_hash}
use blue_pods.Smt.Splitting.{split_leaves_lem, Written}
use blue_pods.Smt.States.{IsSmt}
use blue_pods.Smt.Runs.{
  Call, put, remove, read_root, read_proof, run, step, run_map, run-refines, root_hash-canonical,
  reached,
}
use blue_pods.Smt.Proofs.{
  Proof, prove, verify, serialize, deserialize_proof, read_siblings, read_leaf, read_hashes,
}
use blue_pods.Smt.Completeness.{verify-prove}
use blue_pods.Smt.Wire.{serialize-deserialize_proof}

abbrev number_hash : List ℕ → Hash
number_hash bytes = be_bytes 32 (le_num bytes)

number_hash-IsHash : (bytes : List ℕ) → IsHash (number_hash bytes)
unfolding be_bytes
number_hash-IsHash bytes = (
  length-be_bytes 32 (le_num bytes),
  reverse-All (λ b. b < 256) (le_bytes 32 (le_num bytes)) (le_bytes-AreBytes 32 (le_num bytes)),
)

abbrev calls : List Call
calls =
    put (1 ∷ []) (5 ∷ [])
    ∷ put (2 ∷ []) (6 ∷ [])
    ∷ read_root
    ∷ read_proof (7 ∷ [])
    ∷ remove (1 ∷ [])
    ∷ []

run-refines_example :
    (t : Smt) × (run number_hash calls new ≡ some t)
    × ((key : List ℕ)
        → get number_hash key t ≡ run_map number_hash calls (λ k. none) (number_hash key))
    × ((root_hash number_hash t).0 ≡ subtree_hash number_hash t.root 0)
run-refines_example = run-refines number_hash number_hash-IsHash calls

abbrev stored : Entry
stored = record {
  key_hash = number_hash (1 ∷ []);
  value_hash = number_hash (5 ∷ []);
  value = 5 ∷ [];
}

abbrev one_leaf : Smt
one_leaf = record {
  entries = λ k. if bytes_eq (number_hash (1 ∷ [])) k then some stored else none;
  root = leaf (new_leaf number_hash (number_hash (1 ∷ [])) (number_hash (5 ∷ [])));
}

one_leaf_runs : run number_hash (put (1 ∷ []) (5 ∷ []) ∷ []) new ≡ some one_leaf
unfolding run step insert insert_node
one_leaf_runs = refl

abbrev longer : List Call
longer = put (2 ∷ []) (6 ∷ []) ∷ put (1 ∷ []) (5 ∷ []) ∷ read_root ∷ remove (2 ∷ []) ∷ []

-- The tree after the longer run.
abbrev pruned : Smt
pruned = (run-refines number_hash number_hash-IsHash longer).0

keys_differ : bytes_eq (number_hash (1 ∷ [])) (number_hash (2 ∷ [])) ≡ false
unfolding be_bytes le_bytes le_num bytes_eq
keys_differ = refl

same_contents :
    (k : Hash)
    → run_map number_hash (put (1 ∷ []) (5 ∷ []) ∷ []) (λ k. none) k
      ≡ run_map number_hash longer (λ k. none) k
unfolding run_map
same_contents k = ground (
  arith,
  bytes_eq_iff (number_hash (1 ∷ [])) k,
  bytes_eq_iff (number_hash (2 ∷ [])) k,
  keys_differ,
)

one_leaf-IsSmt : IsSmt number_hash one_leaf
one_leaf-IsSmt =
    (reached number_hash number_hash-IsHash (put (1 ∷ []) (5 ∷ []) ∷ []) one_leaf one_leaf_runs).0

root_hash-canonical_example : (root_hash number_hash one_leaf).0 ≡ (root_hash number_hash pruned).0
root_hash-canonical_example =
    root_hash-canonical number_hash number_hash-IsHash (put (1 ∷ []) (5 ∷ []) ∷ []) longer one_leaf
      pruned one_leaf_runs (run-refines number_hash number_hash-IsHash longer).1 same_contents

verify-prove_example :
    verify number_hash
      (root_hash number_hash one_leaf).0
      (1 ∷ [])
      (get number_hash (1 ∷ []) one_leaf)
      (prove number_hash (1 ∷ []) one_leaf).0
    ≡ true
verify-prove_example = verify-prove number_hash number_hash-IsHash (1 ∷ []) one_leaf one_leaf-IsSmt

bare_proof : Proof
bare_proof = record { siblings = []; occupant = [] }

small_proof : Proof
small_proof = record { siblings = replicate 32 7 ∷ []; occupant = replicate 64 9 }

bare_proof_decodes : deserialize_proof (replicate 8 0) ≡ some bare_proof
unfolding bare_proof deserialize_proof read_siblings read_leaf read_hashes be_num le_num
bare_proof_decodes = refl

serialize-deserialize_proof_example : serialize bare_proof ≡ replicate 8 0
serialize-deserialize_proof_example =
    serialize-deserialize_proof (replicate 8 0) bare_proof (omega arith) (omega arith)
      bare_proof_decodes

abbrev low_leaf : Leaf
low_leaf = new_leaf number_hash (replicate 32 0) (replicate 32 4)

abbrev high_leaf : Leaf
high_leaf = new_leaf number_hash (1 ∷ replicate 31 0) (replicate 32 6)

leaf-IsTree :
    (k v : Hash) → IsHash k → IsHash v → IsTree number_hash 0 (leaf (new_leaf number_hash k v))
unfolding new_leaf
leaf-IsTree k v hk hv = (hk, (hv, refl))

split_leaves_lem_example :
    (n : Node) × (split_leaves 256 low_leaf high_leaf 0 ≡ some n)
    × IsTree number_hash 0 n
    × (count n ≡ 2)
    × Written high_leaf.leaf_key high_leaf.leaf_value 0 (leaf low_leaf) n
unfolding new_leaf
split_leaves_lem_example =
    split_leaves_lem number_hash 256 low_leaf high_leaf 0 (omega arith)
      (leaf-IsTree (replicate 32 0) (replicate 32 4) (omega arith) (omega arith))
      (leaf-IsTree (1 ∷ replicate 31 0) (replicate 32 6) (omega arith) (omega arith))
      (λ i h. absurd (omega arith)) (λ e. cc)
