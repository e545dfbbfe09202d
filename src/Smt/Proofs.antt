-- ===== src/Smt/Proofs.antt =====
-- Merkle proofs (internal/index/proof.go): their making, their check and their wire format. A nil
-- value stands for an absence; a decoding error is `none`. An index out of range does not occur: a
-- path has at most 256 siblings.
use mathlib.Core.List.{reverse}
use blue_pods.Prelude.{
  ℕ, zero, suc, ◌%◌, ◌^◌, List, [], ◌∷◌, ◌++◌, Option, none, some, Bool, false, ◌==◌, ltb, not,
  ◌>>=◌, if◌then◌else◌, bytes_eq, length, take, drop,
}
use blue_pods.Types.{Hash}
use blue_pods.Bytes.{be_bytes, be_num}
use blue_pods.Smt.{
  Smt, Node, empty, leaf, internal, bit, tree_depth, leaf_hash, internal_hash, default_hashes,
  node_hash,
}

pub record Proof : Type 0 where
  pub siblings : List Hash
  pub occupant : List ℕ

unfoldable pub other_leaf : Hash → Hash → List ℕ
other_leaf key_hash value_hash = key_hash ++ value_hash

unfoldable pub path_leaf : Node → Hash → List ℕ
unfolding other_leaf
path_leaf empty key_hash = []
path_leaf (leaf l) key_hash =
    if bytes_eq l.leaf_key key_hash then [] else other_leaf l.leaf_key l.leaf_value
path_leaf (internal left right h dirty) key_hash = []

-- Decoding.
unfoldable pub read_hashes : ℕ → List ℕ → Option (List Hash × List ℕ)
read_hashes zero input = some ([], input)
read_hashes (suc n) input =
    let rest = read_hashes n (drop 32 input) in
    if ltb (length input) 32
    then none
    else (do (siblings, left_over) ← rest; some (take 32 input ∷ siblings, left_over))

unfoldable pub read_siblings : List ℕ → Option (List Hash × List ℕ)
unfolding read_hashes
read_siblings input =
    if ltb (length input) 4
    then none
    else (let count = be_num (take 4 input) in
        if ltb tree_depth count then none else read_hashes count (drop 4 input))

unfoldable pub read_leaf : List ℕ → Option (List ℕ)
read_leaf input =
    if ltb (length input) 4
    then none
    else (let leaf_len = be_num (take 4 input) in
        if not (length (drop 4 input) % 2 ^ 32 == leaf_len)
        then none
        else if leaf_len == 0
        then some []
        else some (drop 4 input))

unfoldable pub deserialize_proof : List ℕ → Option Proof
unfolding read_siblings read_leaf
deserialize_proof input = do
  (siblings, rest) ← read_siblings input
  occupant ← read_leaf rest
  some (record { siblings = siblings; occupant = occupant })

unfoldable pub concat_hashes : List Hash → List ℕ
concat_hashes [] = []
concat_hashes (s ∷ siblings) = s ++ concat_hashes siblings

unfoldable pub serialize : Proof → List ℕ
unfolding concat_hashes
serialize p =
    be_bytes 4 (length p.siblings % 2 ^ 32)
    ++ (concat_hashes p.siblings ++ (be_bytes 4 (length p.occupant % 2 ^ 32) ++ p.occupant))

module _ (blake3 : List ℕ → Hash) where
  -- The loop of `provePath`: the siblings, shallowest first, the node at which the walk ends, and
  -- the tree with the hashes that were recomputed on the way.
  unfoldable pub walk_path : Node → ℕ → Hash → List Hash × Node × Node
  unfolding node_hash
  walk_path empty depth key_hash = ([], empty, empty)
  walk_path (leaf l) depth key_hash = ([], leaf l, leaf l)
  walk_path (internal left right h dirty) depth key_hash =
      let (left_siblings, left_end, left') = walk_path left (suc depth) key_hash in
      let (right_siblings, right_end, right') = walk_path right (suc depth) key_hash in
      if bit key_hash depth == 0
      then (let (sibling, other) = node_hash blake3 right (suc depth) in
          (sibling ∷ left_siblings, left_end, internal left' other h dirty))
      else (let (sibling, other) = node_hash blake3 left (suc depth) in
          (sibling ∷ right_siblings, right_end, internal other right' h dirty))

  unfoldable pub prove_path : Node → Hash → List Hash × List ℕ × Node
  unfolding walk_path path_leaf
  prove_path root key_hash =
      let (siblings, end, root') = walk_path root 0 key_hash in
      (reverse siblings, path_leaf end key_hash, root')

  unfoldable pub prove : List ℕ → Smt → Proof × Smt
  unfolding prove_path
  prove key t =
      let (siblings, bytes, root) = prove_path t.root (blake3 key) in
      (record { siblings = siblings; occupant = bytes }, record t { root = root })

  unfoldable pub absence_target : Hash → Proof → Option Hash
  unfolding default_hashes leaf_hash
  absence_target key_hash p =
      if length p.occupant == 0
      then some (default_hashes blake3 (length p.siblings))
      else if not (length p.occupant == 64)
      then none
      else (let other_key = take 32 p.occupant in
          let other_value = drop 32 p.occupant in
          if bytes_eq other_key key_hash
          then none
          else some (leaf_hash blake3 other_key other_value))

  unfoldable pub proof_target : Hash → Option (List ℕ) → Proof → Option Hash
  unfolding absence_target leaf_hash
  proof_target key_hash none p = absence_target key_hash p
  proof_target key_hash (some value) p =
      if not (length p.occupant == 0) then none else some (leaf_hash blake3 key_hash (blake3 value))

  unfoldable pub fold_path : Hash → Hash → List Hash → Hash
  unfolding internal_hash
  fold_path cur key_hash [] = cur
  fold_path cur key_hash (sibling ∷ siblings) =
      let depth = length siblings in
      let next =
        if bit key_hash depth == 0
        then internal_hash blake3 cur sibling
        else internal_hash blake3 sibling cur in
      fold_path next key_hash siblings

  unfoldable pub verify : Hash → List ℕ → Option (List ℕ) → Proof → Bool
  unfolding proof_target fold_path
  verify root key value p =
      if ltb tree_depth (length p.siblings)
      then false
      else (elim (proof_target (blake3 key) value p) [
        | none ↦ false
        | some target ↦ bytes_eq (fold_path target (blake3 key) p.siblings) root
      ])
