-- ===== src/Smt/Soundness.antt =====
-- Soundness of the proofs: what `Verify` accepts against the root of a tree is what the tree holds,
-- unless a collision of BLAKE3 or a preimage of zeros can be read off the proof.
use blue_pods.Prelude.{ℕ, ◌≡◌, List, Option}
use blue_pods.Types.{Hash}
use blue_pods.Smt.{Smt, Node}
use blue_pods.Smt.Bits.{IsHash}
use blue_pods.Smt.Shape.{lookup, IsTree, subtree_hash}
use blue_pods.Smt.States.{digest_of}
use blue_pods.Smt.Walking.{IsEnd}

module _ (blake3 : List ℕ → Hash) (digest : (bytes : List ℕ) → IsHash (blake3 bytes)) where
  -- The target of `Verify` is the hash of an end of a walk, with what is claimed of the key.
  record IsTarget (k : Hash) (value : Option (List ℕ)) (bottom : ℕ) (target : Hash) (end : Node)
      : Type 0 where
    ends : IsEnd end
    shape : IsTree blake3 bottom end
    claimed : lookup end bottom k ≡ digest_of blake3 value
    hash : target ≡ subtree_hash blake3 end bottom
