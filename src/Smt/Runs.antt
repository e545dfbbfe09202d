-- ===== src/Smt/Runs.antt =====
-- Runs of calls on the tree, against a finite map: what a run leaves is what the map holds, and the
-- root is a function of it.
use mathlib.Core.Path.{fun_ext}
use blue_pods.Prelude.{
  ℕ, ◌≡◌, refl, sym, subst, ◌∙◌, ap, Option, none, some, if◌then◌else◌, bytes_eq, List, [], ◌∷◌,
  arith, ◌>>=◌,
}
use blue_pods.Types.{Hash}
use blue_pods.Smt.{Smt, Entry, insert, delete, get, root_hash, new}
use blue_pods.Smt.Bits.{IsHash}
use blue_pods.Smt.Shape.{lookup, subtree_hash}
use blue_pods.Smt.Proofs.{prove}
use blue_pods.Smt.Canonical.{subtree_hash_canonical}
use blue_pods.Smt.States.{
  IsSmt, contents, insert-IsSmt, delete-IsSmt, root_hash-IsSmt, new-IsSmt, prove-IsSmt, digest_of,
  lookup-contents,
}

-- The operations of a caller.
pub data Call : Type 0 where
  put : List ℕ → List ℕ → Call
  remove : List ℕ → Call
  read_root : Call
  read_proof : List ℕ → Call

module _ (blake3 : List ℕ → Hash) where
  unfoldable pub step : Call → Smt → Option Smt
  unfolding insert delete root_hash prove
  step (put key value) t = insert blake3 key value t
  step (remove key) t = some (delete blake3 key t)
  step read_root t = some (root_hash blake3 t).1
  step (read_proof key) t = some (prove blake3 key t).1

  unfoldable pub run : List Call → Smt → Option Smt
  run [] t = some t
  run (c ∷ cs) t = step c t >>= (λ t'. run cs t')

  -- The contract: what a map of values by key hash does on the same calls.
  unfoldable pub run_map : List Call → (Hash → Option (List ℕ)) → Hash → Option (List ℕ)
  run_map [] m = m
  run_map (put key value ∷ cs) m =
      run_map cs (λ k. if bytes_eq (blake3 key) k then some value else m k)
  run_map (remove key ∷ cs) m = run_map cs (λ k. if bytes_eq (blake3 key) k then none else m k)
  run_map (read_root ∷ cs) m = run_map cs m
  run_map (read_proof key ∷ cs) m = run_map cs m

  module _ (digest : (bytes : List ℕ) → IsHash (blake3 bytes)) where
    -- Any run of insertions, deletions and queries succeeds, and leaves a tree that holds what
    -- a map holds after the same calls.
    run_lem :
        (cs : List Call) (t : Smt)
        → IsSmt blake3 t
        → (t' : Smt) × (run cs t ≡ some t')
          × IsSmt blake3 t'
          × ((k : Hash) → contents t' k ≡ run_map cs (contents t) k)
    unfolding run step run_map
    run_lem [] t smt = (t, refl, smt, λ k. refl)
    run_lem (put key value ∷ cs) t smt =
        let (t', done, smt', changed) = insert-IsSmt blake3 digest key value t smt in
        let (u, rest, last, held) = run_lem cs t' smt' in
        (
          u,
          rw (done, rest) refl,
          last,
          λ k. held k ∙ ap (λ (m : Hash → Option (List ℕ)). run_map cs m k) (fun_ext changed),
        )
    run_lem (remove key ∷ cs) t smt =
        let (smt', changed) = delete-IsSmt blake3 digest key t smt in
        let (u, rest, last, held) = run_lem cs (delete blake3 key t) smt' in
        (
          u,
          rest,
          last,
          λ k. held k ∙ ap (λ (m : Hash → Option (List ℕ)). run_map cs m k) (fun_ext changed),
        )
    run_lem (read_root ∷ cs) t smt =
        run_lem cs (root_hash blake3 t).1 (root_hash-IsSmt blake3 digest t smt).1
    run_lem (read_proof key ∷ cs) t smt =
        let (smt', same) = prove-IsSmt blake3 digest key t smt in
        let (u, again, last, held) = run_lem cs (prove blake3 key t).1 smt' in
        (
          u,
          again,
          last,
          λ k.
              held k
              ∙ ap (λ (e : Hash → Option Entry). run_map cs (λ j. e j >>= (λ e. some e.value)) k)
                  same,
        )

    pub reached :
        (cs : List Call) (t : Smt)
        → run cs new ≡ some t
        → IsSmt blake3 t × ((k : Hash) → contents t k ≡ run_map cs (λ k. none) k)
    reached cs t at =
        let (t', done, smt, held) = run_lem cs new (new-IsSmt blake3 digest) in
        let same : t' ≡ t = cc in
        subst (λ (x : Smt). IsSmt blake3 x × ((k : Hash) → contents x k ≡ run_map cs (λ k. none) k))
          same (smt, held)

    -- From an empty tree, any run of insertions, deletions and queries of the root and of
    -- proofs succeeds. `Get` then
    -- returns for every key what a map returns after the same insertions and deletions by key hash,
    -- and `Root` returns the hash that is recomputed from the leaves, whatever is memoised.
    pub run-refines :
        (cs : List Call)
        → (t : Smt) × (run cs new ≡ some t)
          × ((key : List ℕ) → get blake3 key t ≡ run_map cs (λ k. none) (blake3 key))
          × ((root_hash blake3 t).0 ≡ subtree_hash blake3 t.root 0)
    unfolding get
    run-refines cs =
        let (t, done, smt, held) = run_lem cs new (new-IsSmt blake3 digest) in
        (t, done, λ key. ground (arith, held (blake3 key)), (root_hash-IsSmt blake3 digest t smt).0)

    -- Two runs from an empty tree, in whatever order their calls stand, that leave the same contents
    -- leave trees with the same root.
    pub root_hash-canonical :
        (cs ds : List Call) (t u : Smt)
        → run cs new ≡ some t
        → run ds new ≡ some u
        → ((k : Hash) → run_map cs (λ k. none) k ≡ run_map ds (λ k. none) k)
        → (root_hash blake3 t).0 ≡ (root_hash blake3 u).0
    root_hash-canonical cs ds t u at_t at_u same =
        let (smt, held) = reached cs t at_t in
        let (smt', held') = reached ds u at_u in
        let hashes : (k : Hash) → lookup t.root 0 k ≡ lookup u.root 0 k = λ k.
          lookup-contents blake3 digest t smt k
          ∙ ap (digest_of blake3) (held k ∙ same k ∙ sym (held' k))
          ∙ sym (lookup-contents blake3 digest u smt' k) in
        (root_hash-IsSmt blake3 digest t smt).0
        ∙ subtree_hash_canonical blake3 t.root u.root 0 smt.tree smt'.tree hashes
        ∙ sym (root_hash-IsSmt blake3 digest u smt').0
