-- ===== src/Smt/States.antt =====
-- The tree against its contract: a finite map from keys to values, whose root is a function of the
-- map. BLAKE3 is assumed to return 32 bytes; a call that meets a panic is `none`.
use blue_pods.Prelude.{
  ℕ, ◌≡◌, refl, subst, ◌∙◌, Option, none, some, if◌then◌else◌, bytes_eq, bytes_eq_iff, Bool-cases,
  Option-cases, inl, inr, List, arith, ◌>>=◌,
}
use blue_pods.Types.{Hash}
use blue_pods.Smt.{Smt, Entry, Node, empty, leaf, internal, insert, delete, root_hash, new}
use blue_pods.Smt.Bits.{IsHash, Agree}
use blue_pods.Smt.Shape.{Every, lookup, IsTree, subtree_hash}
use blue_pods.Smt.Inserting.{insert_node_lem}
use blue_pods.Smt.Deleting.{delete_node_lem}
use blue_pods.Smt.Hashing.{node_hash_lem, lookup-node_hash}
use blue_pods.Smt.Proofs.{prove, prove_path}
use blue_pods.Smt.Walking.{walk_path_lem}

abbrev pub value_hash_of : Option Entry → Option Hash
value_hash_of none = none
value_hash_of (some e) = some e.value_hash

abbrev pub contents : Smt → Hash → Option (List ℕ)
contents t k = t.entries k >>= (λ e. some e.value)

module _ (blake3 : List ℕ → Hash) where
  -- The tree holds the hashes of the entries, and each entry's hashes are those of its bytes.
  pub record IsSmt (t : Smt) : Type 0 where
    pub tree : IsTree blake3 0 t.root
    pub holds : (k : Hash) → lookup t.root 0 k ≡ value_hash_of (t.entries k)
    pub hashed : (k : Hash) (e : Entry) → t.entries k ≡ some e → e.value_hash ≡ blake3 e.value

  root_agrees : (k : Hash) (n : Node) → Every (Agree 0 k) n
  root_agrees k empty = tt
  root_agrees k (leaf l) = λ i h. absurd (omega arith)
  root_agrees k (internal left right h dirty) = (root_agrees k left, root_agrees k right)

  unfoldable pub digest_of : Option (List ℕ) → Option Hash
  digest_of o = elim o [ none ↦ none | some v ↦ some (blake3 v) ]

  module _ (digest : (bytes : List ℕ) → IsHash (blake3 bytes)) where
    pub insert-IsSmt :
        (key value : List ℕ) (t : Smt)
        → IsSmt t
        → (t' : Smt) × (insert blake3 key value t ≡ some t')
          × IsSmt t'
          × ((k : Hash)
              → contents t' k ≡ (if bytes_eq (blake3 key) k then some value else contents t k))
    unfolding insert
    insert-IsSmt key value t smt =
        let stored : Entry = record {
          key_hash = blake3 key;
          value_hash = blake3 value;
          value = value;
        } in
        let (root, step, shape, more, written) =
          insert_node_lem blake3 t.root 0 (blake3 key) (blake3 value) smt.tree (digest key)
            (digest value) (omega arith) (root_agrees (blake3 key) t.root) in
        (
          record {
            entries = λ k. if bytes_eq (blake3 key) k then some stored else t.entries k;
            root = root;
          },
          rw step refl,
          record {
            tree = shape;
            holds = λ k. ground (arith, written k, smt.holds k);
            hashed = λ k e h. elim (Bool-cases (bytes_eq (blake3 key) k)) [
              | inl here ↦
                  let same : stored ≡ e = ground (arith, h, here) in
                  subst (λ (x : Entry). x.value_hash ≡ blake3 x.value) same refl
              | inr other ↦ smt.hashed k e (ground (arith, h, other))
            ];
          },
          λ k. ground arith,
        )

    pub delete-IsSmt :
        (key : List ℕ) (t : Smt)
        → IsSmt t
        → IsSmt (delete blake3 key t)
          × ((k : Hash)
              → contents (delete blake3 key t) k
                ≡ (if bytes_eq (blake3 key) k then none else contents t k))
    unfolding delete
    delete-IsSmt key t smt = elim (Option-cases (t.entries (blake3 key))) [
      | inl missing ↦
          rw (delete, missing) (smt, λ k. ground (arith, missing, bytes_eq_iff (blake3 key) k))
      | inr (e, found) ↦
          let (shape, more, removed) = delete_node_lem blake3 t.root 0 (blake3 key) smt.tree in
          rw (delete, found)
            (
              record {
                tree = shape;
                holds = λ k. ground (arith, removed k, smt.holds k);
                hashed = λ k e h. elim (Bool-cases (bytes_eq (blake3 key) k)) [
                  | inl here ↦ absurd (ground (arith, h, here))
                  | inr other ↦ smt.hashed k e (ground (arith, h, other))
                ];
              },
              λ k. ground arith,
            )
    ]

    pub root_hash-IsSmt :
        (t : Smt)
        → IsSmt t
        → ((root_hash blake3 t).0 ≡ subtree_hash blake3 t.root 0) × IsSmt (root_hash blake3 t).1
    unfolding root_hash
    root_hash-IsSmt t smt =
        let (hash, shape) = node_hash_lem blake3 t.root 0 smt.tree in
        (
          hash,
          record {
            tree = shape;
            holds = λ k. lookup-node_hash blake3 t.root 0 k ∙ smt.holds k;
            hashed = smt.hashed;
          },
        )

    pub new-IsSmt : IsSmt new
    unfolding lookup
    new-IsSmt = record { tree = tt; holds = λ k. refl; hashed = λ k e h. absurd cc }

    pub lookup-contents :
        (t : Smt) → IsSmt t → (k : Hash) → lookup t.root 0 k ≡ digest_of (contents t k)
    unfolding digest_of
    lookup-contents t smt k = smt.holds k ∙ (elim (Option-cases (t.entries k)) [
      | inl missing ↦ ground (arith, missing)
      | inr (e, found) ↦ ground (arith, found, smt.hashed k e found)
    ])

    pub prove-IsSmt :
        (key : List ℕ) (t : Smt)
        → IsSmt t
        → IsSmt (prove blake3 key t).1 × ((prove blake3 key t).1.entries ≡ t.entries)
    unfolding prove prove_path
    prove-IsSmt key t smt =
        let (siblings, end, root', bottom, step, copy, e) =
          walk_path_lem blake3 t.root 0 (blake3 key) smt.tree (omega arith) in
        rw step (
          record { tree = copy.shape; holds = λ k. copy.held k ∙ smt.holds k; hashed = smt.hashed },
          refl,
        )
