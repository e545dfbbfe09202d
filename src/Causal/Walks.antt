-- ===== src/Causal/Walks.antt =====
-- What holds of the walk's queue, seen hashes and entries at each step, and at its end.
use blue_pods.Prelude.{
  ℕ, zero, suc, ◌≡◌, List, [], ◌∷◌, ◌++◌, none, some, Bool, true, false, ◌||◌, bytes_eq_iff, arith,
  Bool-cases, Option-cases, inl, inr,
}
use blue_pods.Types.{Hash, contains}
use blue_pods.Anchor.{Vertex, Store}
use blue_pods.Causal.{CausalEntry, collected, below_commit_floor, collect_causal}
use blue_pods.Causal.Members.{hashes_of, contains-append, contains-hashes_of}

module _ (s : Store) where
  -- The hashes that need not be collected.
  abbrev pub dead : Hash → Bool
  dead h =
      s.committed h || elim (s.vertices h) [ none ↦ false | some x ↦ below_commit_floor x.round s ]

  -- What is seen is collected or dead, and the parents of what is collected are seen, dead or queued.
  pub record IsWalk (queue seen : List Hash) (entries : List CausalEntry) : Type 0 where
    pub seen_done :
        (h : Hash) → contains h seen ≡ true → (contains h (hashes_of entries) || dead h) ≡ true
    pub parents_done :
        (h p : Hash) (x : Vertex)
        → contains h (hashes_of entries) ≡ true
        → s.vertices h ≡ some x
        → contains p x.parents ≡ true
        → (contains p queue || contains p (hashes_of entries) || dead p) ≡ true

  pub record IsClosed (queue : List Hash) (entries es : List CausalEntry) : Type 0 where
    pub keeps :
        (h : Hash) → contains h (hashes_of entries) ≡ true → contains h (hashes_of es) ≡ true
    pub queue_done :
        (h : Hash) → contains h queue ≡ true → (contains h (hashes_of es) || dead h) ≡ true
    pub closed :
        (h p : Hash) (x : Vertex)
        → contains h (hashes_of es) ≡ true
        → s.vertices h ≡ some x
        → contains p x.parents ≡ true
        → (contains p (hashes_of es) || dead p) ≡ true

  skip-IsWalk :
      (hash : Hash) (queue seen : List Hash) (entries : List CausalEntry)
      → (contains hash seen || s.committed hash) ≡ true
      → IsWalk (hash ∷ queue) seen entries
      → IsWalk queue seen entries
  unfolding contains
  skip-IsWalk hash queue seen entries skipped w = record {
    seen_done = w.seen_done;
    parents_done = λ h p x listed there up. ground (
      arith,
      w.parents_done h p x listed there up,
      w.seen_done hash,
      skipped,
      bytes_eq_iff p hash,
    );
  }

  below-IsWalk :
      (hash : Hash) (queue seen : List Hash) (entries : List CausalEntry) (y : Vertex)
      → s.vertices hash ≡ some y
      → below_commit_floor y.round s ≡ true
      → IsWalk (hash ∷ queue) seen entries
      → IsWalk queue (hash ∷ seen) entries
  unfolding contains
  below-IsWalk hash queue seen entries y stored below w = record {
    seen_done = λ h known. ground (arith, known, w.seen_done h, stored, below, bytes_eq_iff h hash);
    parents_done = λ h p x listed there up.
        ground (arith, w.parents_done h p x listed there up, stored, below, bytes_eq_iff p hash);
  }

  live-IsWalk :
      (hash : Hash) (queue seen : List Hash) (entries : List CausalEntry) (y : Vertex)
      → s.vertices hash ≡ some y
      → IsWalk (hash ∷ queue) seen entries
      → IsWalk
          (queue ++ y.parents)
          (hash ∷ seen)
          (entries ++ record { hash = hash; round = y.round } ∷ [])
  unfolding contains
  live-IsWalk hash queue seen entries y stored w = record {
    seen_done = λ h known. ground (
      arith,
      known,
      w.seen_done h,
      bytes_eq_iff h hash,
      contains-hashes_of h hash y.round entries,
    );
    parents_done = λ h p x listed there up. elim (Bool-cases (contains h (hashes_of entries))) [
      | inl old ↦ ground (
        arith,
        w.parents_done h p x old there up,
        bytes_eq_iff p hash,
        contains-append p queue y.parents,
        contains-hashes_of p hash y.round entries,
      )
      | inr new ↦ ground (
        arith,
        listed,
        new,
        there,
        stored,
        up,
        bytes_eq_iff h hash,
        contains-hashes_of h hash y.round entries,
        contains-append p queue y.parents,
      )
    ];
  }

  pub collect_causal-IsClosed :
      (fuel : ℕ) (queue seen : List Hash) (entries : List CausalEntry) {es : List CausalEntry}
      → IsWalk queue seen entries
      → collect_causal fuel s queue seen entries ≡ collected es
      → IsClosed queue entries es
  unfolding collect_causal contains
  collect_causal-IsClosed fuel [] seen entries {es} w e =
      let same : entries ≡ es = ground (arith, e) in
      record {
        keeps = λ h listed. ground (arith, same, listed);
        queue_done = λ h none_there. absurd cc;
        closed = λ h p x listed there up.
            ground (arith, same, w.parents_done h p x (ground (arith, same, listed)) there up);
      }
  collect_causal-IsClosed zero (hash ∷ queue) seen entries {es} w e = absurd cc
  collect_causal-IsClosed (suc fuel) (hash ∷ queue) seen entries {es} w e =
      elim (Bool-cases (contains hash seen || s.committed hash)) [
        | inl skipped ↦
            let ih : IsClosed queue entries es =
              collect_causal-IsClosed fuel queue seen entries
                (skip-IsWalk hash queue seen entries skipped w) (ground (arith, e, skipped)) in
            record {
              keeps = ih.keeps;
              queue_done = λ h queued. ground (
                arith,
                queued,
                ih.queue_done h,
                skipped,
                w.seen_done hash,
                ih.keeps hash,
                bytes_eq_iff h hash,
              );
              closed = ih.closed;
            }
        | inr fresh ↦ elim (Option-cases (s.vertices hash)) [
          | inl absent ↦ absurd (ground (arith, e, fresh, absent))
          | inr (x, there) ↦ elim (Bool-cases (below_commit_floor x.round s)) [
            | inl below ↦
                let ih : IsClosed queue entries es =
                  collect_causal-IsClosed fuel queue (hash ∷ seen) entries
                    (below-IsWalk hash queue seen entries x there below w)
                    (ground (arith, e, fresh, there, below)) in
                record {
                  keeps = ih.keeps;
                  queue_done = λ h queued.
                      ground (arith, queued, ih.queue_done h, there, below, bytes_eq_iff h hash);
                  closed = ih.closed;
                }
            | inr above ↦
                let next = entries ++ record { hash = hash; round = x.round } ∷ [] in
                let ih : IsClosed (queue ++ x.parents) next es =
                  collect_causal-IsClosed fuel (queue ++ x.parents) (hash ∷ seen) next
                    (live-IsWalk hash queue seen entries x there w)
                    (ground (arith, e, fresh, there, above)) in
                record {
                  keeps = λ h listed.
                      ih.keeps h
                        (ground (arith, listed, contains-hashes_of h hash x.round entries));
                  queue_done = λ h queued. ground (
                    arith,
                    queued,
                    ih.queue_done h,
                    ih.keeps h,
                    contains-append h queue x.parents,
                    contains-hashes_of h hash x.round entries,
                    bytes_eq_iff h hash,
                  );
                  closed = ih.closed;
                }
          ]
        ]
      ]
