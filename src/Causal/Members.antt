-- ===== src/Causal/Members.antt =====
-- What the walk collects: the live ancestors of the anchor, those that a chain of live vertices leads
-- to.
use blue_pods.Prelude.{
  ℕ, zero, suc, ◌≡◌, List, [], ◌∷◌, ◌++◌, some, true, false, ◌||◌, bytes_eq, bytes_eq_iff,
  bytes_eq_refl, arith, Bool-cases, Option-cases, inl, inr, map, subst,
}
use blue_pods.Types.{Hash, contains}
use blue_pods.Anchor.{Vertex, Store}
use blue_pods.Causal.{
  CausalEntry, collected, below_commit_floor, collect_causal, insert_entry, sort_entries,
}

abbrev pub hashes_of : List CausalEntry → List Hash
hashes_of entries = map (λ (e : CausalEntry). e.hash) entries

pub contains-append :
    (h : Hash) (xs ys : List Hash) → contains h (xs ++ ys) ≡ (contains h xs || contains h ys)
unfolding contains
contains-append h [] ys = ground arith
contains-append h (x ∷ xs) ys = ground (arith, contains-append h xs ys)

pub contains-hashes_of :
    (h k : Hash) (n : ℕ) (es : List CausalEntry)
    → contains h (hashes_of (es ++ record { hash = k; round = n } ∷ []))
      ≡ (contains h (hashes_of es) || bytes_eq h k)
unfolding contains
contains-hashes_of h k n [] = ground arith
contains-hashes_of h k n (e ∷ es) = ground (arith, contains-hashes_of h k n es)

contains-insert_entry :
    (h : Hash) (e : CausalEntry) (es : List CausalEntry)
    → contains h (hashes_of (insert_entry e es)) ≡ (bytes_eq h e.hash || contains h (hashes_of es))
unfolding insert_entry contains
contains-insert_entry h e [] = ground arith
contains-insert_entry h e (x ∷ es) = ground (arith, contains-insert_entry h e es)

pub contains-sort_entries :
    (h : Hash) (es : List CausalEntry)
    → contains h (hashes_of (sort_entries es)) ≡ contains h (hashes_of es)
unfolding sort_entries contains
contains-sort_entries h [] = ground arith
contains-sort_entries h (e ∷ es) =
    ground (arith, contains-insert_entry h e (sort_entries es), contains-sort_entries h es)

module _ (s : Store) where
  -- A stored vertex that no batch has folded in and that is above the commit floor.
  pub record IsLive (h : Hash) : Type 0 where
    pub vertex : Vertex
    pub found : s.vertices h ≡ some vertex
    pub fresh : s.committed h ≡ false
    pub above : below_commit_floor vertex.round s ≡ false

  pub data Ancestor (anchor : Hash) : Hash → Type 0 where
    root : IsLive anchor → Ancestor anchor anchor
    parent :
        {h p : Hash}
        → Ancestor anchor h
        → (x : Vertex) → s.vertices h ≡ some x
        → contains p x.parents ≡ true
        → IsLive p
        → Ancestor anchor p

  -- What is to be said of a hash in the queue: it is the anchor, or a parent of a live ancestor.
  abbrev Reached : Hash → Hash → Type 0
  Reached anchor h = IsLive h → Ancestor anchor h

  pub collect_causal_sound :
      (anchor : Hash) (fuel : ℕ) (queue seen : List Hash) (entries : List CausalEntry)
      {es : List CausalEntry}
      → ((h : Hash) → contains h queue ≡ true → Reached anchor h)
      → ((h : Hash) → contains h (hashes_of entries) ≡ true → Ancestor anchor h)
      → collect_causal fuel s queue seen entries ≡ collected es
      → (h : Hash) → contains h (hashes_of es) ≡ true
      → Ancestor anchor h
  unfolding collect_causal contains
  collect_causal_sound anchor fuel [] seen entries {es} queued sound e h listed =
      sound h (ground (arith, e, listed))
  collect_causal_sound anchor zero (hash ∷ queue) seen entries {es} queued sound e h listed =
      absurd cc
  collect_causal_sound anchor (suc fuel) (hash ∷ queue) seen entries {es} queued sound e h listed =
      let rest : (k : Hash) → contains k queue ≡ true → Reached anchor k =
        λ k in_rest. queued k (ground (arith, in_rest)) in
      elim (Bool-cases (contains hash seen || s.committed hash)) [
        | inl skipped ↦
            collect_causal_sound anchor fuel queue seen entries rest sound
              (ground (arith, e, skipped)) h listed
        | inr fresh ↦ elim (Option-cases (s.vertices hash)) [
          | inl absent ↦ absurd (ground (arith, e, fresh, absent))
          | inr (x, there) ↦ elim (Bool-cases (below_commit_floor x.round s)) [
            | inl below ↦
                collect_causal_sound anchor fuel queue (hash ∷ seen) entries rest sound
                  (ground (arith, e, fresh, there, below)) h listed
            | inr above ↦
                let live : IsLive hash = record {
                  vertex = x;
                  found = there;
                  fresh = ground (arith, fresh);
                  above = above;
                } in
                let here : Ancestor anchor hash =
                  queued hash (ground (arith, bytes_eq_refl hash)) live in
                collect_causal_sound anchor fuel (queue ++ x.parents) (hash ∷ seen)
                  (entries ++ record { hash = hash; round = x.round } ∷ [])
                  (λ k in_queue. elim (Bool-cases (contains k queue)) [
                    | inl before ↦ rest k before
                    | inr new ↦ λ alive.
                        parent here x there
                          (ground (arith, in_queue, new, contains-append k queue x.parents)) alive
                  ])
                  (λ k in_entries. elim (Bool-cases (bytes_eq k hash)) [
                    | inl same ↦
                        subst (λ (y : Hash). Ancestor anchor y)
                          (ground (arith, same, bytes_eq_iff k hash)) here
                    | inr other ↦ sound k (
                        ground
                          (arith, in_entries, other, contains-hashes_of k hash x.round entries))
                  ])
                  (ground (arith, e, fresh, there, above)) h listed
          ]
        ]
      ]
