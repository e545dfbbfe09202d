-- ===== src/Causal/Order.antt =====
-- A batch lists parents before the vertices that cite them.
use blue_pods.Prelude.{
  ℕ, zero, suc, ◌≤◌, ◌<◌, ◌≡◌, refl, List, [], ◌∷◌, ◌++◌, some, true, ◌||◌, arith, Bool-cases,
  Option-cases, inl, inr, subst, All, All-append, get_elem?, get_elem?-map_inv, leb, map, ap,
}
use blue_pods.Types.{Hash, contains}
use blue_pods.Anchor.{Vertex, Store}
use blue_pods.Causal.{
  CausalEntry, collected, below_commit_floor, collect_causal, walk_fuel, entry_less, insert_entry,
  sort_entries, causal_batch,
}
use blue_pods.Causal.Closure.{Walk-cases}

All-get :
    (P : CausalEntry → Type 0) (es : List CausalEntry) (i : ℕ) {e : CausalEntry}
    → All P es
    → get_elem? es i ≡ some e
    → P e
All-get P [] i all there = absurd cc
All-get P (x ∷ es) zero {e} all there =
    let same : x ≡ e = ground (arith, there) in subst P same all.0
All-get P (x ∷ es) (suc i) all there = All-get P es i all.1 there

All-insert_entry :
    (P : CausalEntry → Type 0) (e : CausalEntry) (es : List CausalEntry)
    → P e
    → All P es
    → All P (insert_entry e es)
unfolding insert_entry
All-insert_entry P e [] one all = (one, all)
All-insert_entry P e (x ∷ es) one all = elim (Bool-cases (entry_less e x)) [
  | inl less ↦ rw (less) (one, all)
  | inr more ↦ rw (more) (all.0, All-insert_entry P e es one all.1)
]

All-sort_entries :
    (P : CausalEntry → Type 0) (es : List CausalEntry) → All P es → All P (sort_entries es)
unfolding sort_entries
All-sort_entries P [] all = all
All-sort_entries P (e ∷ es) all =
    All-insert_entry P e (sort_entries es) all.0 (All-sort_entries P es all.1)

abbrev IsAscending : List CausalEntry → Type 0
IsAscending [] = Unit
IsAscending (e ∷ es) = All (λ (x : CausalEntry). e.round ≤ x.round) es × IsAscending es

weaken-All :
    (m n : ℕ) (es : List CausalEntry)
    → m ≤ n
    → All (λ (x : CausalEntry). n ≤ x.round) es
    → All (λ (x : CausalEntry). m ≤ x.round) es
weaken-All m n [] le all = all
weaken-All m n (e ∷ es) le all = (omega (arith, le, all.0), weaken-All m n es le all.1)

insert_entry-IsAscending :
    (e : CausalEntry) (es : List CausalEntry) → IsAscending es → IsAscending (insert_entry e es)
unfolding insert_entry entry_less
insert_entry-IsAscending e [] up = (tt, tt)
insert_entry-IsAscending e (x ∷ es) up = elim (Bool-cases (entry_less e x)) [
  | inl less ↦
      let le : e.round ≤ x.round = ground (arith, less) in
      rw (less) ((le, weaken-All e.round x.round es le up.0), up)
  | inr more ↦
      let le : x.round ≤ e.round = ground (arith, more) in
      rw (more) (
        All-insert_entry (λ (z : CausalEntry). x.round ≤ z.round) e es le up.0,
        insert_entry-IsAscending e es up.1,
      )
]

sort_entries-IsAscending : (es : List CausalEntry) → IsAscending (sort_entries es)
unfolding sort_entries
sort_entries-IsAscending [] = tt
sort_entries-IsAscending (e ∷ es) =
    insert_entry-IsAscending e (sort_entries es) (sort_entries-IsAscending es)

ascending_at :
    (es : List CausalEntry) (i j : ℕ) {a b : CausalEntry}
    → IsAscending es
    → get_elem? es i ≡ some a
    → get_elem? es j ≡ some b
    → i ≤ j
    → a.round ≤ b.round
ascending_at [] i j up ea eb le = absurd cc
ascending_at (x ∷ es) zero zero {a} {b} up ea eb le = ground (arith, ea, eb)
ascending_at (x ∷ es) zero (suc j) {a} {b} up ea eb le =
    let low = All-get (λ (z : CausalEntry). x.round ≤ z.round) es j up.0 eb in
    ground (arith, ea, low)
ascending_at (x ∷ es) (suc i) zero up ea eb le = absurd (omega (arith, le))
ascending_at (x ∷ es) (suc i) (suc j) up ea eb le =
    ascending_at es i j up.1 ea eb (omega (arith, le))

module _ (s : Store) where
  -- An entry has the round of its vertex.
  abbrev IsRecorded : CausalEntry → Type 0
  IsRecorded e = (x : Vertex) × (s.vertices e.hash ≡ some x) × (x.round ≡ e.round)

  collect_causal-IsRecorded :
      (fuel : ℕ) (queue seen : List Hash) (entries : List CausalEntry) {es : List CausalEntry}
      → All IsRecorded entries
      → collect_causal fuel s queue seen entries ≡ collected es
      → All IsRecorded es
  unfolding collect_causal
  collect_causal-IsRecorded fuel [] seen entries {es} all e =
      let same : entries ≡ es = ground (arith, e) in subst (All IsRecorded) same all
  collect_causal-IsRecorded zero (hash ∷ queue) seen entries all e = absurd cc
  collect_causal-IsRecorded (suc fuel) (hash ∷ queue) seen entries all e =
      elim (Bool-cases (contains hash seen || s.committed hash)) [
        | inl skipped ↦
            collect_causal-IsRecorded fuel queue seen entries all (ground (arith, e, skipped))
        | inr fresh ↦ elim (Option-cases (s.vertices hash)) [
          | inl absent ↦ absurd (ground (arith, e, fresh, absent))
          | inr (x, there) ↦ elim (Bool-cases (below_commit_floor x.round s)) [
            | inl below ↦
                collect_causal-IsRecorded fuel queue (hash ∷ seen) entries all
                  (ground (arith, e, fresh, there, below))
            | inr above ↦
                collect_causal-IsRecorded fuel (queue ++ x.parents) (hash ∷ seen)
                  (entries ++ record { hash = hash; round = x.round } ∷ [])
                  (All-append IsRecorded entries (record { hash = hash; round = x.round } ∷ []) all
                    ((x, there, refl), tt))
                  (ground (arith, e, fresh, there, above))
          ]
        ]
      ]

  -- When a vertex's stored parents all have lower rounds than it, a batch that holds the vertex and one
  -- of its parents lists the parent at an earlier place.
  pub causal_batch_order :
      (anchor : Hash) (batch : List Hash) (h p : Hash) (x : Vertex) (i j : ℕ)
      → ((q : Hash) (y : Vertex)
          → s.vertices q ≡ some y
          → contains q x.parents ≡ true
          → y.round < x.round)
      → causal_batch anchor s ≡ some batch
      → s.vertices h ≡ some x
      → contains p x.parents ≡ true
      → get_elem? batch i ≡ some p
      → get_elem? batch j ≡ some h
      → i < j
  unfolding causal_batch
  causal_batch_order anchor batch h p x i j lower e there cited at_i at_j =
      elim (Walk-cases (collect_causal (walk_fuel s) s (anchor ∷ []) [] [])) [
        | inl spent ↦ absurd (ground (arith, e, spent))
        | inr (inl absent) ↦ absurd (ground (arith, e, absent))
        | inr (inr (es, walked)) ↦
            let sorted = sort_entries es in
            let same : batch ≡ map (λ (z : CausalEntry). z.hash) sorted =
              ground (arith, e, walked) in
            let recorded =
              All-sort_entries IsRecorded es
                (collect_causal-IsRecorded (walk_fuel s) (anchor ∷ []) [] [] tt walked) in
            let (a, place_a, hash_a) =
              get_elem?-map_inv (λ (z : CausalEntry). z.hash) sorted i
                (subst (λ (b : List Hash). get_elem? b i ≡ some p) same at_i) in
            let (b, place_b, hash_b) =
              get_elem?-map_inv (λ (z : CausalEntry). z.hash) sorted j
                (subst (λ (b : List Hash). get_elem? b j ≡ some h) same at_j) in
            let (y, found_a, round_a) = All-get IsRecorded sorted i recorded place_a in
            let (z, found_b, round_b) = All-get IsRecorded sorted j recorded place_b in
            let below =
              lower p y (subst (λ (k : Hash). s.vertices k ≡ some y) hash_a found_a) cited in
            let this : z ≡ x = ground (arith, found_b, hash_b, there) in
            let tops : z.round ≡ x.round = ap (λ (v : Vertex). v.round) this in
            elim (Bool-cases (leb j i)) [
              | inl late ↦
                  let up =
                    ascending_at sorted j i (sort_entries-IsAscending es) place_b place_a
                      (ground (arith, late)) in
                  absurd (omega (arith, up, below, tops, round_a, round_b))
              | inr early ↦ ground (arith, early)
            ]
      ]
