-- ===== src/Causal/Ending.antt =====
-- The walk takes each stored vertex's parents once, so its fuel is enough.
use blue_pods.Prelude.{
  ℕ, zero, suc, ◌+◌, ◌≤◌, ◌≡◌, ◌≢◌, refl, List, [], ◌∷◌, ◌++◌, some, true, false, ◌||◌,
  if◌then◌else◌, length, bytes_eq, bytes_eq_iff, arith, Bool-cases, Option-cases, inl, inr,
  length-append,
}
use blue_pods.Types.{Hash, contains}
use blue_pods.Anchor.{Vertex, Store}
use blue_pods.Causal.{
  CausalEntry, out_of_fuel, below_commit_floor, collect_causal, parent_count, total_parents,
  walk_fuel,
}

-- The list of the stored hashes is complete.
abbrev pub IsIndexed : Store → Type 0
IsIndexed s =
    (hash : Hash) (vertex : Vertex) → s.vertices hash ≡ some vertex → contains hash s.stored ≡ true

module _ (s : Store) where
  -- The parents of the hashes that are not seen.
  abbrev left : List Hash → List Hash → ℕ
  left [] seen = 0
  left (hash ∷ hashes) seen =
      (if contains hash seen then 0 else parent_count hash s) + left hashes seen

  left_mono : (hash : Hash) (hashes seen : List Hash) → left hashes (hash ∷ seen) ≤ left hashes seen
  unfolding contains
  left_mono hash [] seen = omega arith
  left_mono hash (h ∷ hashes) seen = ground (arith, left_mono hash hashes seen)

  left_taken :
      (hash : Hash) (hashes seen : List Hash)
      → contains hash hashes ≡ true
      → contains hash seen ≡ false
      → left hashes (hash ∷ seen) + parent_count hash s ≤ left hashes seen
  unfolding contains
  left_taken hash [] seen known fresh = absurd cc
  left_taken hash (h ∷ hashes) seen known fresh = elim (Bool-cases (bytes_eq hash h)) [
    | inl same ↦ ground (
      arith,
      known,
      fresh,
      same,
      bytes_eq_iff hash h,
      bytes_eq_iff h hash,
      left_mono hash hashes seen,
    )
    | inr other ↦ ground (
      arith,
      known,
      fresh,
      other,
      bytes_eq_iff hash h,
      bytes_eq_iff h hash,
      left_taken hash hashes seen,
    )
  ]

  left-nil : (hashes : List Hash) → left hashes [] ≡ total_parents hashes s
  unfolding contains
  left-nil [] = refl
  left-nil (h ∷ hashes) = ground (arith, left-nil hashes)

  collect_causal_ends :
      IsIndexed s
      → (fuel : ℕ) (queue seen : List Hash) (entries : List CausalEntry)
      → length queue + left s.stored seen ≤ fuel
      → collect_causal fuel s queue seen entries ≢ out_of_fuel
  unfolding collect_causal
  collect_causal_ends indexed fuel [] seen entries enough = ground arith
  collect_causal_ends indexed zero (hash ∷ queue) seen entries enough = ground (arith, enough)
  collect_causal_ends indexed (suc fuel) (hash ∷ queue) seen entries enough =
      elim (Bool-cases (contains hash seen || s.committed hash)) [
        | inl skipped ↦ ground (
          arith,
          skipped,
          collect_causal_ends indexed fuel queue seen entries (ground (arith, enough)),
        )
        | inr fresh ↦ elim (Option-cases (s.vertices hash)) [
          | inl absent ↦ ground (arith, fresh, absent)
          | inr (x, there) ↦ elim (Bool-cases (below_commit_floor x.round s)) [
            | inl below ↦
                let room = left_mono hash s.stored seen in
                ground (
                  arith,
                  fresh,
                  there,
                  below,
                  collect_causal_ends indexed fuel queue (hash ∷ seen) entries
                      (ground (arith, enough, room)),
                )
            | inr live ↦
                let unseen : contains hash seen ≡ false = ground (arith, fresh) in
                let room = left_taken hash s.stored seen (indexed hash x there) unseen in
                let grown = length-append queue x.parents in
                ground (
                  arith,
                  fresh,
                  there,
                  live,
                  collect_causal_ends indexed fuel (queue ++ x.parents) (hash ∷ seen)
                      (entries ++ record { hash = hash; round = x.round } ∷ [])
                      (ground (arith, enough, room, grown, there)),
                )
          ]
        ]
      ]

  -- If every vertex of the store is listed, the walk from any hash ends within its fuel.
  pub collect_causal_lem :
      IsIndexed s
      → (anchor : Hash) → collect_causal (walk_fuel s) s (anchor ∷ []) [] [] ≢ out_of_fuel
  collect_causal_lem indexed anchor =
      collect_causal_ends indexed (walk_fuel s) (anchor ∷ []) [] []
        (ground (arith, left-nil s.stored))
