-- ===== src/Causal/Closure.antt =====
-- The batch is complete: every live ancestor of the anchor is in it.
use blue_pods.Prelude.{
  ◌≡◌, ◌⊎◌, ◌↔◌, refl, List, [], ◌∷◌, some, true, false, bytes_eq_iff, bytes_eq_refl, arith, inl,
  inr, subst,
}
use blue_pods.Types.{Hash, contains}
use blue_pods.Anchor.{Store}
use blue_pods.Causal.{
  CausalEntry, Walk, out_of_fuel, missing, collected, collect_causal, walk_fuel, sort_entries,
  causal_batch,
}
use blue_pods.Causal.Members.{
  hashes_of, contains-sort_entries, IsLive, Ancestor, root, parent, collect_causal_sound,
}
use blue_pods.Causal.Walks.{dead, IsWalk, IsClosed, collect_causal-IsClosed}

pub Walk-cases :
    (w : Walk) → (w ≡ out_of_fuel) ⊎ (w ≡ missing) ⊎ ((es : List CausalEntry) × (w ≡ collected es))
Walk-cases out_of_fuel = inl refl
Walk-cases missing = inr (inl refl)
Walk-cases (collected es) = inr (inr (es, refl))

module _ (s : Store) where
  live-dead : (h : Hash) → IsLive s h → dead s h ≡ false
  live-dead h live =
      let there = live.found in
      let up = live.above in let new = live.fresh in ground (arith, there, up, new)

  ancestor-listed :
      (anchor : Hash) (es : List CausalEntry)
      → IsClosed s (anchor ∷ []) [] es
      → (h : Hash) → Ancestor s anchor h
      → contains h (hashes_of es) ≡ true
  unfolding contains
  ancestor-listed anchor es c h (root live) =
      ground (arith, c.queue_done anchor, live-dead anchor live, bytes_eq_refl anchor)
  ancestor-listed anchor es c h (parent {h = k} up x there cited live) =
      ground
        (arith, c.closed k h x (ancestor-listed anchor es c k up) there cited, live-dead h live)

  only_root : (anchor k : Hash) → contains k (anchor ∷ []) ≡ true → IsLive s k → Ancestor s anchor k
  unfolding contains
  only_root anchor k queued live =
      let same : k ≡ anchor = ground (arith, queued, bytes_eq_iff k anchor) in
      subst (λ (y : Hash). Ancestor s y k) same (root live)

  none_collected :
      {anchor : Hash} (k : Hash) → contains k (hashes_of []) ≡ true → Ancestor s anchor k
  unfolding contains
  none_collected k none_there = absurd cc

  start-IsWalk : {anchor : Hash} → IsWalk s (anchor ∷ []) [] []
  unfolding contains
  start-IsWalk = record {
    seen_done = λ h none_there. absurd cc;
    parents_done = λ h p x none_there there up. absurd cc;
  }

  -- A batch holds exactly the live ancestors of its anchor: the stored vertices that are neither
  -- folded into an earlier batch nor at or below the commit floor, and that parent links through such
  -- vertices lead to from the anchor.
  pub causal_batch_lem :
      (anchor : Hash) (batch : List Hash) (h : Hash)
      → causal_batch anchor s ≡ some batch
      → (contains h batch ≡ true) ↔ Ancestor s anchor h
  unfolding causal_batch
  causal_batch_lem anchor batch h e =
      elim (Walk-cases (collect_causal (walk_fuel s) s (anchor ∷ []) [] [])) [
        | inl spent ↦ absurd (ground (arith, e, spent))
        | inr (inl absent) ↦ absurd (ground (arith, e, absent))
        | inr (inr (es, walked)) ↦
            let sorted : hashes_of (sort_entries es) ≡ batch = ground (arith, e, walked) in
            let same : contains h batch ≡ contains h (hashes_of es) =
              ground (arith, sorted, contains-sort_entries h es) in
            (
              λ listed.
                  collect_causal_sound s anchor (walk_fuel s) (anchor ∷ []) [] [] (only_root anchor)
                    none_collected walked h (ground (arith, same, listed)),
              λ up. ground (
                arith,
                same,
                ancestor-listed anchor es
                    (collect_causal-IsClosed s (walk_fuel s) (anchor ∷ []) [] [] start-IsWalk
                      walked)
                    h up,
              ),
            )
      ]
