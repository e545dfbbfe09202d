-- ===== src/Anchor/Exclusion.antt =====
-- Two nodes' verdicts on one round agree, unless producers with a third of the capped stake cited
-- differently in the two views.
use blue_pods.Prelude.{
  ℕ, ◌*◌, ◌≤◌, ◌<◌, ◌≡◌, List, [], ◌∷◌, some, Bool, true, false, ◌&&◌, not, if◌then◌else◌, arith,
  Bool-cases, Option-cases, inl, inr, subst,
}
use blue_pods.Types.{Hash, contains}
use blue_pods.Word.{u64_max, add64}
use blue_pods.Validators.{ValidatorInfo}
use blue_pods.Stake.{capped_stake_of, reaches_strict_quorum}
use blue_pods.Stake.Quorum.{capped_total, quorum_intersection, capped_stake_of_mono}
use blue_pods.Dict.{Dict, sort_hashes}
use blue_pods.Anchor.{
  Store, CitationTally, set_of, certifies, first_certified, verdict_certified, verdict_blamed,
  verdict_from_tally, tally_citations,
}
use blue_pods.Anchor.Tally.{
  produces, cites, candidates_of, supporters-tally_citations, blamers-tally_citations,
}

module _ (cap_mille : ℕ) (set : List ValidatorInfo) where
  first_certified_lem :
      (supporters : Dict (List Hash)) (vs : List Hash) {v : Hash}
      → first_certified cap_mille set supporters false vs ≡ some v
      → reaches_strict_quorum cap_mille set (λ p. contains p (set_of v supporters)) ≡ true
  unfolding first_certified certifies
  first_certified_lem supporters [] e = absurd cc
  first_certified_lem supporters (w ∷ vs) {v} e =
      elim (Bool-cases
        (reaches_strict_quorum cap_mille set (λ p. contains p (set_of w supporters)))) [
          | inl here ↦
              let same : w ≡ v = ground (arith, e, here) in
              subst
                (λ (x : Hash).
                  reaches_strict_quorum cap_mille set (λ p. contains p (set_of x supporters))
                  ≡ true)
                same here
          | inr below ↦ first_certified_lem supporters vs (ground (arith, e, below))
        ]

  pub certified_quorum :
      (t : CitationTally) (v : Hash)
      → verdict_from_tally cap_mille set t false ≡ verdict_certified v
      → reaches_strict_quorum cap_mille set (λ p. contains p (set_of v t.supporters)) ≡ true
  unfolding verdict_from_tally
  certified_quorum t v e =
      elim (Option-cases
        (first_certified cap_mille set t.supporters false (sort_hashes t.supporters.keys))) [
          | inl missing ↦ absurd (ground (arith, e, missing))
          | inr (w, found) ↦
              first_certified_lem t.supporters (sort_hashes t.supporters.keys)
                (ground (arith, e, found))
        ]

  blamed_quorum :
      (t : CitationTally)
      → verdict_from_tally cap_mille set t false ≡ verdict_blamed
      → reaches_strict_quorum cap_mille set (λ p. contains p t.blamers) ≡ true
  unfolding verdict_from_tally
  blamed_quorum t e =
      elim (Option-cases
        (first_certified cap_mille set t.supporters false (sort_hashes t.supporters.keys))) [
          | inl missing ↦ ground (arith, e, missing)
          | inr (w, found) ↦ absurd (ground (arith, e, found))
        ]

module _ (cap_mille : ℕ) (set : List ValidatorInfo) (round : ℕ) (producer : Hash)
    (s1 s2 : Store) where
  -- The producers whose vertices of the next round cite `v` in the first view, and that have a vertex
  -- of that round in the second view but none that cites `v`.
  abbrev pub changed_vote : Hash → Hash → Bool
  changed_vote v p =
      cites p v (s1.by_round (add64 round 1)) s1
      && produces p (s2.by_round (add64 round 1)) s2
      && not (cites p v (s2.by_round (add64 round 1)) s2)

  abbrev cited_both : Hash → Hash → Hash → Bool
  cited_both v w p =
      cites p v (s1.by_round (add64 round 1)) s1 && cites p w (s2.by_round (add64 round 1)) s2

  abbrev supports : Store → Hash → Hash → Bool
  supports s v p = contains p (set_of v (tally_citations round producer s).supporters)

  abbrev blames : Hash → Bool
  blames p = contains p (tally_citations round producer s2).blamers

  both-changed_vote :
      (v : Hash)
      → contains v (candidates_of round producer s2) ≡ true
      → (p : Hash) → (if supports s1 v p then blames p else false) ≡ true
      → changed_vote v p ≡ true
  both-changed_vote v known p e = elim (Bool-cases (supports s1 v p)) [
    | inl for ↦
        let against : blames p ≡ true = ground (arith, e, for) in
        ground (
          arith,
          for,
          supporters-tally_citations round producer s1 p v,
          blamers-tally_citations round producer s2 p v against known,
        )
    | inr other ↦ absurd (ground (arith, e, other))
  ]

  both-cited_both :
      (v w p : Hash)
      → (if supports s1 v p then supports s2 w p else false) ≡ true
      → cited_both v w p ≡ true
  both-cited_both v w p e = ground (
    arith,
    e,
    supporters-tally_citations round producer s1 p v,
    supporters-tally_citations round producer s2 p w,
  )

  -- Under the strict quorum, if the tally of one view certifies a vertex and the tally of another view
  -- that holds this vertex blames its producer, then producers with at least a third of the capped
  -- stake cite the vertex in the first view and have, in the second, a vertex of that round but none
  -- that cites it. The capped total is positive, and three times it fits in 64 bits.
  pub certified-blamed :
      (v : Hash)
      → 3 * capped_total cap_mille set ≤ u64_max
      → contains v (candidates_of round producer s2) ≡ true
      → verdict_from_tally cap_mille set (tally_citations round producer s1) false
        ≡ verdict_certified v
      → verdict_from_tally cap_mille set (tally_citations round producer s2) false ≡ verdict_blamed
      → (0 < capped_total cap_mille set)
        × (capped_total cap_mille set ≤ 3 * (capped_stake_of cap_mille set (changed_vote v)).0)
  certified-blamed v fits known certified blamed =
      let t1 = tally_citations round producer s1 in
      let t2 = tally_citations round producer s2 in
      omega (
        arith,
        quorum_intersection cap_mille set (supports s1 v) blames fits
            (certified_quorum cap_mille set t1 v certified) (blamed_quorum cap_mille set t2 blamed),
        capped_stake_of_mono cap_mille set (λ p. if supports s1 v p then blames p else false)
            (changed_vote v) (both-changed_vote v known),
      )

  -- Under the strict quorum, if the tallies of two views each certify a vertex of the round's
  -- producer, then producers with at least a third of the capped stake cite the first vertex in the
  -- first view and the second in the second. The capped total is positive, and three times it fits
  -- in 64 bits.
  certified-certified :
      (v w : Hash)
      → 3 * capped_total cap_mille set ≤ u64_max
      → verdict_from_tally cap_mille set (tally_citations round producer s1) false
        ≡ verdict_certified v
      → verdict_from_tally cap_mille set (tally_citations round producer s2) false
        ≡ verdict_certified w
      → (0 < capped_total cap_mille set)
        × (capped_total cap_mille set ≤ 3 * (capped_stake_of cap_mille set (cited_both v w)).0)
  certified-certified v w fits first second =
      let t1 = tally_citations round producer s1 in
      let t2 = tally_citations round producer s2 in
      omega (
        arith,
        quorum_intersection cap_mille set (supports s1 v) (supports s2 w) fits
            (certified_quorum cap_mille set t1 v first)
            (certified_quorum cap_mille set t2 w second),
        capped_stake_of_mono cap_mille set (λ p. if supports s1 v p then supports s2 w p else false)
            (cited_both v w) (both-cited_both v w),
      )
