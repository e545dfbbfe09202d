-- ===== src/Decision/Scanning.antt =====
-- What the scan of a round passes, and the decision that it comes to.
use blue_pods.Prelude.{
  ℕ, zero, suc, ◌+◌, ◌-◌, ◌≤◌, ◌<◌, ◌≡◌, ◌≢◌, ◌⊎◌, refl, subst, leb, true, false, ◌==◌, List, arith,
  Bool-cases, inl, inr,
}
use blue_pods.Types.{Hash}
use blue_pods.Word.{add64}
use blue_pods.Anchor.{
  AnchorVerdict, verdict_wait, verdict_undecided, verdict_certified, verdict_blamed,
}
use blue_pods.Rounds.{Dag}
use blue_pods.Decision.{
  AnchorDecision, anchor_wait, anchor_commit, anchor_skip, direct_anchor_verdict,
  cert_impossibility, adjacent_certify_agrees, scan_past_undecided, resolve_indirect, scan,
  anchor_status,
}

Verdict-cases :
    (w : AnchorVerdict)
    → (w ≡ verdict_wait)
      ⊎ (w ≡ verdict_undecided)
      ⊎ ((v : Hash) × (w ≡ verdict_certified v))
      ⊎ (w ≡ verdict_blamed)
Verdict-cases verdict_wait = inl refl
Verdict-cases verdict_undecided = inr (inl refl)
Verdict-cases (verdict_certified v) = inr (inr (inl (v, refl)))
Verdict-cases verdict_blamed = inr (inr (inr refl))

module _ (blake3 : List ℕ → List ℕ) (d : Dag) (round : ℕ) where
  -- A later round that cannot resolve the queried one otherwise: it is blamed, or undecided and never
  -- certified, by blame, or above the next round, or in agreement with what it would resolve.
  abbrev IsPassed : ℕ → Type 0
  IsPassed r =
      (direct_anchor_verdict blake3 r d ≡ verdict_blamed)
      ⊎ ((direct_anchor_verdict blake3 r d ≡ verdict_undecided)
          × ((cert_impossibility blake3 r d).0 ≡ true)
          × (((cert_impossibility blake3 r d).1 ≡ true)
              ⊎ (r ≢ add64 round 1)
              ⊎ (adjacent_certify_agrees blake3 round r d ≡ true)))

  -- The first later round that is certified, every round before it passed.
  pub record IsResolved (decision : AnchorDecision) : Type 0 where
    pub later : ℕ
    pub resolver : Hash
    pub after : round < later
    pub within : later ≤ d.store.latest_round
    pub certified : direct_anchor_verdict blake3 later d ≡ verdict_certified resolver
    pub passed : (r : ℕ) → round < r → r < later → IsPassed r
    pub resolves : resolve_indirect blake3 round resolver d ≡ decision

  pass_lem :
      (r : ℕ)
      → direct_anchor_verdict blake3 r d ≡ verdict_undecided
      → (scan_past_undecided blake3 round r d).1 ≡ true
      → IsPassed r
  unfolding scan_past_undecided
  pass_lem r undecided pass = ground (arith, undecided, pass)

  stop_lem :
      (r : ℕ)
      → (scan_past_undecided blake3 round r d).1 ≡ false
      → (scan_past_undecided blake3 round r d).0 ≡ anchor_wait
  unfolding scan_past_undecided
  stop_lem r stopped = ground (arith, stopped)

  IsPassed-suc :
      (r : ℕ)
      → ((q : ℕ) → round < q → q < r → IsPassed q)
      → IsPassed r
      → (q : ℕ) → round < q
      → q < suc r
      → IsPassed q
  IsPassed-suc r before here q above below = elim (Bool-cases (q == r)) [
    | inl same ↦ subst IsPassed (ground (arith, same)) here
    | inr other ↦ before q above (ground (arith, other, below))
  ]

  scan_later :
      (rounds r : ℕ) (decision : AnchorDecision)
      → rounds + r ≡ suc d.store.latest_round
      → round < r
      → ((q : ℕ) → round < q → q < r → IsPassed q)
      → scan blake3 rounds round r d ≡ decision
      → decision ≢ anchor_wait
      → IsResolved decision
  unfolding scan
  scan_later zero r decision end above before e decided = absurd (decided (ground (arith, e)))
  scan_later (suc rounds) r decision end above before e decided =
      let later : (r == round) ≡ false = ground (arith, above) in
      let next : IsPassed r → scan blake3 rounds round (suc r) d ≡ decision → IsResolved decision =
        λ here e'.
          scan_later rounds (suc r) decision (omega (arith, end)) (omega (arith, above))
            (IsPassed-suc r before here) e' decided in
      elim (Verdict-cases (direct_anchor_verdict blake3 r d)) [
        | inl waits ↦ absurd (decided (ground (arith, e, waits)))
        | inr (inl undecided) ↦ elim (Bool-cases (scan_past_undecided blake3 round r d).1) [
          | inl pass ↦ next (pass_lem r undecided pass) (ground (arith, e, undecided, later, pass))
          | inr stopped ↦
              absurd (decided (ground (arith, e, undecided, later, stopped, stop_lem r stopped)))
        ]
        | inr (inr (inl (v, certified))) ↦ record {
          later = r;
          resolver = v;
          after = above;
          within = omega (arith, end);
          certified = certified;
          passed = before;
          resolves = ground (arith, e, certified, later);
        }
        | inr (inr (inr blamed)) ↦ next (inl blamed) (ground (arith, e, blamed, later))
      ]

  none_between : (q : ℕ) → round < q → q < suc round → IsPassed q
  none_between q above below = absurd (omega (arith, above, below))

  -- A round that the rule does not let wait is committed to the vertex that its citations certify, is
  -- skipped when they blame it, or, when they do neither, is resolved by the first later certified
  -- round up to the latest stored one. Every round between is blamed, or undecided and impossible to
  -- certify: by blame, or not next to the round, or such that certifying it would agree.
  pub anchor_status_lem :
      (decision : AnchorDecision)
      → anchor_status blake3 round d ≡ decision
      → decision ≢ anchor_wait
      → ((v : Hash) × (direct_anchor_verdict blake3 round d ≡ verdict_certified v)
          × (decision ≡ anchor_commit v))
        ⊎ ((direct_anchor_verdict blake3 round d ≡ verdict_blamed) × (decision ≡ anchor_skip))
        ⊎ ((direct_anchor_verdict blake3 round d ≡ verdict_undecided) × IsResolved decision)
  unfolding anchor_status scan
  anchor_status_lem decision e decided = elim (Bool-cases (leb round d.store.latest_round)) [
    | inr over ↦
        let rounds : suc d.store.latest_round - round ≡ 0 = ground (arith, over) in
        absurd (decided (ground (arith, e, rounds)))
    | inl within ↦
        let rounds : suc d.store.latest_round - round ≡ suc (d.store.latest_round - round) =
          ground (arith, within) in
        elim (Verdict-cases (direct_anchor_verdict blake3 round d)) [
          | inl waits ↦ absurd (decided (ground (arith, e, rounds, waits)))
          | inr (inl undecided) ↦ inr (
              inr (
                undecided,
                scan_later (d.store.latest_round - round) (suc round) decision
                    (ground (arith, within)) (omega arith) none_between
                    (ground (arith, e, rounds, undecided)) decided,
              ))
          | inr (inr (inl (v, certified))) ↦
              inl (v, certified, ground (arith, e, rounds, certified))
          | inr (inr (inr blamed)) ↦ inr (inl (blamed, ground (arith, e, rounds, blamed)))
        ]
  ]
