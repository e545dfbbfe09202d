-- ===== src/Decision/Ruling.antt =====
-- A round that is ruled out cannot be certified: the producers outside the non-supporters do not reach
-- the quorum, and neither does any tally in which the blamers stay blamers.
use blue_pods.Prelude.{
  ℕ, ◌-◌, ◌*◌, ◌≤◌, ◌≡◌, ◌≢◌, Bool, true, false, List, some, arith, Bool-cases, inl, inr,
}
use blue_pods.Types.{Hash, contains}
use blue_pods.Word.{u64_max, add64}
use blue_pods.Validators.{ValidatorInfo}
use blue_pods.Stake.{capped_stake_of, reaches_strict_quorum}
use blue_pods.Stake.Quorum.{
  capped_total, capped_stake_of_disjoint, capped_stake_of_total, quorum_sound, quorum_reached_iff,
}
use blue_pods.Anchor.{Store, set_of, verdict_certified, verdict_from_tally, tally_citations}
use blue_pods.Anchor.Tally.{cites, supporters-tally_citations}
use blue_pods.Anchor.Exclusion.{certified_quorum}
use blue_pods.Rounds.{Dag, anchor_producer_for, citing_holders}
use blue_pods.Decision.{certification_ruled_out, cert_impossibility}

-- If a set with non-supporters is ruled out, then producers of which none is a non-supporter do not
-- reach the strict quorum; three times the capped total fits in 64 bits.
pub certification_ruled_out_lem :
    (cap_mille : ℕ) (set : List ValidatorInfo) (non_supporters : List Hash) (p : Hash → Bool)
    → 3 * capped_total cap_mille set ≤ u64_max
    → certification_ruled_out cap_mille set non_supporters ≡ true
    → ((h : Hash) → p h ≡ true → contains h non_supporters ≡ false)
    → reaches_strict_quorum cap_mille set p ≡ false
unfolding certification_ruled_out
certification_ruled_out_lem cap_mille set non_supporters p fits ruled apart =
    let against : Hash → Bool = λ h. contains h non_supporters in
    let room = capped_stake_of_disjoint cap_mille set p against fits apart in
    let same = capped_stake_of_total cap_mille set against in
    let left =
      (capped_stake_of cap_mille set against).1 - (capped_stake_of cap_mille set against).0 in
    elim (Bool-cases (reaches_strict_quorum cap_mille set p)) [
      | inl reached ↦ absurd (
          ground (
            arith,
            ruled,
            room,
            same,
            quorum_sound cap_mille set p fits reached,
            quorum_reached_iff left (capped_total cap_mille set),
          ))
      | inr missed ↦ missed
    ]

module _ (blake3 : List ℕ → List ℕ) (round : ℕ) (d : Dag) (producer : Hash)
    (set : List ValidatorInfo) where
  blame_rules_out :
      anchor_producer_for blake3 round d ≡ some producer
      → citing_holders round d ≡ some set
      → cert_impossibility blake3 round d ≡ (true, true)
      → certification_ruled_out d.voting_cap_mille set
          (tally_citations round producer d.store).blamers
        ≡ true
  unfolding cert_impossibility
  blame_rules_out designated holders impossible = ground (arith, designated, holders, impossible)

  -- If a round is impossible by blame in one state, then no view in which the blamers of that state
  -- still do not cite a vertex certifies it strictly, with the same holders and designated producer;
  -- three times the capped total fits in 64 bits.
  pub cert_impossibility_lem :
      (s : Store) (v : Hash)
      → anchor_producer_for blake3 round d ≡ some producer
      → citing_holders round d ≡ some set
      → 3 * capped_total d.voting_cap_mille set ≤ u64_max
      → cert_impossibility blake3 round d ≡ (true, true)
      → ((p : Hash)
          → contains p (tally_citations round producer d.store).blamers ≡ true
          → cites p v (s.by_round (add64 round 1)) s ≡ false)
      → verdict_from_tally d.voting_cap_mille set (tally_citations round producer s) false
        ≢ verdict_certified v
  cert_impossibility_lem s v designated holders fits impossible still certified =
      let blamers = (tally_citations round producer d.store).blamers in
      let tally = tally_citations round producer s in
      let missed =
        certification_ruled_out_lem d.voting_cap_mille set blamers
          (λ p. contains p (set_of v tally.supporters)) fits
          (blame_rules_out designated holders impossible)
          (λ p for. elim (Bool-cases (contains p blamers)) [
            | inl against ↦ absurd (
                ground
                  (arith, for, against, still p, supporters-tally_citations round producer s p v))
            | inr other ↦ other
          ]) in
      absurd (ground (arith, missed, certified_quorum d.voting_cap_mille set tally v certified))
