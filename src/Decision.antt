-- ===== src/Decision.antt =====
-- The decision on a round's anchor (internal/consensus/anchor_decision.go). BLAKE3 is a parameter.
pub mod Scanning
pub mod Ruling
pub mod Resolving
pub mod Tests
use blue_pods.Prelude.{
  ℕ, zero, suc, ◌+◌, ◌-◌, ◌/◌, ◌%◌, List, [], ◌∷◌, ◌++◌, Option, none, some, Bool, true, false,
  ◌&&◌, ◌||◌, not, ltb, leb, ◌==◌, if◌then◌else◌, length, map, take, get_elem?,
}
use blue_pods.Types.{Hash, contains}
use blue_pods.Word.{add64}
use blue_pods.Stake.{capped_stake_of, quorum_reached}
use blue_pods.Anchor.{
  Store, get_by_round_producer, producers_in_range, AnchorVerdict, verdict_wait, verdict_undecided,
  verdict_certified, verdict_blamed, tally_citations, verdict_from_tally,
}
use blue_pods.Causal.{causal_batch}
use blue_pods.Rounds.{Holders, Dag, round_is_relaxed, citing_holders, anchor_producer_for}

pub data AnchorDecision : Type 0 where
  anchor_wait : AnchorDecision
  anchor_commit : Hash → AnchorDecision
  anchor_skip : AnchorDecision

abbrev union : List Hash → List Hash → List Hash
union a b = a ++ b

abbrev anchor_silence_span_rounds : ℕ
anchor_silence_span_rounds = 20

unfoldable silent_loop : Holders → List Hash → List Hash
silent_loop [] seen = []
silent_loop (v ∷ vs) seen =
    let rest = silent_loop vs seen in if contains v.pubkey seen then rest else v.pubkey ∷ rest

unfoldable silent_holders : Holders → ℕ → Store → List Hash
silent_holders set frontier s =
    let horizon = add64 frontier anchor_silence_span_rounds in
    if ltb s.latest_round horizon
    then []
    else silent_loop set (producers_in_range frontier horizon s)

-- The difference is not negative, as the capped sum never passes the total.
unfoldable certification_ruled_out : ℕ → Holders → List Hash → Bool
certification_ruled_out cap_mille set non_supporters =
    let (non_support, total) = capped_stake_of cap_mille set (λ p. contains p non_supporters) in
    if total == 0 then false else not (quorum_reached (total - non_support) total)

unfoldable cites_loop : List Hash → List Hash → Bool
cites_loop [] candidates = false
cites_loop (parent ∷ parents) candidates =
    contains parent candidates || cites_loop parents candidates

unfoldable vertex_cites_candidate : Hash → List Hash → Store → Bool
vertex_cites_candidate hash candidates s = elim (s.vertices hash) [
  | none ↦ false
  | some vertex ↦ cites_loop vertex.parents candidates
]

unfoldable all_cite : List Hash → List Hash → Store → Bool
all_cite [] candidates s = true
all_cite (hash ∷ hashes) candidates s =
    if not (vertex_cites_candidate hash candidates s) then false else all_cite hashes candidates s

-- Whether a holder is neither a blamer nor silent.
unfoldable supporter_loop : Holders → List Hash → List Hash → Bool
supporter_loop [] blamers silent = false
supporter_loop (v ∷ vs) blamers silent =
    if not (contains v.pubkey blamers) && not (contains v.pubkey silent)
    then true
    else supporter_loop vs blamers silent

unfoldable decide_membership : List Hash → List Hash → AnchorDecision
decide_membership [] history = anchor_skip
decide_membership (c ∷ candidates) history =
    let rest = decide_membership candidates history in
    if contains c history then anchor_commit c else rest

-- A skip that a relaxed supporter could still overturn is a wait.
unfoldable unless_supported : AnchorDecision → Bool → AnchorDecision
unless_supported anchor_wait possible = anchor_wait
unless_supported (anchor_commit v) possible = anchor_commit v
unless_supported anchor_skip possible = if possible then anchor_wait else anchor_skip

module _ (blake3 : List ℕ → List ℕ) where
  unfoldable direct_anchor_verdict : ℕ → Dag → AnchorVerdict
  direct_anchor_verdict round d = elim (anchor_producer_for blake3 round d) [
    | none ↦ verdict_wait
    | some producer ↦ elim (citing_holders round d) [
      | none ↦ verdict_wait
      | some set ↦
          verdict_from_tally d.voting_cap_mille set (tally_citations round producer d.store)
            (round_is_relaxed round d)
    ]
  ]

  unfoldable dead_designated_producer : ℕ → Dag → Bool
  dead_designated_producer round d = elim (anchor_producer_for blake3 round d) [
    | none ↦ false
    | some producer ↦ elim (citing_holders round d) [
      | none ↦ false
      | some set ↦
          if not (length (get_by_round_producer round producer d.store) == 0)
          then false
          else contains producer (silent_holders set (add64 round 1) d.store)
    ]
  ]

  unfoldable cert_impossibility : ℕ → Dag → Bool × Bool
  cert_impossibility round d =
      if dead_designated_producer round d
      then (true, false)
      else if round_is_relaxed round d
      then (false, false)
      else elim (anchor_producer_for blake3 round d) [
        | none ↦ (false, false)
        | some producer ↦ elim (citing_holders round d) [
          | none ↦ (false, false)
          | some set ↦
              let blamers = (tally_citations round producer d.store).blamers in
              let silent = silent_holders set (add64 round 1) d.store in
              if certification_ruled_out d.voting_cap_mille set blamers
              then (true, true)
              else if length silent == 0
              then (false, false)
              else if certification_ruled_out d.voting_cap_mille set (union blamers silent)
              then (true, false)
              else (false, false)
        ]
      ]

  -- `none` when the producer is unresolved or holds no vertex.
  unfoldable designated_round_vertices : ℕ → Dag → Option (List Hash)
  designated_round_vertices round d = elim (anchor_producer_for blake3 round d) [
    | none ↦ none
    | some producer ↦
        let hashes = get_by_round_producer round producer d.store in
        if length hashes == 0 then none else some hashes
  ]

  unfoldable adjacent_certify_agrees : ℕ → ℕ → Dag → Bool
  adjacent_certify_agrees round r d =
      if dead_designated_producer round d then true else elim (anchor_producer_for blake3 round d) [
        | none ↦ false
        | some producer ↦
            let candidates = get_by_round_producer round producer d.store in
            if not (length candidates == 1) then false else elim (designated_round_vertices r d) [
              | none ↦ false
              | some vertices ↦ all_cite vertices candidates d.store
            ]
      ]

  -- With the decision when the scan may not go on, which is to wait.
  unfoldable scan_past_undecided : ℕ → ℕ → Dag → AnchorDecision × Bool
  scan_past_undecided round r d =
      let (impossible, by_blame) = cert_impossibility r d in
      if not impossible
      then (anchor_wait, false)
      else if not by_blame && (r == add64 round 1) && not (adjacent_certify_agrees round r d)
      then (anchor_wait, false)
      else (anchor_wait, true)

  unfoldable relaxed_supporter_still_possible : ℕ → Hash → Dag → Bool
  relaxed_supporter_still_possible round producer d = elim (citing_holders round d) [
    | none ↦ false
    | some set ↦
        supporter_loop set (tally_citations round producer d.store).blamers
          (silent_holders set (add64 round 1) d.store)
  ]

  unfoldable resolve_indirect : ℕ → Hash → Dag → AnchorDecision
  resolve_indirect round certified d = elim (anchor_producer_for blake3 round d) [
    | none ↦ anchor_wait
    | some producer ↦
        let candidates = get_by_round_producer round producer d.store in
        if length candidates == 0
        then (if round_is_relaxed round d && not (dead_designated_producer round d)
            then anchor_wait
            else anchor_skip)
        else elim (causal_batch certified d.store) [
          | none ↦ anchor_wait
          | some history ↦
              unless_supported (decide_membership candidates history)
                (round_is_relaxed round d && relaxed_supporter_still_possible round producer d)
        ]
  ]

  -- The loop over a number of rounds from `r`.
  unfoldable scan : ℕ → ℕ → ℕ → Dag → AnchorDecision
  scan zero round r d = anchor_wait
  scan (suc rounds) round r d = elim (direct_anchor_verdict r d) [
    | verdict_certified vertex ↦
        if r == round then anchor_commit vertex else resolve_indirect round vertex d
    | verdict_blamed ↦ elim (r == round) [
      | true ↦ anchor_skip
      | false ↦ scan rounds round (suc r) d
    ]
    | verdict_undecided ↦ elim (r == round) [
      | true ↦ scan rounds round (suc r) d
      | false ↦ elim (scan_past_undecided round r d).1 [
        | true ↦ scan rounds round (suc r) d
        | false ↦ (scan_past_undecided round r d).0
      ]
    ]
    | verdict_wait ↦ anchor_wait
  ]

  unfoldable anchor_status : ℕ → Dag → AnchorDecision
  anchor_status round d = scan (suc d.store.latest_round - round) round round d
