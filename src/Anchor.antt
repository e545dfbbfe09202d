-- ===== src/Anchor.antt =====
-- The direct verdict on an anchor: the citations of internal/consensus/anchor_decision.go over the
-- vertex indexes of store.go. The holder snapshot of a round and its designated producer are those
-- of the epoch mirror (epoch.go, eligible.go); BLAKE3 is a parameter. A set of hashes is a list.
pub mod Tally
pub mod Exclusion
pub mod Tests
use blue_pods.Prelude.{
  ℕ, zero, suc, ◌+◌, ◌-◌, ◌*◌, ◌/◌, ◌%◌, ◌^◌, List, [], ◌∷◌, ◌++◌, Option, none, some, Bool, true,
  false, ◌&&◌, ◌||◌, not, ltb, leb, ◌==◌, ◌>>=◌, if◌then◌else◌, length, bytes_eq, replicate,
}
use blue_pods.Types.{Hash, contains}
use blue_pods.Word.{add64}
use blue_pods.Validators.{ValidatorInfo}
use blue_pods.Stake.{capped_stake_of, quorum_reached, reaches_strict_quorum}
use blue_pods.Dict.{Dict, empty_dict, put, sort_hashes}

pub record Vertex : Type 0 where
  pub round : ℕ
  pub producer : Hash
  pub parents : List Hash

-- The part of the vertex store that the commit rule reads. `stored` lists the hashes that `vertices`
-- has a vertex for.
pub record Store : Type 0 where
  pub stored : List Hash
  pub by_round : ℕ → List Hash
  pub latest_round : ℕ
  pub vertices : Hash → Option Vertex
  pub round_producers : ℕ → Hash → Option Hash
  pub committed : Hash → Bool
  pub commit_floor : ℕ
  pub commit_floor_set : Bool

abbrev zero_hash : Hash
zero_hash = replicate 32 0

unfoldable pub producer_at : ℕ → Hash → Store → Hash
producer_at round hash s = elim (s.round_producers round hash) [ none ↦ zero_hash | some p ↦ p ]

unfoldable pub matches_loop : ℕ → Hash → Store → List Hash → List Hash
matches_loop round producer s [] = []
matches_loop round producer s (hash ∷ hashes) =
    let rest = matches_loop round producer s hashes in
    if bytes_eq (producer_at round hash s) producer then hash ∷ rest else rest

-- The flag of the result is that the list is not empty.
unfoldable pub get_by_round_producer : ℕ → Hash → Store → List Hash
get_by_round_producer round producer s =
    sort_hashes (matches_loop round producer s (s.by_round round))

unfoldable pub round_producers_loop : ℕ → Store → List Hash → List Hash → List Hash
round_producers_loop round s [] seen = seen
round_producers_loop round s (hash ∷ hashes) seen =
    round_producers_loop round s hashes (producer_at round hash s ∷ seen)

-- The loop over a number of rounds from `from`; the source's loop ends for `to` below 2^64 - 1.
unfoldable pub range_loop : ℕ → ℕ → Store → List Hash → List Hash
range_loop zero from s seen = seen
range_loop (suc rounds) from s seen =
    range_loop rounds (suc from) s (round_producers_loop from s (s.by_round from) seen)

unfoldable pub producers_in_range : ℕ → ℕ → Store → List Hash
producers_in_range from to s = range_loop (suc to - from) from s []

abbrev Votes : Type 0
Votes = List Hash

unfoldable pub collect_cited_candidates : List Hash → List Hash → Votes → Votes
collect_cited_candidates [] candidates votes = votes
collect_cited_candidates (parent ∷ parents) candidates votes =
    collect_cited_candidates parents candidates
      (if contains parent candidates then parent ∷ votes else votes)

abbrev votes_of : Hash → Dict Votes → Votes
votes_of producer d = elim (d.at producer) [ none ↦ [] | some votes ↦ votes ]

unfoldable pub citations_loop : List Hash → List Hash → Store → Dict Votes → Dict Votes
citations_loop [] candidates s result = result
citations_loop (hash ∷ hashes) candidates s result =
    citations_loop hashes candidates s (elim (s.vertices hash) [
      | none ↦ result
      | some vertex ↦
          put vertex.producer
            (collect_cited_candidates vertex.parents candidates (votes_of vertex.producer result))
            result
    ])

unfoldable pub citations_by_producer : ℕ → List Hash → Store → Dict Votes
citations_by_producer round candidates s = citations_loop (s.by_round round) candidates s empty_dict

pub record CitationTally : Type 0 where
  pub supporters : Dict (List Hash)
  pub blamers : List Hash

abbrev pub set_of : Hash → Dict (List Hash) → List Hash
set_of v d = elim (d.at v) [ none ↦ [] | some producers ↦ producers ]

unfoldable pub add_supporter : Dict (List Hash) → Hash → Hash → Dict (List Hash)
add_supporter supporters v p = put v (p ∷ set_of v supporters) supporters

unfoldable pub add_votes : Hash → Votes → Dict (List Hash) → Dict (List Hash)
add_votes p [] supporters = supporters
add_votes p (v ∷ votes) supporters = add_votes p votes (add_supporter supporters v p)

-- A producer that cites no candidate is a blamer.
unfoldable pub count_votes : Hash → Votes → CitationTally → CitationTally
count_votes p [] tally = record tally { blamers = p ∷ tally.blamers }
count_votes p (v ∷ votes) tally = record tally {
  supporters = add_votes p (v ∷ votes) tally.supporters;
}

unfoldable pub tally_loop : Dict Votes → List Hash → CitationTally → CitationTally
tally_loop cited [] tally = tally
tally_loop cited (p ∷ ps) tally = tally_loop cited ps (count_votes p (votes_of p cited) tally)

unfoldable pub tally_citations : ℕ → Hash → Store → CitationTally
tally_citations round producer s =
    let cited = citations_by_producer (add64 round 1) (get_by_round_producer round producer s) s in
    tally_loop cited cited.keys (record { supporters = empty_dict; blamers = [] })

unfoldable pub members_in_set : List ValidatorInfo → List Hash → ℕ
members_in_set [] producers = 0
members_in_set (v ∷ vs) producers =
    if contains v.pubkey producers
    then suc (members_in_set vs producers)
    else members_in_set vs producers

unfoldable pub certifies : ℕ → List ValidatorInfo → List Hash → Bool → Bool
certifies cap_mille set producers relaxed =
    if relaxed
    then leb 1 (members_in_set set producers)
    else reaches_strict_quorum cap_mille set (λ p. contains p producers)

pub data AnchorVerdict : Type 0 where
  verdict_wait : AnchorVerdict
  verdict_undecided : AnchorVerdict
  verdict_certified : Hash → AnchorVerdict
  verdict_blamed : AnchorVerdict

-- The first supported vertex that is certified.
unfoldable pub first_certified :
    ℕ → List ValidatorInfo → Dict (List Hash) → Bool → List Hash → Option Hash
first_certified cap_mille set supporters relaxed [] = none
first_certified cap_mille set supporters relaxed (v ∷ vs) =
    let rest = first_certified cap_mille set supporters relaxed vs in
    if certifies cap_mille set (set_of v supporters) relaxed then some v else rest

unfoldable pub verdict_from_tally : ℕ → List ValidatorInfo → CitationTally → Bool → AnchorVerdict
verdict_from_tally cap_mille set tally relaxed =
    elim (first_certified cap_mille set tally.supporters relaxed
      (sort_hashes tally.supporters.keys)) [
        | some v ↦ verdict_certified v
        | none ↦
            if not relaxed && reaches_strict_quorum cap_mille set (λ p. contains p tally.blamers)
            then verdict_blamed
            else verdict_undecided
      ]
