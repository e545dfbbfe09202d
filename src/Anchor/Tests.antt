-- ===== src/Anchor/Tests.antt =====
-- Two views of one round in which producers changed their votes, and the exclusion theorems there.
use blue_pods.Prelude.{
  ℕ, ◌*◌, ◌≤◌, ◌<◌, ◌≡◌, refl, List, [], ◌∷◌, none, some, true, false, if◌then◌else◌, ◌==◌,
  bytes_eq, replicate, arith,
}
use blue_pods.Types.{Hash, contains}
use blue_pods.Word.{safe_mul, safe_add}
use blue_pods.Validators.{ValidatorInfo}
use blue_pods.Stake.{
  capped_stake_of, effective_stake, total_loop, capped_weight, capped_loop, quorum_reached,
  reaches_strict_quorum,
}
use blue_pods.Stake.Tests.{member}
use blue_pods.Stake.Quorum.{capped_total}
use blue_pods.Dict.{bytes_less, insert_sorted, sort_hashes}
use blue_pods.Anchor.{
  Vertex, Store, producer_at, matches_loop, get_by_round_producer, collect_cited_candidates,
  citations_loop, citations_by_producer, add_supporter, add_votes, count_votes, tally_loop,
  tally_citations, certifies, first_certified, verdict_certified, verdict_blamed,
  verdict_from_tally,
}
use blue_pods.Anchor.Tally.{candidates_of}
use blue_pods.Anchor.Exclusion.{changed_vote, certified-blamed}

abbrev pub key : ℕ → Hash
key k = replicate 32 k

abbrev pub holders : List ValidatorInfo
holders = member 1 10 false ∷ member 2 10 false ∷ member 3 10 false ∷ []

abbrev vertex : ℕ → ℕ → List Hash → Vertex
vertex round producer parents = record { round = round; producer = key producer; parents = parents }

-- The anchor of round 7 by producer 1, and one vertex of round 8 by each producer.
abbrev pub view : (ℕ → List Hash) → Store
view parents = record {
  stored = key 50 ∷ key 51 ∷ key 52 ∷ key 53 ∷ [];
  committed = λ h. false;
  commit_floor = 0;
  commit_floor_set = false;
  by_round =
      λ r. if r == 7 then key 50 ∷ [] else if r == 8 then key 51 ∷ key 52 ∷ key 53 ∷ [] else [];
  latest_round = 8;
  vertices = λ h.
      if bytes_eq h (key 50)
      then some (vertex 7 1 [])
      else if bytes_eq h (key 51)
      then some (vertex 8 1 (parents 1))
      else if bytes_eq h (key 52)
      then some (vertex 8 2 (parents 2))
      else if bytes_eq h (key 53)
      then some (vertex 8 3 (parents 3))
      else none;
  round_producers = λ r h.
      if bytes_eq h (key 50)
      then some (key 1)
      else if bytes_eq h (key 51)
      then some (key 1)
      else if bytes_eq h (key 52)
      then some (key 2)
      else if bytes_eq h (key 53)
      then some (key 3)
      else none;
}

abbrev citing : Store
citing = view (λ p. key 50 ∷ [])

abbrev silent : Store
silent = view (λ p. [])

citing_certified :
    verdict_from_tally 100 holders (tally_citations 7 (key 1) citing) false
    ≡ verdict_certified (key 50)
unfolding bytes_eq bytes_less insert_sorted sort_hashes producer_at matches_loop
    get_by_round_producer collect_cited_candidates citations_loop citations_by_producer
    add_supporter add_votes count_votes tally_loop tally_citations certifies first_certified
    verdict_from_tally contains capped_stake_of effective_stake total_loop capped_weight capped_loop
    quorum_reached reaches_strict_quorum safe_mul safe_add
citing_certified = refl

silent_blamed :
    verdict_from_tally 100 holders (tally_citations 7 (key 1) silent) false ≡ verdict_blamed
unfolding bytes_eq bytes_less insert_sorted sort_hashes producer_at matches_loop
    get_by_round_producer collect_cited_candidates citations_loop citations_by_producer
    add_supporter add_votes count_votes tally_loop tally_citations certifies first_certified
    verdict_from_tally contains capped_stake_of effective_stake total_loop capped_weight capped_loop
    quorum_reached reaches_strict_quorum safe_mul safe_add
silent_blamed = refl

pub known : contains (key 50) (candidates_of 7 (key 1) silent) ≡ true
unfolding contains get_by_round_producer sort_hashes insert_sorted matches_loop producer_at bytes_eq
known = refl

pub total_fits : 3 * capped_total 100 holders ≤ 18446744073709551615
unfolding capped_stake_of effective_stake total_loop capped_weight capped_loop safe_mul safe_add
total_fits = omega arith

certified-blamed_example :
    (0 < capped_total 100 holders)
    × (capped_total 100 holders
        ≤ 3
          * (capped_stake_of 100 holders
              (changed_vote 100 holders 7 (key 1) citing silent (key 50))).0)
certified-blamed_example =
    certified-blamed 100 holders 7 (key 1) citing silent (key 50) total_fits known citing_certified
      silent_blamed
