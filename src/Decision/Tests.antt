-- ===== src/Decision/Tests.antt =====
-- A round that is committed by its citations, and each theorem at concrete states.
use blue_pods.Prelude.{
  ℕ, ◌≡◌, ◌≢◌, ◌⊎◌, refl, true, false, ◌&&◌, ◌==◌, List, [], ◌∷◌, none, some, if◌then◌else◌, arith,
  bytes_eq, bytes_eq_iff, replicate,
}
use blue_pods.Types.{Hash, contains}
use blue_pods.Word.{safe_mul, safe_add, add64}
use blue_pods.Bytes.{le_bytes, le_num}
use blue_pods.Stake.{
  capped_stake_of, effective_stake, total_loop, capped_weight, capped_loop, quorum_reached,
  reaches_strict_quorum,
}
use blue_pods.Dict.{bytes_less, insert_sorted, sort_hashes}
use blue_pods.Anchor.{
  Store, producer_at, matches_loop, get_by_round_producer, collect_cited_candidates, citations_loop,
  citations_by_producer, add_supporter, add_votes, count_votes, tally_loop, tally_citations,
  certifies, first_certified, verdict_certified, verdict_blamed, verdict_undecided,
  verdict_from_tally,
}
use blue_pods.Anchor.Tests.{view, key, holders, known, total_fits}
use blue_pods.Anchor.Tally.{cites, blamers-tally_citations}
use blue_pods.Causal.{
  below_commit_floor, collect_causal, entry_less, insert_entry, sort_entries, causal_batch,
}
use blue_pods.Causal.Members.{Ancestor}
use blue_pods.Causal.Tests.{dag}
use blue_pods.Decision.Resolving.{resolve_indirect-commit, resolve_indirect-skip}
use blue_pods.Rounds.{
  Dag, commit_epoch_for_round, holders_for_epoch, eligible_for_epoch, eligible_keys, filter_loop,
  keys_of, round_is_relaxed, anchor_producer_for,
}
use blue_pods.Decision.{
  anchor_commit, anchor_skip, direct_anchor_verdict, certification_ruled_out, cert_impossibility,
  dead_designated_producer, scan, anchor_status, resolve_indirect, unless_supported,
  decide_membership,
}
use blue_pods.Decision.Scanning.{IsResolved, anchor_status_lem}
use blue_pods.Decision.Ruling.{certification_ruled_out_lem, cert_impossibility_lem}
use blue_pods.Rounds.Designating.{anchor_producer_for_lem, round_eligible}

abbrev digest : List ℕ → List ℕ
digest bytes = replicate 32 0

abbrev dag_of : Store → Dag
dag_of s = record {
  store = s;
  epoch_length = 0;
  epoch_mirror = some (record { epoch = 0; holders = some holders; prev = none; next = none });
  current_epoch = 0;
  eligible_holders = some (key 1 ∷ key 2 ∷ []);
  prev_eligible_holders = none;
  next_eligible_holders = none;
  min_validators = 0;
  strict_latched = false;
  strict_start_round = 0;
  voting_cap_mille = 100;
}

abbrev citing : Dag
citing = dag_of (view (λ p. key 50 ∷ []))

abbrev blaming : Dag
blaming = dag_of (view (λ p. []))

designated : anchor_producer_for digest 7 citing ≡ some (key 1)
unfolding anchor_producer_for commit_epoch_for_round holders_for_epoch eligible_for_epoch
    eligible_keys filter_loop sort_hashes insert_sorted bytes_less contains bytes_eq le_bytes le_num
designated = refl

citing_committed : anchor_status digest 7 citing ≡ anchor_commit (key 50)
unfolding anchor_status scan direct_anchor_verdict round_is_relaxed bytes_eq bytes_less
    insert_sorted sort_hashes producer_at matches_loop get_by_round_producer
    collect_cited_candidates citations_loop citations_by_producer add_supporter add_votes
    count_votes tally_loop tally_citations certifies first_certified verdict_from_tally contains
    capped_stake_of effective_stake total_loop capped_weight capped_loop quorum_reached
    reaches_strict_quorum safe_mul safe_add anchor_producer_for commit_epoch_for_round
    holders_for_epoch eligible_for_epoch eligible_keys filter_loop le_bytes le_num
citing_committed = refl

blaming_impossible : cert_impossibility digest 7 blaming ≡ (true, true)
unfolding cert_impossibility dead_designated_producer certification_ruled_out round_is_relaxed
    bytes_eq bytes_less insert_sorted sort_hashes producer_at matches_loop get_by_round_producer
    collect_cited_candidates citations_loop citations_by_producer add_supporter add_votes
    count_votes tally_loop tally_citations contains capped_stake_of effective_stake total_loop
    capped_weight capped_loop quorum_reached safe_mul safe_add anchor_producer_for
    commit_epoch_for_round holders_for_epoch eligible_for_epoch eligible_keys filter_loop le_bytes
    le_num
blaming_impossible = refl

anchor_status_lem_example :
    ((v : Hash) × (direct_anchor_verdict digest 7 citing ≡ verdict_certified v)
      × (anchor_commit (key 50) ≡ anchor_commit v))
    ⊎ ((direct_anchor_verdict digest 7 citing ≡ verdict_blamed)
        × (anchor_commit (key 50) ≡ anchor_skip))
    ⊎ ((direct_anchor_verdict digest 7 citing ≡ verdict_undecided)
        × IsResolved digest citing 7 (anchor_commit (key 50)))
anchor_status_lem_example =
    anchor_status_lem digest citing 7 (anchor_commit (key 50)) citing_committed (ground arith)

ruled_out : certification_ruled_out 100 holders (key 1 ∷ key 2 ∷ []) ≡ true
unfolding certification_ruled_out capped_stake_of effective_stake total_loop capped_weight
    capped_loop quorum_reached safe_mul safe_add contains bytes_eq
ruled_out = refl

third_apart : (h : Hash) → bytes_eq h (key 3) ≡ true → contains h (key 1 ∷ key 2 ∷ []) ≡ false
unfolding contains
third_apart h third =
    ground (arith, third, bytes_eq_iff h (key 3), bytes_eq_iff h (key 1), bytes_eq_iff h (key 2))

certification_ruled_out_lem_example :
    reaches_strict_quorum 100 holders (λ h. bytes_eq h (key 3)) ≡ false
certification_ruled_out_lem_example =
    certification_ruled_out_lem 100 holders (key 1 ∷ key 2 ∷ []) (λ h. bytes_eq h (key 3))
      total_fits ruled_out third_apart

designated_in_blaming : anchor_producer_for digest 7 blaming ≡ some (key 1)
unfolding anchor_producer_for commit_epoch_for_round holders_for_epoch eligible_for_epoch
    eligible_keys filter_loop sort_hashes insert_sorted bytes_less contains bytes_eq le_bytes le_num
designated_in_blaming = refl

still_blaming :
    (p : Hash)
    → contains p (tally_citations 7 (key 1) blaming.store).blamers ≡ true
    → cites p (key 50) (blaming.store.by_round (add64 7 1)) blaming.store ≡ false
still_blaming p e = (blamers-tally_citations 7 (key 1) blaming.store p (key 50) e known).1

cert_impossibility_lem_example :
    verdict_from_tally 100 holders (tally_citations 7 (key 1) blaming.store) false
    ≢ verdict_certified (key 50)
unfolding holders_for_epoch commit_epoch_for_round
cert_impossibility_lem_example =
    cert_impossibility_lem digest 7 blaming (key 1) holders blaming.store (key 50)
      designated_in_blaming refl total_fits blaming_impossible still_blaming

anchor_producer_for_lem_example :
    (p : Hash) × (anchor_producer_for digest 7 citing ≡ some p)
    × (contains p (keys_of holders) ≡ true)
    × ((contains p (round_eligible digest 7 citing) ≡ true)
        ⊎ ((contains (key 1) (keys_of holders) && contains (key 1) (round_eligible digest 7 citing))
            ≡ false))
unfolding holders_for_epoch commit_epoch_for_round
anchor_producer_for_lem_example =
    anchor_producer_for_lem digest 7 citing holders (key 1) refl (ground arith)

-- Round 7 has the vertices 50 and 60 of producer 1; 61 is the ancestor of both, 50 not of 60.
abbrev indirect : List Hash → Dag
indirect hashes = dag_of (record dag {
  by_round = λ r. if r == 7 then hashes else [];
  round_producers = λ r h. some (key 1);
})

carried :
    resolve_indirect digest 7 (key 61) (indirect (key 60 ∷ key 50 ∷ [])) ≡ anchor_commit (key 50)
unfolding resolve_indirect unless_supported decide_membership causal_batch collect_causal
    below_commit_floor entry_less insert_entry sort_entries get_by_round_producer matches_loop
    producer_at round_is_relaxed anchor_producer_for commit_epoch_for_round holders_for_epoch
    eligible_for_epoch eligible_keys filter_loop sort_hashes insert_sorted bytes_less contains
    bytes_eq le_bytes le_num
carried = refl

omitted : resolve_indirect digest 7 (key 50) (indirect (key 60 ∷ [])) ≡ anchor_skip
unfolding resolve_indirect unless_supported decide_membership causal_batch collect_causal
    below_commit_floor entry_less insert_entry sort_entries get_by_round_producer matches_loop
    producer_at round_is_relaxed anchor_producer_for commit_epoch_for_round holders_for_epoch
    eligible_for_epoch eligible_keys filter_loop sort_hashes insert_sorted bytes_less contains
    bytes_eq le_bytes le_num
omitted = refl

designated_indirect : anchor_producer_for digest 7 (indirect (key 60 ∷ key 50 ∷ [])) ≡ some (key 1)
unfolding anchor_producer_for commit_epoch_for_round holders_for_epoch eligible_for_epoch
    eligible_keys filter_loop sort_hashes insert_sorted bytes_less contains bytes_eq le_bytes le_num
designated_indirect = refl

designated_alone : anchor_producer_for digest 7 (indirect (key 60 ∷ [])) ≡ some (key 1)
unfolding anchor_producer_for commit_epoch_for_round holders_for_epoch eligible_for_epoch
    eligible_keys filter_loop sort_hashes insert_sorted bytes_less contains bytes_eq le_bytes le_num
designated_alone = refl

listed_alone :
    contains (key 60) (get_by_round_producer 7 (key 1) (indirect (key 60 ∷ [])).store) ≡ true
unfolding contains get_by_round_producer sort_hashes insert_sorted matches_loop producer_at bytes_eq
listed_alone = refl

resolve_indirect-commit_example :
    (contains (key 50) (get_by_round_producer 7 (key 1) (indirect (key 60 ∷ key 50 ∷ [])).store)
      ≡ true)
    × Ancestor (indirect (key 60 ∷ key 50 ∷ [])).store (key 61) (key 50)
resolve_indirect-commit_example =
    resolve_indirect-commit digest 7 (key 61) (indirect (key 60 ∷ key 50 ∷ [])) (key 1) (key 50)
      designated_indirect carried

resolve_indirect-skip_example : ¬ Ancestor (indirect (key 60 ∷ [])).store (key 50) (key 60)
resolve_indirect-skip_example =
    resolve_indirect-skip digest 7 (key 50) (indirect (key 60 ∷ [])) (key 1) (key 60)
      designated_alone omitted listed_alone
