-- ===== src/Anchor/Tally.antt =====
-- What a tally counts: a supporter of a vertex has a stored vertex that cites it, and a blamer has a
-- stored vertex but none that cites a candidate.
use blue_pods.Prelude.{
  ℕ, ◌≡◌, refl, List, [], ◌∷◌, none, some, Bool, true, false, ◌&&◌, ◌||◌, bytes_eq, bytes_eq_iff,
  arith, Bool-cases, Option-cases, inl, inr,
}
use blue_pods.Types.{Hash, contains}
use blue_pods.Word.{add64}
use blue_pods.Dict.{Dict, empty_dict, put}
use blue_pods.Anchor.{
  Store, Votes, votes_of, set_of, collect_cited_candidates, citations_loop, citations_by_producer,
  CitationTally, add_supporter, add_votes, count_votes, tally_loop, tally_citations,
  get_by_round_producer,
}

-- Whether a producer has a stored vertex among some hashes.
unfoldable pub produces : Hash → List Hash → Store → Bool
produces p [] s = false
produces p (hash ∷ hashes) s =
    elim (s.vertices hash) [ none ↦ false | some x ↦ bytes_eq x.producer p ] || produces p hashes s

-- Whether a producer has a stored vertex among them with a given parent.
unfoldable pub cites : Hash → Hash → List Hash → Store → Bool
cites p v [] s = false
cites p v (hash ∷ hashes) s =
    elim (s.vertices hash) [ none ↦ false | some x ↦ bytes_eq x.producer p && contains v x.parents ]
    || cites p v hashes s

contains-collect_cited_candidates :
    (v : Hash) (parents candidates : List Hash) (votes : Votes)
    → contains v (collect_cited_candidates parents candidates votes)
      ≡ (contains v votes || (contains v parents && contains v candidates))
unfolding collect_cited_candidates contains
contains-collect_cited_candidates v [] candidates votes = ground arith
contains-collect_cited_candidates v (parent ∷ parents) candidates votes =
    elim (Bool-cases (contains parent candidates)) [
      | inl listed ↦ ground (
        arith,
        listed,
        bytes_eq_iff v parent,
        contains-collect_cited_candidates v parents candidates (parent ∷ votes),
      )
      | inr other ↦ ground (
        arith,
        other,
        bytes_eq_iff v parent,
        contains-collect_cited_candidates v parents candidates votes,
      )
    ]

module _ (candidates : List Hash) (s : Store) where
  contains-votes_of :
      (p v : Hash) (hashes : List Hash) (d : Dict Votes)
      → contains v (votes_of p (citations_loop hashes candidates s d))
        ≡ (contains v (votes_of p d) || (cites p v hashes s && contains v candidates))
  unfolding citations_loop cites
  contains-votes_of p v [] d = ground arith
  contains-votes_of p v (hash ∷ hashes) d = elim (Option-cases (s.vertices hash)) [
    | inl absent ↦ ground (arith, absent, contains-votes_of p v hashes d)
    | inr (x, there) ↦
        let votes = collect_cited_candidates x.parents candidates (votes_of x.producer d) in
        ground (
          arith,
          there,
          bytes_eq_iff x.producer p,
          contains-votes_of p v hashes (put x.producer votes d),
          contains-collect_cited_candidates v x.parents candidates (votes_of x.producer d),
        )
  ]

  contains-keys :
      (p : Hash) (hashes : List Hash) (d : Dict Votes)
      → contains p (citations_loop hashes candidates s d).keys
        ≡ (contains p d.keys || produces p hashes s)
  unfolding citations_loop produces contains
  contains-keys p [] d = ground arith
  contains-keys p (hash ∷ hashes) d = elim (Option-cases (s.vertices hash)) [
    | inl absent ↦ ground (arith, absent, contains-keys p hashes d)
    | inr (x, there) ↦
        let votes = collect_cited_candidates x.parents candidates (votes_of x.producer d) in
        ground (
          arith,
          there,
          bytes_eq_iff x.producer p,
          bytes_eq_iff p x.producer,
          contains-keys p hashes (put x.producer votes d),
        )
  ]

contains-add_votes :
    (p q v : Hash) (votes : Votes) (d : Dict (List Hash))
    → contains p (set_of v (add_votes q votes d))
      ≡ (contains p (set_of v d) || (bytes_eq p q && contains v votes))
unfolding add_votes add_supporter contains
contains-add_votes p q v [] d = ground arith
contains-add_votes p q v (w ∷ votes) d = ground (
  arith,
  bytes_eq_iff w v,
  bytes_eq_iff v w,
  contains-add_votes p q v votes (add_supporter d w q),
)

abbrev is_empty : List Hash → Bool
is_empty [] = true
is_empty (x ∷ xs) = false

supporters-count_votes :
    (p q v : Hash) (votes : Votes) (t : CitationTally)
    → contains p (set_of v (count_votes q votes t).supporters)
      ≡ (contains p (set_of v t.supporters) || (bytes_eq p q && contains v votes))
unfolding count_votes contains
supporters-count_votes p q v [] t = ground arith
supporters-count_votes p q v (w ∷ votes) t = contains-add_votes p q v (w ∷ votes) t.supporters

blamers-count_votes :
    (p q : Hash) (votes : Votes) (t : CitationTally)
    → contains p (count_votes q votes t).blamers
      ≡ (contains p t.blamers || (bytes_eq p q && is_empty votes))
unfolding count_votes contains
blamers-count_votes p q [] t = ground arith
blamers-count_votes p q (w ∷ votes) t = ground arith

module _ (cited : Dict Votes) where
  contains-supporters :
      (p v : Hash) (ps : List Hash) (t : CitationTally)
      → contains p (set_of v (tally_loop cited ps t).supporters)
        ≡ (contains p (set_of v t.supporters) || (contains p ps && contains v (votes_of p cited)))
  unfolding tally_loop contains
  contains-supporters p v [] t = ground arith
  contains-supporters p v (q ∷ ps) t =
      let votes = votes_of q cited in
      ground (
        arith,
        bytes_eq_iff p q,
        supporters-count_votes p q v votes t,
        contains-supporters p v ps (count_votes q votes t),
      )

  contains-blamers :
      (p : Hash) (ps : List Hash) (t : CitationTally)
      → contains p (tally_loop cited ps t).blamers
        ≡ (contains p t.blamers || (contains p ps && is_empty (votes_of p cited)))
  unfolding tally_loop contains
  contains-blamers p [] t = ground arith
  contains-blamers p (q ∷ ps) t =
      let votes = votes_of q cited in
      ground (
        arith,
        bytes_eq_iff p q,
        blamers-count_votes p q votes t,
        contains-blamers p ps (count_votes q votes t),
      )

cites-produces :
    (p v : Hash) (hashes : List Hash) (s : Store)
    → cites p v hashes s ≡ true
    → produces p hashes s ≡ true
unfolding cites produces
cites-produces p v [] s e = absurd cc
cites-produces p v (hash ∷ hashes) s e = elim (Option-cases (s.vertices hash)) [
  | inl absent ↦ ground (arith, e, absent, cites-produces p v hashes s)
  | inr (x, there) ↦ ground (arith, e, there, cites-produces p v hashes s)
]

is_empty-lem : (v : Hash) (votes : List Hash) → is_empty votes ≡ true → contains v votes ≡ false
unfolding contains
is_empty-lem v [] e = refl
is_empty-lem v (x ∷ votes) e = absurd cc

module _ (round : ℕ) (producer : Hash) (s : Store) where
  abbrev pub candidates_of : List Hash
  candidates_of = get_by_round_producer round producer s

  -- The supporters of a vertex are the producers with a stored vertex of the next round that cites
  -- it, if it is a candidate.
  pub supporters-tally_citations :
      (p v : Hash)
      → contains p (set_of v (tally_citations round producer s).supporters)
        ≡ (cites p v (s.by_round (add64 round 1)) s && contains v candidates_of)
  unfolding tally_citations citations_by_producer contains
  supporters-tally_citations p v =
      let hashes = s.by_round (add64 round 1) in
      let cited = citations_loop hashes candidates_of s empty_dict in
      ground (
        arith,
        contains-supporters cited p v cited.keys (record { supporters = empty_dict; blamers = [] }),
        contains-keys candidates_of s p hashes empty_dict,
        contains-votes_of candidates_of s p v hashes empty_dict,
        cites-produces p v hashes s,
      )

  -- A blamer has a stored vertex of the next round, and none that cites a candidate.
  pub blamers-tally_citations :
      (p v : Hash)
      → contains p (tally_citations round producer s).blamers ≡ true
      → contains v candidates_of ≡ true
      → (produces p (s.by_round (add64 round 1)) s ≡ true)
        × (cites p v (s.by_round (add64 round 1)) s ≡ false)
  unfolding tally_citations citations_by_producer contains
  blamers-tally_citations p v e listed =
      let hashes = s.by_round (add64 round 1) in
      let cited = citations_loop hashes candidates_of s empty_dict in
      ground (
        arith,
        e,
        listed,
        contains-blamers cited p cited.keys (record { supporters = empty_dict; blamers = [] }),
        is_empty-lem v (votes_of p cited),
        contains-keys candidates_of s p hashes empty_dict,
        contains-votes_of candidates_of s p v hashes empty_dict,
      )
