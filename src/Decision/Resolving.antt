-- ===== src/Decision/Resolving.antt =====
-- What the indirect rule commits.
use blue_pods.Prelude.{
  ℕ, ◌≡◌, refl, Bool, true, false, ◌&&◌, ◌==◌, List, [], ◌∷◌, some, arith, length, Bool-cases,
  Option-cases, inl, inr, bytes_eq, bytes_eq_iff,
}
use blue_pods.Types.{Hash, contains}
use blue_pods.Anchor.{get_by_round_producer}
use blue_pods.Causal.{causal_batch}
use blue_pods.Causal.Members.{Ancestor}
use blue_pods.Causal.Closure.{causal_batch_lem}
use blue_pods.Rounds.{Dag, anchor_producer_for, round_is_relaxed}
use blue_pods.Decision.{
  AnchorDecision, anchor_wait, anchor_commit, anchor_skip, resolve_indirect, decide_membership,
  unless_supported, relaxed_supporter_still_possible,
}

decide_membership_lem :
    (candidates history : List Hash) {v : Hash}
    → decide_membership candidates history ≡ anchor_commit v
    → (contains v candidates ≡ true) × (contains v history ≡ true)
unfolding decide_membership contains
decide_membership_lem [] history e = absurd cc
decide_membership_lem (c ∷ candidates) history {v} e = elim (Bool-cases (contains c history)) [
  | inl here ↦
      let same : c ≡ v = ground (arith, e, here) in ground (arith, same, here, bytes_eq_iff v c)
  | inr other ↦ ground (arith, e, other, decide_membership_lem candidates history {v = v})
]

decide_membership_skips :
    (candidates history : List Hash) (v : Hash)
    → decide_membership candidates history ≡ anchor_skip
    → contains v candidates ≡ true
    → contains v history ≡ false
unfolding decide_membership contains
decide_membership_skips [] history v e listed = absurd cc
decide_membership_skips (c ∷ candidates) history v e listed =
    elim (Bool-cases (contains c history)) [
      | inl here ↦ absurd (ground (arith, e, here))
      | inr other ↦
          let rest : decide_membership candidates history ≡ anchor_skip =
            ground (arith, e, other) in
          elim (Bool-cases (bytes_eq v c)) [
            | inl same ↦ ground (arith, other, same, bytes_eq_iff v c)
            | inr differs ↦
                decide_membership_skips candidates history v rest (ground (arith, listed, differs))
          ]
    ]

length-contains : (v : Hash) (xs : List Hash) → contains v xs ≡ true → (length xs == 0) ≡ false
unfolding contains
length-contains v [] e = absurd cc
length-contains v (x ∷ xs) e = ground arith

unless_supported-commit :
    (w : AnchorDecision) (possible : Bool) {v : Hash}
    → unless_supported w possible ≡ anchor_commit v
    → w ≡ anchor_commit v
unfolding unless_supported
unless_supported-commit anchor_wait possible e = absurd cc
unless_supported-commit (anchor_commit v) possible e = e
unless_supported-commit anchor_skip possible e = absurd (ground (arith, e))

unless_supported-skip :
    (w : AnchorDecision) (possible : Bool)
    → unless_supported w possible ≡ anchor_skip
    → w ≡ anchor_skip
unfolding unless_supported
unless_supported-skip anchor_wait possible e = absurd cc
unless_supported-skip (anchor_commit v) possible e = absurd cc
unless_supported-skip anchor_skip possible e = refl

module _ (blake3 : List ℕ → List ℕ) (round : ℕ) (certified : Hash) (d : Dag)
    (producer v : Hash) where
  abbrev candidates : List Hash
  candidates = get_by_round_producer round producer d.store

  abbrev possible : Bool
  possible = round_is_relaxed round d && relaxed_supporter_still_possible blake3 round producer d

  -- What the indirect rule commits is a vertex of the round's designated producer, stored at the round,
  -- and a live ancestor of the certified anchor.
  pub resolve_indirect-commit :
      anchor_producer_for blake3 round d ≡ some producer
      → resolve_indirect blake3 round certified d ≡ anchor_commit v
      → (contains v (get_by_round_producer round producer d.store) ≡ true)
        × Ancestor d.store certified v
  unfolding resolve_indirect
  resolve_indirect-commit designated e = elim (Option-cases (causal_batch certified d.store)) [
    | inl absent ↦ absurd (ground (arith, e, designated, absent))
    | inr (history, walked) ↦
        let kept : unless_supported (decide_membership candidates history) possible
            ≡ anchor_commit v =
          ground (arith, e, designated, walked) in
        let (listed, carried) =
          decide_membership_lem candidates history
            (unless_supported-commit (decide_membership candidates history) possible kept) in
        (listed, (causal_batch_lem d.store certified history v walked).0 carried)
  ]

  -- When the indirect rule skips a round, no vertex of its designated producer that is stored at the
  -- round is a live ancestor of the certified anchor.
  pub resolve_indirect-skip :
      anchor_producer_for blake3 round d ≡ some producer
      → resolve_indirect blake3 round certified d ≡ anchor_skip
      → contains v (get_by_round_producer round producer d.store) ≡ true
      → ¬ Ancestor d.store certified v
  unfolding resolve_indirect
  resolve_indirect-skip designated e listed up =
      let there = length-contains v candidates listed in
      elim (Option-cases (causal_batch certified d.store)) [
        | inl absent ↦ absurd (ground (arith, e, designated, absent, there))
        | inr (history, walked) ↦
            let kept : unless_supported (decide_membership candidates history) possible
                ≡ anchor_skip =
              ground (arith, e, designated, walked, there) in
            let carried = (causal_batch_lem d.store certified history v walked).1 up in
            absurd (
              ground (
                arith,
                carried,
                decide_membership_skips candidates history v
                    (unless_supported-skip (decide_membership candidates history) possible kept)
                    listed,
              ))
      ]
