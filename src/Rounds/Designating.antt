-- ===== src/Rounds/Designating.antt =====
-- The designated producer of a round: a member of the round's holder snapshot, eligible if a member is.
use blue_pods.Prelude.{
  ℕ, zero, suc, ◌<◌, ◌%◌, ◌≡◌, ◌≢◌, ◌⊎◌, refl, true, false, ◌&&◌, ◌==◌, List, [], ◌∷◌, ◌++◌, Option,
  none, some, arith, length, get_elem?, get_elem?-of_lt, take, Bool-cases, inl, inr, bytes_eq_iff,
  bytes_eq_refl,
}
use blue_pods.Types.{Hash, contains}
use blue_pods.Bytes.{le_bytes, le_num}
use blue_pods.Dict.{sort_hashes, contains-sort_hashes}
use blue_pods.Rounds.{
  Dag, Holders, keys_of, commit_epoch_for_round, holders_for_epoch, eligible_for_epoch,
  eligible_keys, filter_loop, or_else, anchor_producer_for, anchor_domain,
}

get_elem?-contains :
    (xs : List Hash) (i : ℕ) {x : Hash} → get_elem? xs i ≡ some x → contains x xs ≡ true
unfolding contains
get_elem?-contains [] i e = absurd cc
get_elem?-contains (y ∷ xs) zero {x} e = ground (arith, e, bytes_eq_iff x y)
get_elem?-contains (y ∷ xs) (suc i) {x} e = ground (arith, e, get_elem?-contains xs i {x = x})

length-pos : (x : Hash) (xs : List Hash) → contains x xs ≡ true → 0 < length xs
unfolding contains
length-pos x [] e = absurd cc
length-pos x (y ∷ xs) e = omega arith

contains-filter_loop :
    (k : Hash) (keys eligible : List Hash)
    → contains k (filter_loop keys eligible) ≡ (contains k keys && contains k eligible)
unfolding filter_loop contains
contains-filter_loop k [] eligible = ground arith
contains-filter_loop k (x ∷ keys) eligible = elim (Bool-cases (contains x eligible)) [
  | inl chosen ↦ ground (arith, chosen, bytes_eq_iff k x, contains-filter_loop k keys eligible)
  | inr other ↦ ground (arith, other, bytes_eq_iff k x, contains-filter_loop k keys eligible)
]

abbrev members : Option (List Hash) → List Hash
members none = []
members (some set) = set

or_else_lem :
    (xs keys : List Hash) (p k : Hash)
    → contains p (or_else xs keys) ≡ true
    → (contains p xs ≡ true) ⊎ ((contains p keys ≡ true) × (contains k xs ≡ false))
unfolding contains
or_else_lem [] keys p k e = inr (e, refl)
or_else_lem (x ∷ xs) keys p k e = inl e

length-nonempty : (hs : Holders) → hs ≢ [] → (length hs == 0) ≡ false
length-nonempty [] filled = absurd (filled refl)
length-nonempty (h ∷ hs) filled = ground arith

sorted_keys-pos : (hs : Holders) → (length hs == 0) ≡ false → 0 < length (sort_hashes (keys_of hs))
unfolding contains
sorted_keys-pos [] e = absurd (ground (arith, e))
sorted_keys-pos (h ∷ hs) e =
    length-pos h.pubkey (sort_hashes (keys_of (h ∷ hs)))
      (ground (arith, contains-sort_hashes h.pubkey (keys_of (h ∷ hs)), bytes_eq_refl h.pubkey))

or_else-pos : (xs keys : List Hash) → 0 < length keys → 0 < length (or_else xs keys)
or_else-pos [] keys some_keys = some_keys
or_else-pos (x ∷ xs) keys some_keys = omega arith

module _ (holders : Holders) where
  -- A key of the result is a holder's, and eligible if some holder is.
  eligible_keys_lem :
      (eligible : Option (List Hash)) (p k : Hash)
      → contains p (eligible_keys holders eligible) ≡ true
      → (contains p (keys_of holders) ≡ true)
        × ((contains p (members eligible) ≡ true)
            ⊎ ((contains k (keys_of holders) && contains k (members eligible)) ≡ false))
  unfolding eligible_keys contains
  eligible_keys_lem none p k e =
      (ground (arith, e, contains-sort_hashes p (keys_of holders)), inr (ground arith))
  eligible_keys_lem (some set) p k e =
      let keys = sort_hashes (keys_of holders) in
      elim (or_else_lem (filter_loop keys set) keys p k e) [
        | inl chosen ↦
            let both = contains-filter_loop p keys set in
            (
              ground (arith, chosen, both, contains-sort_hashes p (keys_of holders)),
              inl (ground (arith, chosen, both)),
            )
        | inr (any, missed) ↦ (
          ground (arith, any, contains-sort_hashes p (keys_of holders)),
          inr (
              ground (
                arith,
                missed,
                contains-filter_loop k keys set,
                contains-sort_hashes k (keys_of holders),
              )),
        )
      ]

  eligible_keys-pos :
      (eligible : Option (List Hash))
      → (length holders == 0) ≡ false
      → 0 < length (eligible_keys holders eligible)
  unfolding eligible_keys
  eligible_keys-pos none some_holders = sorted_keys-pos holders some_holders
  eligible_keys-pos (some set) some_holders =
      or_else-pos (filter_loop (sort_hashes (keys_of holders)) set) (sort_hashes (keys_of holders))
        (sorted_keys-pos holders some_holders)

module _ (blake3 : List ℕ → List ℕ) (round : ℕ) (d : Dag) where
  abbrev round_holders : Option Holders
  round_holders = holders_for_epoch (commit_epoch_for_round round d) d

  abbrev pub round_eligible : List Hash
  round_eligible = members (eligible_for_epoch (commit_epoch_for_round round d) d)

  abbrev seed : ℕ
  seed = le_num (take 8 (blake3 (anchor_domain ++ le_bytes 8 round)))

  -- Whenever the holder snapshot of a round's epoch resolves and is not empty, the round has a
  -- designated producer. It is one of the holders, and it is eligible if any holder `k` is.
  pub anchor_producer_for_lem :
      (holders : Holders) (k : Hash)
      → round_holders ≡ some holders
      → holders ≢ []
      → (p : Hash) × (anchor_producer_for blake3 round d ≡ some p)
        × (contains p (keys_of holders) ≡ true)
        × ((contains p round_eligible ≡ true)
            ⊎ ((contains k (keys_of holders) && contains k round_eligible) ≡ false))
  unfolding anchor_producer_for
  anchor_producer_for_lem holders k resolved some_holders =
      let keys = eligible_keys holders (eligible_for_epoch (commit_epoch_for_round round d) d) in
      let filled : (length holders == 0) ≡ false = length-nonempty holders some_holders in
      let room =
        eligible_keys-pos holders (eligible_for_epoch (commit_epoch_for_round round d) d) filled in
      let (p, found) = get_elem?-of_lt keys (seed % length keys) (omega (arith, room)) in
      let (listed, chosen) =
        eligible_keys_lem holders (eligible_for_epoch (commit_epoch_for_round round d) d) p k
          (get_elem?-contains keys (seed % length keys) found) in
      (p, ground (arith, resolved, filled, found), listed, chosen)
