-- ===== src/Distribution/Remainder.antt =====
-- The recipient of an epoch's remainder (pickRemainderRecipient of internal/consensus/epoch.go).
use blue_pods.Prelude.{
  ℕ, zero, suc, ◌≤◌, ◌<◌, ◌≡◌, ◌⊎◌, refl, List, [], ◌∷◌, some, Bool, ◌&&◌, ◌||◌, not, ltb, ◌==◌,
  arith, All, sym, subst, get_elem?, Bool-cases, inl, inr,
}
use blue_pods.Types.{Hash}
use blue_pods.Validators.{ValidatorInfo, zero_hash}
use blue_pods.Distribution.{bytes_lt, pick_loop, pick_remainder_recipient}

All-at :
    (P : ValidatorInfo → Type 0) (vals : List ValidatorInfo) (j : ℕ) (v : ValidatorInfo)
    → All P vals
    → get_elem? vals j ≡ some v
    → P v
All-at P [] j v h e = absurd (ground arith)
All-at P (x ∷ xs) zero v h e = let same : x ≡ v = ground arith in subst P same h.0
All-at P (x ∷ xs) (suc j) v h e = All-at P xs j v h.1 e

module _ (weight_of : ValidatorInfo → ℕ) where
  -- The key of a validator of the list with the given weight.
  abbrev Holds : List ValidatorInfo → Hash → ℕ → Type 0
  Holds vals k w =
      (i : ℕ) × (v : ValidatorInfo) × (get_elem? vals i ≡ some v)
      × (v.pubkey ≡ k)
      × (weight_of v ≡ w)

  Holds-tail :
      (v : ValidatorInfo) (vs : List ValidatorInfo) (k : Hash) (w : ℕ)
      → Holds vs k w
      → Holds (v ∷ vs) k w
  Holds-tail v vs k w (i, x, at, key, weight) = (suc i, x, at, key, weight)

  -- A key that is the start of the loop or a validator's, with a weight that bounds all.
  abbrev Leads : List ValidatorInfo → Hash → ℕ → Hash → Type 0
  Leads vals best best_weight k =
      (w : ℕ) × ((k ≡ best) × (w ≡ best_weight) ⊎ Holds vals k w)
      × (best_weight ≤ w)
      × All (λ v. weight_of v ≤ w) vals

  abbrev wins : ValidatorInfo → Hash → ℕ → Bool
  wins v best best_weight =
      not (weight_of v == 0)
      && (ltb best_weight (weight_of v) || ((weight_of v == best_weight) && bytes_lt v.pubkey best))

  pick_loop_lem :
      (vals : List ValidatorInfo) (best : Hash) (best_weight : ℕ)
      → Leads vals best best_weight (pick_loop weight_of vals best best_weight)
  unfolding pick_loop
  pick_loop_lem [] best best_weight = (best_weight, inl (refl, refl), omega arith, tt)
  pick_loop_lem (v ∷ vs) best best_weight = elim (Bool-cases (wins v best best_weight)) [
    | inl taken ↦
        let (w, from, more, all) = pick_loop_lem vs v.pubkey (weight_of v) in
        let same : pick_loop weight_of (v ∷ vs) best best_weight
            ≡ pick_loop weight_of vs v.pubkey (weight_of v) =
          rw (taken) refl in
        subst (Leads (v ∷ vs) best best_weight) (sym same) (
          w,
          inr (elim from [
            | inl (key, weight) ↦ (0, v, refl, sym key, sym weight)
            | inr held ↦ Holds-tail v vs (pick_loop weight_of vs v.pubkey (weight_of v)) w held
          ]),
          ground (arith, taken, more),
          (more, all),
        )
    | inr kept ↦
        let (w, from, more, all) = pick_loop_lem vs best best_weight in
        let same : pick_loop weight_of (v ∷ vs) best best_weight
            ≡ pick_loop weight_of vs best best_weight =
          rw (kept) refl in
        subst (Leads (v ∷ vs) best best_weight) (sym same) (
          w,
          elim from [
            | inl start ↦ inl start
            | inr held ↦ inr (Holds-tail v vs (pick_loop weight_of vs best best_weight) w held)
          ],
          more,
          (ground (arith, kept, more), all),
        )
  ]

-- The remainder goes to a validator of the list whose weight no other one passes, if some validator
-- has a positive weight.
pick_remainder_recipient_lem :
    (vals : List ValidatorInfo) (weight_of : ValidatorInfo → ℕ) (j : ℕ) (worker : ValidatorInfo)
    → get_elem? vals j ≡ some worker
    → 0 < weight_of worker
    → (i : ℕ) × (top : ValidatorInfo) × (get_elem? vals i ≡ some top)
      × (top.pubkey ≡ pick_remainder_recipient vals weight_of)
      × All (λ v. weight_of v ≤ weight_of top) vals
unfolding pick_remainder_recipient
pick_remainder_recipient_lem vals weight_of j worker there positive =
    let (w, from, _, all) = pick_loop_lem weight_of vals zero_hash 0 in
    elim from [
      | inl (_, none_found) ↦
          let bound = All-at (λ v. weight_of v ≤ w) vals j worker all there in
          absurd (omega (arith, bound, none_found, positive))
      | inr (i, top, at, key, weight) ↦
          (i, top, at, key, subst (λ n. All (λ v. weight_of v ≤ n) vals) (sym weight) all)
    ]
