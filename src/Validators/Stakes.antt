-- ===== src/Validators/Stakes.antt =====
-- The stake setters of the validator set, and the sets that are built from lists of keys.
use mathlib.Core.Option
use blue_pods.Prelude.{
  ℕ, ◌+◌, ◌≤◌, ◌≡◌, refl, Bool, List, Option, some, arith, ltb, if◌then◌else◌, bytes_eq,
  bytes_eq_iff, Option-cases, Bool-cases, bytes_eq_refl, ◌∙◌, ap, sym, inl, inr,
}
use blue_pods.Types.{Hash}
use blue_pods.Word.{u64_max, add64, sub64}
use blue_pods.Validators.{
  ValidatorInfo, ValidatorSet, fresh_info, append_info, add_delegated, sub_delegated,
  add_with_stake, has,
}
use blue_pods.Validators.Index.{IsIndexed, view, update_lem, modify_at_lem}
use blue_pods.Validators.Changes.{append_info_lem}

-- Two writes of one key, of which the second undoes the first.
restored :
    (k : Hash) (f g : ValidatorInfo → ValidatorInfo)
    (before between after : Hash → Option ValidatorInfo) (info : ValidatorInfo)
    → before k ≡ some info
    → g (f info) ≡ info
    → ((j : Hash) → between j ≡ (if bytes_eq k j then Option.map f (before k) else before j))
    → ((j : Hash) → after j ≡ (if bytes_eq k j then Option.map g (between k) else between j))
    → (j : Hash) → after j ≡ before j
restored k f g before between after info e back first second j = elim (Bool-cases (bytes_eq k j)) [
  | inl same ↦
      let here = (bytes_eq_iff k j).0 same in
      let step = rw (bytes_eq_refl k, e) at (first k) in
      let last = rw (same, step) at (second j) in last ∙ ap some back ∙ sym e ∙ ap before here
  | inr other ↦ ground (arith, first j, second j)
]

more_less :
    (amount : ℕ) (x : ValidatorInfo)
    → x.delegated_total + amount ≤ u64_max
    → (if ltb (add64 x.delegated_total amount) amount
        then 0
        else sub64 (add64 x.delegated_total amount) amount)
      ≡ x.delegated_total
more_less amount x room = ground arith

-- Withdrawing what was just delegated restores every validator, when the total did not overflow.
sub_delegated-add_delegated :
    (k : Hash) (amount : ℕ) (vs : ValidatorSet) (info : ValidatorInfo)
    → IsIndexed vs
    → view vs k ≡ some info
    → info.delegated_total + amount ≤ u64_max
    → (r : ValidatorSet × Bool) × (s : ValidatorSet × Bool) × (add_delegated k amount vs ≡ some r)
      × (sub_delegated k amount r.0 ≡ some s)
      × ((j : Hash) → view s.0 j ≡ view vs j)
unfolding add_delegated sub_delegated
sub_delegated-add_delegated k amount vs info v e room =
    let more =
      λ (x : ValidatorInfo). record x { delegated_total = add64 x.delegated_total amount } in
    let less = λ (x : ValidatorInfo). record x {
      delegated_total = if ltb x.delegated_total amount then 0 else sub64 x.delegated_total amount;
    } in
    let (r, added, w, _, change) = update_lem vs v more k (λ x. refl) in
    let (s, subbed, _, _, change') = update_lem r.0 w less k (λ x. refl) in
    (
      r,
      s,
      added,
      subbed,
      restored k more less (view vs) (view r.0) (view s.0) info e
          (λ i. record info { delegated_total = more_less amount info room i }) change change',
    )

-- AddWithStake never panics: the key is bound to an info with the given stake, the addresses of a
-- known key stay, and no other key changes.
add_with_stake_lem :
    (k : Hash) (quic_addr bls_pubkey : List ℕ) (self_stake delegated : ℕ) (jailed : Bool)
    (vs : ValidatorSet)
    → IsIndexed vs
    → (r : ValidatorSet) × (add_with_stake k quic_addr bls_pubkey self_stake delegated jailed vs
        ≡ some r)
      × IsIndexed r
      × ((j : Hash)
          → view r j ≡ (
              if bytes_eq k j
              then Option.map
                  (λ (x : ValidatorInfo). record x {
                    self_stake = self_stake;
                    delegated_total = delegated;
                    jailed = jailed;
                  })
                  (if has k vs then view vs k else some (fresh_info k quic_addr bls_pubkey))
              else view vs j))
unfolding add_with_stake has fresh_info
add_with_stake_lem k quic_addr bls_pubkey self_stake delegated jailed vs v =
    elim (Option-cases (vs.index k)) [
      | inl e ↦
          let info : ValidatorInfo = record (fresh_info k quic_addr bls_pubkey) {
            self_stake = self_stake;
            delegated_total = delegated;
            jailed = jailed;
          } in
          let (w, change) = append_info_lem info vs v e in
          (append_info info vs, ground arith, w, λ j. ground (arith, change j))
      | inr (i, e) ↦
          let (r, done, w, change) =
            modify_at_lem vs v
              (λ (x : ValidatorInfo). record x {
                self_stake = self_stake;
                delegated_total = delegated;
                jailed = jailed;
              })
              k i e (λ x. refl) in
          (r, ground (arith, done), w, λ j. ground (arith, change j))
    ]
