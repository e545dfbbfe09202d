-- ===== src/Staking/Moving.antt =====
-- What a bond or an unbond moves: an amount between one coin and the sender's self-stake.
use blue_pods.Prelude.{
  ℕ, ◌+◌, ◌-◌, ◌≤◌, ◌<◌, ◌≡◌, some, true, false, leb, ◌==◌, ◌&&◌, arith, bytes_eq, Option-cases,
  Bool-cases, inl, inr, subst,
}
use blue_pods.Types.{Hash, Tx}
use blue_pods.Word.{u64_max}
use blue_pods.Validators.{ValidatorInfo, ValidatorSet, update}
use blue_pods.Validators.Index.{IsIndexed, view, update_lem}
use blue_pods.Coins.{State, Object, read_coin_balance, strict_debit, credit_coin}
use blue_pods.Coins.Balance.{balance, before, strict_debit_lem, credit_coin_lem, Moved}
use blue_pods.Coins.Store.{IsStore}
use blue_pods.Staking.{Dag, first_mutable_ref_id, decode_stake_amount, settle}

-- Between `d` and `r` the coin that the transaction names and the self-stake of its sender changed;
-- the other objects and validators did not.
pub record StakeMove (d r : Dag) (tx : Tx) : Type 0 where
  pub coin : Hash
  pub amount : ℕ
  pub named : first_mutable_ref_id tx ≡ some coin
  pub asked : decode_stake_amount tx.args ≡ some amount
  pub positive : 0 < amount
  pub coins : State
  pub coins' : State
  pub held : d.coin_store ≡ some coins
  pub held' : r.coin_store ≡ some coins'
  pub others : (j : Hash) → bytes_eq coin j ≡ false → coins'.objects j ≡ coins.objects j
  pub info : ValidatorInfo
  pub stake : ℕ
  pub member : view d.validators tx.sender ≡ some info
  pub changed : view r.validators tx.sender ≡ some (record info { self_stake = stake })
  pub rest : (k : Hash) → bytes_eq tx.sender k ≡ false → view r.validators k ≡ view d.validators k

module _ (s s' : State) (store : IsStore s) (k : Hash) (amount : ℕ) where
  -- An accepted debit takes its amount from the coin, and touches no other object.
  pub strict_debit_takes :
      strict_debit k amount s ≡ some s'
      → (balance s' k + amount ≡ balance s k)
        × ((j : Hash) → bytes_eq k j ≡ false → s'.objects j ≡ s.objects j)
  unfolding strict_debit
  strict_debit_takes e = elim (Option-cases (s.objects k)) [
    | inl gone ↦ absurd (ground arith)
    | inr (o, found) ↦ elim (Option-cases (read_coin_balance o)) [
      | inl bad ↦ absurd (ground arith)
      | inr (b, has) ↦ at_coin o b found has
    ]
  ]
    where
      at_coin :
          (o : Object) (b : ℕ)
          → s.objects k ≡ some o
          → read_coin_balance o ≡ some b
          → (balance s' k + amount ≡ balance s k)
            × ((j : Hash) → bytes_eq k j ≡ false → s'.objects j ≡ s.objects j)
      at_coin o b found has =
          let (pays, short, replicated) = strict_debit_lem s store k o b found has amount in
          elim (Bool-cases (o.replication == 0 && leb amount b)) [
            | inl fits ↦
                let (r, done, m, c) = pays (ground arith) (ground arith) in
                let same : r ≡ s' = ground (arith, done, e) in
                let m' = subst (λ (x : State). Moved s x k (b - amount)) same m in
                (ground (arith, m'.here, before s store k o b found has, fits), m'.elsewhere)
            | inr refused ↦ absurd (ground (arith, short, replicated))
          ]

  -- An accepted credit of a positive amount adds it to the coin, and touches no other object.
  pub credit_coin_gives :
      0 < amount
      → amount ≤ u64_max
      → credit_coin k amount s ≡ some s'
      → (balance s' k ≡ balance s k + amount)
        × ((j : Hash) → bytes_eq k j ≡ false → s'.objects j ≡ s.objects j)
  unfolding credit_coin
  credit_coin_gives positive small e = elim (Option-cases (s.objects k)) [
    | inl gone ↦ absurd (ground (arith, positive))
    | inr (o, found) ↦ elim (Option-cases (read_coin_balance o)) [
      | inl bad ↦ absurd (ground (arith, positive))
      | inr (b, has) ↦ at_coin o b found has
    ]
  ]
    where
      at_coin :
          (o : Object) (b : ℕ)
          → s.objects k ≡ some o
          → read_coin_balance o ≡ some b
          → (balance s' k ≡ balance s k + amount)
            × ((j : Hash) → bytes_eq k j ≡ false → s'.objects j ≡ s.objects j)
      at_coin o b found has =
          let (pays, over) = credit_coin_lem s store k o b found has amount small in
          elim (Bool-cases (leb (b + amount) u64_max)) [
            | inl fits ↦
                let (r, done, m, c) = pays (ground (arith, fits)) positive in
                let same : r ≡ s' = ground (arith, done, e) in
                let m' = subst (λ (x : State). Moved s x k (b + amount)) same m in
                (omega (arith, m'.here, before s store k o b found has), m'.elsewhere)
            | inr refused ↦ absurd (ground (arith, over, refused, e))
          ]

-- A settled call leaves every other validator alone.
pub settle_rest :
    (d r : Dag) (s' : State) (k : Hash) (f : ValidatorInfo → ValidatorInfo)
    → IsIndexed d.validators
    → ((x : ValidatorInfo) → (f x).pubkey ≡ x.pubkey)
    → settle d (some s') (update f k d.validators) ≡ some (r, true)
    → (j : Hash) → bytes_eq k j ≡ false
    → view r.validators j ≡ view d.validators j
unfolding settle
settle_rest d r s' k f indexed keep e j other =
    let (vs, done, _, _, change) = update_lem d.validators indexed f k keep in
    let same : vs.0 ≡ r.validators = ground (arith, done, e) in
    subst (λ (x : ValidatorSet). view x j ≡ view d.validators j) same
      (ground (arith, change j, other))
