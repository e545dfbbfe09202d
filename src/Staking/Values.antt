-- ===== src/Staking/Values.antt =====
-- The value that the handlers of internal/consensus/commit.go move: the coins' total, and the
-- stakes that the validator set records.
use blue_pods.Prelude.{
  ℕ, zero, suc, ◌+◌, ◌≤◌, ◌≡◌, ap, List, [], ◌∷◌, none, some, true, leb, ◌==◌, ◌&&◌, arith,
  get_elem?, set, Option-cases, Bool-cases, inl, inr, bytes_eq_refl, subst, ◌∙◌,
}
use blue_pods.Types.{Hash, contains}
use blue_pods.Word.{u64_max}
use blue_pods.Supply.{Counters}
use blue_pods.Supply.Laws.{coins_total-add_coins, coins_total-sub_coins}
use blue_pods.Validators.{ValidatorInfo, ValidatorSet, update, modify_at}
use blue_pods.Validators.Index.{IsIndexed, view, update_lem}
use blue_pods.Coins.{Object, State, read_coin_balance, strict_debit, credit_coin}
use blue_pods.Coins.Balance.{before, strict_debit_lem, credit_coin_lem}
use blue_pods.Coins.Backing.{IsBacked, balance-le_sum}
use blue_pods.Staking.{Dag}
use blue_pods.Coins.Flows.{debit, credit, flow, flow-IsBacked}

abbrev pub stake_of : ValidatorInfo → ℕ
stake_of v = v.self_stake + v.delegated_total

abbrev sum_stakes : List ValidatorInfo → ℕ
sum_stakes [] = 0
sum_stakes (v ∷ vs) = stake_of v + sum_stakes vs

sum_stakes-set :
    (vs : List ValidatorInfo) (i : ℕ) (x y : ValidatorInfo)
    → get_elem? vs i ≡ some x
    → sum_stakes (set vs i y) + stake_of x ≡ sum_stakes vs + stake_of y
sum_stakes-set [] i x y e = ground arith
sum_stakes-set (v ∷ vs) zero x y e = ground arith
sum_stakes-set (v ∷ vs) (suc i) x y e = omega (arith, sum_stakes-set vs i x y e)

-- A setter moves the sum of the stakes by what it moves the stake of its member.
pub sum_stakes-update :
    (f : ValidatorInfo → ValidatorInfo) (k : Hash) (vs : ValidatorSet) (info : ValidatorInfo)
    → IsIndexed vs
    → view vs k ≡ some info
    → ((x : ValidatorInfo) → (f x).pubkey ≡ x.pubkey)
    → (r : ValidatorSet) × (update f k vs ≡ some (r, true))
      × IsIndexed r
      × (view r k ≡ some (f info))
      × (sum_stakes r.validators + stake_of info ≡ sum_stakes vs.validators + stake_of (f info))
unfolding update modify_at
sum_stakes-update f k vs info v e keep = elim (Option-cases (vs.index k)) [
  | inl absent ↦ absurd (ground arith)
  | inr (i, at) ↦
      let here : get_elem? vs.validators i ≡ some info = ground arith in
      let (r, done, w, _, change) = update_lem vs v f k keep in
      let r' = record vs { validators = set vs.validators i (f info) } in
      let same : r.0 ≡ r' = ground (arith, done) in
      (
        r.0,
        ground (arith, done),
        w,
        ground (arith, change k, bytes_eq_refl k),
        ap (λ (x : ValidatorSet). sum_stakes x.validators + stake_of info) same
            ∙ sum_stakes-set vs.validators i info (f info) here,
      )
]

module _ (coins : List Hash) (s : State) (w : IsBacked coins s) (k : Hash)
    (known : contains k coins ≡ true) (amount : ℕ) where
  debit_total :
      (s' : State) (o : Object) (b : ℕ)
      → s.objects k ≡ some o
      → read_coin_balance o ≡ some b
      → strict_debit k amount s ≡ some s'
      → s'.counters.coins_total + amount ≡ s.counters.coins_total
  debit_total s' o b found has e =
      let (pays, short, replicated) = strict_debit_lem s w.store k o b found has amount in
      elim (Bool-cases (o.replication == 0 && leb amount b)) [
        | inl fits ↦
            let (r, done, _, c) = pays (ground arith) (ground arith) in
            let here = before s w.store k o b found has in
            let most = balance-le_sum coins s k known in
            let same : r ≡ s' = ground (arith, done) in
            let taken =
              coins_total-sub_coins amount s.counters (ground (arith, here, most, w.total)) in
            omega (
              arith,
              ap (λ (x : State). x.counters.coins_total) same,
              ap (λ (x : Counters). x.coins_total) c,
              taken,
            )
        | inr refused ↦ absurd (ground (arith, short, replicated))
      ]

  -- A debit that is accepted takes the amount from coins_total.
  pub strict_debit-IsBacked :
      (s' : State)
      → strict_debit k amount s ≡ some s'
      → s.counters.coins_total ≤ u64_max
      → IsBacked coins s' × (s'.counters.coins_total + amount ≡ s.counters.coins_total)
  unfolding strict_debit
  strict_debit-IsBacked s' e word =
      let same : flow (debit k amount) s ≡ s' = ground (arith, e) in
      (
        subst (IsBacked coins) same (flow-IsBacked coins s w (debit k amount) known (omega arith)),
        elim (Option-cases (s.objects k)) [
          | inl gone ↦ absurd (ground arith)
          | inr (o, found) ↦ elim (Option-cases (read_coin_balance o)) [
            | inl bad ↦ absurd (ground arith)
            | inr (b, has) ↦ debit_total s' o b found has e
          ]
        ],
      )

  credit_total :
      (s' : State) (o : Object) (b : ℕ)
      → s.objects k ≡ some o
      → read_coin_balance o ≡ some b
      → s.counters.coins_total + amount ≤ u64_max
      → credit_coin k amount s ≡ some s'
      → s'.counters.coins_total ≡ s.counters.coins_total + amount
  unfolding credit_coin
  credit_total s' o b found has room e = elim (Bool-cases (amount == 0)) [
    | inl nothing ↦ ground arith
    | inr positive ↦
        let here = before s w.store k o b found has in
        let most = balance-le_sum coins s k known in
        let (pays, _) = credit_coin_lem s w.store k o b found has amount (omega arith) in
        let (r, done, _, c) = pays (omega (arith, here, most, w.total)) (ground arith) in
        let same : r ≡ s' = ground (arith, done) in
        omega (
          arith,
          ap (λ (x : State). x.counters.coins_total) same,
          ap (λ (x : Counters). x.coins_total) c,
          coins_total-add_coins amount s.counters room,
        )
  ]

  -- A credit that is accepted adds the amount to coins_total.
  pub credit_coin-IsBacked :
      (s' : State)
      → s.counters.coins_total + amount ≤ u64_max
      → credit_coin k amount s ≡ some s'
      → IsBacked coins s' × (s'.counters.coins_total ≡ s.counters.coins_total + amount)
  unfolding credit_coin
  credit_coin-IsBacked s' room e =
      let same : flow (credit k amount) s ≡ s' = ground (arith, e) in
      (
        subst (IsBacked coins) same (flow-IsBacked coins s w (credit k amount) known room),
        elim (Option-cases (s.objects k)) [
          | inl gone ↦ ground arith
          | inr (o, found) ↦ elim (Option-cases (read_coin_balance o)) [
            | inl bad ↦ ground arith
            | inr (b, has) ↦ credit_total s' o b found has room e
          ]
        ],
      )

-- The value in a DAG's coins and stakes.
abbrev pub worth : Dag → ℕ
worth d =
    elim d.coin_store [ none ↦ 0 | some s ↦ s.counters.coins_total ]
    + sum_stakes d.validators.validators

pub record IsSound (coins : List Hash) (d : Dag) : Type 0 where
  pub indexed : IsIndexed d.validators
  pub backed : (s : State) → d.coin_store ≡ some s → IsBacked coins s
  pub room : worth d ≤ u64_max

at-le_sum :
    (vs : List ValidatorInfo) (i : ℕ) (x : ValidatorInfo)
    → get_elem? vs i ≡ some x
    → stake_of x ≤ sum_stakes vs
at-le_sum [] i x e = ground arith
at-le_sum (v ∷ vs) zero x e = ground arith
at-le_sum (v ∷ vs) (suc i) x e = omega (arith, at-le_sum vs i x e)

pub stake-le_sum :
    (vs : ValidatorSet) (k : Hash) (info : ValidatorInfo)
    → view vs k ≡ some info
    → stake_of info ≤ sum_stakes vs.validators
stake-le_sum vs k info e = elim (Option-cases (vs.index k)) [
  | inl absent ↦ absurd (ground arith)
  | inr (i, at) ↦ at-le_sum vs.validators i info (ground arith)
]
