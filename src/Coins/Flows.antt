-- ===== src/Coins/Flows.antt =====
-- A protocol flow at one of the coins keeps coins_total equal to the sum of their balances. A debit of
-- another object, such as a delegation position, is outside these theorems.
use blue_pods.Prelude.{
  ℕ, ◌+◌, ◌-◌, ◌≤◌, ◌≡◌, ap, sym, List, Option, none, some, true, leb, ◌==◌, arith, Option-cases,
  Bool-cases, ◌&&◌, inl, inr, subst,
}
use blue_pods.Types.{Hash, contains}
use blue_pods.Word.{u64_max}
use blue_pods.Supply.{Counters}
use blue_pods.Supply.Laws.{coins_total-add_coins, coins_total-sub_coins}
use blue_pods.Coins.{Object, State, read_coin_balance, deduct_coin_fee, credit_coin, strict_debit}
use blue_pods.Coins.Balance.{
  balance, Moved, before, deduct_coin_fee_lem, strict_debit_lem, credit_coin_lem,
}
use blue_pods.Coins.Backing.{IsBacked, sum-Moved, balance-le_sum}

-- A protocol flow at one coin: a fee, a staking debit, or a credit (a reward, a refund, a
-- withdrawal). A flow that is refused leaves the state as it was.
pub data Flow : Type 0 where
  fee debit credit : Hash → ℕ → Flow

abbrev or_same : State → Option State → State
or_same s none = s
or_same s (some s') = s'

abbrev pub flow : Flow → State → State
flow (fee k amount) s = elim (deduct_coin_fee k amount s) [ none ↦ s | some d ↦ d.after ]
flow (debit k amount) s = or_same s (strict_debit k amount s)
flow (credit k amount) s = or_same s (credit_coin k amount s)

abbrev coin_of : Flow → Hash
coin_of (fee k amount) = k
coin_of (debit k amount) = k
coin_of (credit k amount) = k

-- What a flow may add to the coins.
abbrev credited : Flow → ℕ
credited (fee k amount) = 0
credited (debit k amount) = 0
credited (credit k amount) = amount

module _ (coins : List Hash) (s : State) (w : IsBacked coins s) where
  Moved-IsBacked :
      (s' : State) (k : Hash) (amount : ℕ)
      → contains k coins ≡ true
      → Moved s s' k amount
      → s'.counters.coins_total + balance s k ≡ s.counters.coins_total + amount
      → IsBacked coins s'
  Moved-IsBacked s' k amount known m e = record {
    store = m.store;
    distinct = w.distinct;
    total = omega (arith, sum-Moved coins s s' k amount m w.distinct known, w.total, e);
  }

  -- A coin that is not there, or is no coin, refuses every flow.
  no_object : (f : Flow) → s.objects (coin_of f) ≡ none → flow f s ≡ s
  unfolding deduct_coin_fee strict_debit credit_coin
  no_object (fee k amount) e = ground arith
  no_object (debit k amount) e = ground arith
  no_object (credit k amount) e = ground arith

  no_balance :
      (f : Flow) (o : Object)
      → s.objects (coin_of f) ≡ some o
      → read_coin_balance o ≡ none
      → flow f s ≡ s
  unfolding deduct_coin_fee strict_debit credit_coin
  no_balance (fee k amount) o e r = ground arith
  no_balance (debit k amount) o e r = ground arith
  no_balance (credit k amount) o e r = ground arith

  module _ (k : Hash) (o : Object) (b : ℕ) (known : contains k coins ≡ true)
      (found : s.objects k ≡ some o) (has : read_coin_balance o ≡ some b) where
    fee_flow : (amount : ℕ) → IsBacked coins (flow (fee k amount) s)
    fee_flow amount =
        let (d, done, m, taken, _, c) = deduct_coin_fee_lem s w.store k o b found has amount in
        let here = before s w.store k o b found has in
        let most = balance-le_sum coins s k known in
        let e = coins_total-sub_coins d.deducted s.counters (omega (arith, w.total)) in
        let same : flow (fee k amount) s ≡ d.after = ground (arith, done) in
        subst (IsBacked coins) (sym same) (
          Moved-IsBacked d.after k (b - amount) known m
            (omega (arith, ap (λ (x : Counters). x.coins_total) c, e, taken, here)))

    -- A debit is a fee that is refused when it is not covered.
    debit_flow : (amount : ℕ) → IsBacked coins (flow (debit k amount) s)
    debit_flow amount =
        let (pays, short, replicated) = strict_debit_lem s w.store k o b found has amount in
        elim (Bool-cases (o.replication == 0 && leb amount b)) [
          | inl fits ↦
              let (s', done, m, c) = pays (ground arith) (ground arith) in
              let here = before s w.store k o b found has in
              let most = balance-le_sum coins s k known in
              let e =
                coins_total-sub_coins amount s.counters (ground (arith, here, most, w.total)) in
              let same : flow (debit k amount) s ≡ s' = ground (arith, done) in
              subst (IsBacked coins) (sym same) (
                Moved-IsBacked s' k (b - amount) known m
                  (ground (arith, ap (λ (x : Counters). x.coins_total) c, e, here, fits)))
          | inr refused ↦
              let same : flow (debit k amount) s ≡ s = ground (arith, short, replicated) in
              subst (IsBacked coins) (sym same) w
        ]

    credit_flow :
        (amount : ℕ)
        → s.counters.coins_total + amount ≤ u64_max
        → IsBacked coins (flow (credit k amount) s)
    credit_flow amount room =
        let here = before s w.store k o b found has in
        let most = balance-le_sum coins s k known in
        let (pays, _) = credit_coin_lem s w.store k o b found has amount (omega arith) in
        elim (Bool-cases (amount == 0)) [
          | inl nothing ↦
              let same : flow (credit k amount) s ≡ s = unfold credit_coin in ground arith in
              subst (IsBacked coins) (sym same) w
          | inr positive ↦
              let (s', done, m, c) = pays (omega (arith, here, most, w.total)) (ground arith) in
              let e = coins_total-add_coins amount s.counters room in
              let same : flow (credit k amount) s ≡ s' = ground (arith, done) in
              subst (IsBacked coins) (sym same) (
                Moved-IsBacked s' k (b + amount) known m
                  (omega (arith, ap (λ (x : Counters). x.coins_total) c, e, here)))
        ]

  -- When coins_total is the sum of the balances of a list of coins, one flow at a coin of the list keeps
  -- it so, applied or refused, if a credit leaves the total within 64 bits. A flow at an object that is
  -- not in the list is not covered.
  pub flow-IsBacked :
      (f : Flow)
      → contains (coin_of f) coins ≡ true
      → s.counters.coins_total + credited f ≤ u64_max
      → IsBacked coins (flow f s)
  flow-IsBacked f known room = elim (Option-cases (s.objects (coin_of f))) [
    | inl e ↦ subst (IsBacked coins) (sym (no_object f e)) w
    | inr (o, e) ↦ elim (Option-cases (read_coin_balance o)) [
      | inl r ↦ subst (IsBacked coins) (sym (no_balance f o e r)) w
      | inr (b, r) ↦ at_coin f o b known e r room
    ]
  ]
    where
      at_coin :
          (f : Flow) (o : Object) (b : ℕ)
          → contains (coin_of f) coins ≡ true
          → s.objects (coin_of f) ≡ some o
          → read_coin_balance o ≡ some b
          → s.counters.coins_total + credited f ≤ u64_max
          → IsBacked coins (flow f s)
      at_coin (fee k amount) o b known e r room = fee_flow k o b known e r amount
      at_coin (debit k amount) o b known e r room = debit_flow k o b known e r amount
      at_coin (credit k amount) o b known e r room = credit_flow k o b known e r amount room
