-- ===== src/Coins/Supplies.antt =====
-- A credit leaves the total supply as it was.
use blue_pods.Prelude.{ℕ, ◌≡◌, some, ◌==◌, arith, Option-cases, Bool-cases, inl, inr}
use blue_pods.Types.{Hash}
use blue_pods.Supply.{Counters, add_coins}
use blue_pods.Coins.{Object, State, read_coin_balance, set_object, credit_to, credit_coin}

total_supply-add_coins : (n : ℕ) (c : Counters) → (add_coins n c).total_supply ≡ c.total_supply
unfolding add_coins
total_supply-add_coins n c = ground arith

total_supply-credit_to :
    (o : Object) (balance amount : ℕ) (s s' : State)
    → credit_to o balance amount s ≡ some s'
    → s'.counters.total_supply ≡ s.counters.total_supply
unfolding credit_to set_object
total_supply-credit_to o balance amount s s' e =
    ground (arith, total_supply-add_coins amount s.counters)

pub total_supply-credit_coin :
    (k : Hash) (amount : ℕ) (s s' : State)
    → credit_coin k amount s ≡ some s'
    → s'.counters.total_supply ≡ s.counters.total_supply
unfolding credit_coin
total_supply-credit_coin k amount s s' e = elim (Bool-cases (amount == 0)) [
  | inl nothing ↦ ground arith
  | inr positive ↦ elim (Option-cases (s.objects k)) [
    | inl gone ↦ absurd (ground arith)
    | inr (o, found) ↦ elim (Option-cases (read_coin_balance o)) [
      | inl bad ↦ absurd (ground arith)
      | inr (b, has) ↦ total_supply-credit_to o b amount s s' (ground arith)
    ]
  ]
]
