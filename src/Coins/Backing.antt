-- ===== src/Coins/Backing.antt =====
-- coins_total as the sum of the balances of the coins. Coins carry no type tag, so the coins are given
-- as the list of their keys.
use blue_pods.Prelude.{
  ℕ, ◌+◌, ◌≤◌, ◌≡◌, refl, ap, sym, List, [], ◌∷◌, true, false, bytes_eq, bytes_eq_iff, arith,
  Bool-cases, inl, inr, subst,
}
use blue_pods.Types.{Hash, contains}
use blue_pods.Coins.{State}
use blue_pods.Coins.Store.{IsStore}
use blue_pods.Coins.Balance.{balance_of, balance, Moved}

abbrev IsDistinct : List Hash → Type 0
IsDistinct [] = Unit
IsDistinct (k ∷ ks) = (contains k ks ≡ false) × IsDistinct ks

abbrev pub sum_balances : List Hash → State → ℕ
sum_balances [] s = 0
sum_balances (k ∷ ks) s = balance s k + sum_balances ks s

pub record IsBacked (coins : List Hash) (s : State) : Type 0 where
  pub store : IsStore s
  pub distinct : IsDistinct coins
  pub total : sum_balances coins s ≡ s.counters.coins_total

-- The sum over keys that do not hold `k` is the same after a move at `k`.
sum-elsewhere :
    (ks : List Hash) (s s' : State) (k : Hash) (amount : ℕ)
    → Moved s s' k amount
    → contains k ks ≡ false
    → sum_balances ks s' ≡ sum_balances ks s
unfolding contains
sum-elsewhere [] s s' k amount m h = refl
sum-elsewhere (j ∷ ks) s s' k amount m h =
    ground (arith, ap balance_of (m.elsewhere j (ground arith)), sum-elsewhere ks s s' k amount m)

pub sum-Moved :
    (ks : List Hash) (s s' : State) (k : Hash) (amount : ℕ)
    → Moved s s' k amount
    → IsDistinct ks
    → contains k ks ≡ true
    → sum_balances ks s' + balance s k ≡ sum_balances ks s + amount
unfolding contains
sum-Moved [] s s' k amount m d h = cc
sum-Moved (j ∷ ks) s s' k amount m d h = elim (Bool-cases (bytes_eq k j)) [
  | inl same ↦
      let e = (bytes_eq_iff k j).0 same in
      let absent = subst (λ x. contains x ks ≡ false) (sym e) d.0 in
      omega (
        arith,
        m.here,
        ap (balance s') e,
        ap (balance s) e,
        sum-elsewhere ks s s' k amount m absent,
      )
  | inr other ↦
      let in_rest : contains k ks ≡ true = ground arith in
      omega (arith, ap balance_of (m.elsewhere j other), sum-Moved ks s s' k amount m d.1 in_rest)
]

pub balance-le_sum :
    (ks : List Hash) (s : State) (k : Hash) → contains k ks ≡ true → balance s k ≤ sum_balances ks s
unfolding contains
balance-le_sum [] s k h = cc
balance-le_sum (j ∷ ks) s k h = elim (Bool-cases (bytes_eq k j)) [
  | inl same ↦ omega (arith, ap (balance s) ((bytes_eq_iff k j).0 same))
  | inr other ↦ omega (arith, balance-le_sum ks s k (ground arith))
]
