-- ===== src/Coins/Balance.antt =====
-- What a debit and a credit do to the store, on every branch.
use blue_pods.Prelude.{
  ℕ, ◌+◌, ◌-◌, ◌≤◌, ◌<◌, ◌≡◌, refl, Option, none, some, true, false, min, leb, bytes_eq,
  bytes_eq_refl, arith, Bool-cases, inl, inr,
}
use blue_pods.Types.{Hash}
use blue_pods.Word.{u64_max, add64}
use blue_pods.Supply.{Counters, add_coins, sub_coins}
use blue_pods.Coins.{
  Object, State, Deduction, set_object, read_coin_balance, write_coin_balance, take_coins,
  deduct_from, deduct_coin_fee, credit_to, credit_coin, debit_exact, strict_debit,
}
use blue_pods.Coins.Store.{
  IsStore, balance-le, read_coin_balance-write, objects-set_balance, set_balance-IsStore,
}

-- The balance under a key, 0 where no coin stands.
unfoldable pub balance_of : Option Object → ℕ
balance_of none = 0
balance_of (some o) = elim (read_coin_balance o) [ none ↦ 0 | some b ↦ b ]

abbrev pub balance : State → Hash → ℕ
balance s k = balance_of (s.objects k)

-- `s'` is `s` with the balance of one coin set, and its store still well formed.
pub record Moved (s s' : State) (k : Hash) (amount : ℕ) : Type 0 where
  pub store : IsStore s'
  pub here : balance s' k ≡ amount
  pub elsewhere : (j : Hash) → bytes_eq k j ≡ false → s'.objects j ≡ s.objects j

module _ (s : State) (v : IsStore s) (k : Hash) (o : Object) (b : ℕ) (found : s.objects k ≡ some o)
    (has : read_coin_balance o ≡ some b) where
  b-le : b ≤ u64_max
  b-le = balance-le o (v.bytes k o found) has

  pub before : balance s k ≡ b
  unfolding balance_of
  before = ground (arith, found, has)

  set_balance-Moved :
      (amount : ℕ) (c : Counters)
      → amount ≤ u64_max
      → Moved s (record (set_object (write_coin_balance o amount) s) { counters = c }) k amount
  unfolding balance_of
  set_balance-Moved amount c h =
      let w = set_balance-IsStore s v k o found amount in
      record {
        store = record { keyed = w.keyed; bytes = w.bytes };
        here = ground (
          arith,
          objects-set_balance s v k o found amount k,
          bytes_eq_refl k,
          read_coin_balance-write o amount h,
        );
        elsewhere = λ j ne. rw (objects-set_balance s v k o found amount, ne) refl;
      }

module _ (s : State) (v : IsStore s) (k : Hash) (o : Object) (b : ℕ) (found : s.objects k ≡ some o)
    (has : read_coin_balance o ≡ some b) where
  take_coins-Moved :
      (amount : ℕ)
      → Moved s (take_coins o b amount s) k (b - amount)
        × ((take_coins o b amount s).counters ≡ sub_coins amount s.counters)
  unfolding take_coins set_object
  take_coins-Moved amount = (
    set_balance-Moved s v k o b found has (b - amount) (sub_coins amount s.counters)
        (omega (arith, b-le s v k o b found has)),
    refl,
  )

  -- A fee deduction takes the fee, or all that the coin holds if that is less, says which, and
  -- lowers coins_total by exactly what it took; no other object changes.
  pub deduct_coin_fee_lem :
      (fee : ℕ)
      → (d : Deduction) × (deduct_coin_fee k fee s ≡ some d)
        × Moved s d.after k (b - fee)
        × (d.deducted ≡ min b fee)
        × (d.fully_covered ≡ leb fee b)
        × (d.after.counters ≡ sub_coins d.deducted s.counters)
  unfolding deduct_coin_fee deduct_from
  deduct_coin_fee_lem fee = elim (Bool-cases (leb fee b)) [
    | inl covered ↦
        let (m, c) = take_coins-Moved fee in
        (
          record { after = take_coins o b fee s; deducted = fee; fully_covered = true },
          ground (arith, found, has),
          m,
          ground arith,
          ground arith,
          c,
        )
    | inr short ↦
        let (m, c) = take_coins-Moved b in
        (
          record { after = take_coins o b b s; deducted = b; fully_covered = false },
          ground (arith, found, has),
          record { store = m.store; here = ground (arith, m.here); elsewhere = m.elsewhere },
          ground arith,
          ground arith,
          c,
        )
  ]

  -- A strict debit of a singleton that covers the amount takes exactly the amount; any other debit
  -- is refused, and a refusal leaves nothing behind.
  pub strict_debit_lem :
      (amount : ℕ)
      → (o.replication ≡ 0
          → amount ≤ b
          → (s' : State) × (strict_debit k amount s ≡ some s')
            × Moved s s' k (b - amount)
            × (s'.counters ≡ sub_coins amount s.counters))
        × (b < amount → strict_debit k amount s ≡ none)
        × (0 < o.replication → strict_debit k amount s ≡ none)
  unfolding strict_debit debit_exact
  strict_debit_lem amount =
      let (m, c) = take_coins-Moved amount in
      (
        λ singleton enough. (take_coins o b amount s, ground (arith, found, has), m, c),
        λ short. ground (arith, found, has),
        λ replicated. ground (arith, found, has),
      )

  -- A credit adds exactly the amount and raises coins_total by it; one that would pass the largest
  -- uint64 is refused.
  pub credit_coin_lem :
      (amount : ℕ)
      → amount ≤ u64_max
      → (b + amount ≤ u64_max
          → 0 < amount
          → (s' : State) × (credit_coin k amount s ≡ some s')
            × Moved s s' k (b + amount)
            × (s'.counters ≡ add_coins amount s.counters))
        × (u64_max < b + amount → credit_coin k amount s ≡ none)
  unfolding credit_coin credit_to set_object
  credit_coin_lem amount word =
      let le = b-le s v k o b found has in
      let exact : b + amount ≤ u64_max → add64 b amount ≡ b + amount = omega arith in
      (
        λ room positive.
            let m =
              set_balance-Moved s v k o b found has (b + amount) (add_coins amount s.counters)
                room in
            (
              record (set_object (write_coin_balance o (b + amount)) s) {
                counters = add_coins amount s.counters;
              },
              ground (arith, found, has, exact room),
              m,
              refl,
            ),
        λ over. ground (arith, found, has, le),
      )
