-- ===== src/Staking/Bonding.antt =====
-- Bonding (internal/consensus/commit.go) moves value, and neither makes nor loses any.
use blue_pods.Prelude.{
  refl, ◌+◌, ◌≤◌, ◌<◌, ◌≡◌, ◌⊎◌, sym, subst, List, none, some, true, false, ltb, arith,
  Option-cases, Bool-cases, inl, inr,
}
use blue_pods.Types.{Hash, Tx, contains}
use blue_pods.Word.{u64_max, safe_add, safe_add-eq-min}
use blue_pods.Validators.{set_self_stake, ValidatorInfo}
use blue_pods.Validators.Index.{view, get-eq-view}
use blue_pods.Coins.{State, strict_debit}
use blue_pods.Coins.Balance.{balance}
use blue_pods.Staking.{Dag, StakeCall, parse_stake_tx, settle, bond_of, bond_func, handle_bond}
use blue_pods.Staking.Values.{stake_of, strict_debit-IsBacked, IsSound, stake-le_sum}
use blue_pods.Staking.Outcomes.{NamesCoin, parse_stake_tx_lem, settle_lem, Decides}
use blue_pods.Staking.Moving.{StakeMove, strict_debit_takes, settle_rest}

-- The amount left the coin for the self-stake, which is at least the minimum stake.
pub record IsBonded (d r : Dag) (tx : Tx) : Type 0 where
  pub move : StakeMove d r tx
  pub paid : balance move.coins' move.coin + move.amount ≡ balance move.coins move.coin
  pub raised : move.stake ≡ move.info.self_stake + move.amount
  pub high : d.min_stake ≤ move.stake

-- Why a parsed bond is refused: the sender is no validator, its new stake would be below the minimum,
-- or the coin does not pay.
abbrev RefusesCall : Dag → StakeCall → Type 0
RefusesCall d call =
    (view d.validators call.sender ≡ none)
    ⊎ ((info : ValidatorInfo) × (view d.validators call.sender ≡ some info)
        × (safe_add info.self_stake call.amount < d.min_stake))
    ⊎ (strict_debit call.coin_id call.amount call.store ≡ none)

abbrev pub RefusesBond : Dag → Tx → Type 0
RefusesBond d tx =
    (parse_stake_tx d tx bond_func ≡ none)
    ⊎ ((call : StakeCall) × (parse_stake_tx d tx bond_func ≡ some call) × RefusesCall d call)

module _ (coins : List Hash) (d : Dag) (w : IsSound coins d) (tx : Tx) (call : StakeCall)
    (parsed : parse_stake_tx d tx bond_func ≡ some call)
    (known : contains call.coin_id coins ≡ true) (info : ValidatorInfo)
    (member : view d.validators tx.sender ≡ some info) where
  there : d.coin_store ≡ some call.store
  there = (parse_stake_tx_lem d tx bond_func call parsed).0

  word : call.store.counters.coins_total + stake_of info ≤ u64_max
  word = ground (arith, there, w.room, stake-le_sum d.validators tx.sender info member)

  applied_bond :
      (s' : State)
      → strict_debit call.coin_id call.amount call.store ≡ some s'
      → ltb (safe_add info.self_stake call.amount) d.min_stake ≡ false
      → Decides coins d
          (RefusesBond d tx)
          (λ r. IsBonded d r tx)
          (bond_of d call (some (some info)))
  unfolding bond_of set_self_stake
  applied_bond s' debited high =
      let (_, sender, coin, asked, positive) = parse_stake_tx_lem d tx bond_func call parsed in
      let store = (w.backed call.store there).store in
      let (backed, taken) =
        strict_debit-IsBacked coins call.store (w.backed call.store there) call.coin_id known
          call.amount s' debited (omega (arith, word)) in
      let (paid, others) =
        strict_debit_takes call.store s' store call.coin_id call.amount debited in
      let exact : safe_add info.self_stake call.amount ≡ info.self_stake + call.amount = omega (
        arith,
        safe_add-eq-min info.self_stake call.amount (omega (arith, word))
            (omega (arith, word, taken)),
        word,
        taken,
      ) in
      let stake = safe_add info.self_stake call.amount in
      let (r, done, sound, same, held, own) =
        settle_lem coins d w call.store s' tx.sender info there member backed
          (λ v. record v { self_stake = stake }) (λ x. refl) (omega (arith, exact, taken)) in
      inr (
        r,
        ground (arith, debited, high, sender, done),
        sound,
        same,
        record {
          move = record {
            coin = call.coin_id;
            amount = call.amount;
            named = coin;
            asked = asked;
            positive = positive;
            coins = call.store;
            coins' = s';
            held = there;
            held' = held;
            others = others;
            info = info;
            stake = stake;
            member = member;
            changed = own;
            rest =
                settle_rest d r s' tx.sender (λ v. record v { self_stake = stake }) w.indexed
                  (λ x. refl) done;
          };
          paid = paid;
          raised = exact;
          high = ground (arith, high);
        },
      )

  refused_bond :
      RefusesCall d call
      → bond_of d call (some (some info)) ≡ some (d, false)
      → Decides coins d
          (RefusesBond d tx)
          (λ r. IsBonded d r tx)
          (bond_of d call (some (some info)))
  refused_bond reason e = inl (e, inr (call, parsed, reason))

  bond_of_lem :
      Decides coins d (RefusesBond d tx) (λ r. IsBonded d r tx) (bond_of d call (some (some info)))
  unfolding bond_of settle
  bond_of_lem =
      let sender = (parse_stake_tx_lem d tx bond_func call parsed).1 in
      elim (Bool-cases (ltb (safe_add info.self_stake call.amount) d.min_stake)) [
        | inl low ↦
            refused_bond (inr (inl (info, ground (arith, sender, member), ground (arith, low))))
              (ground (arith, low))
        | inr high ↦ elim (Option-cases (strict_debit call.coin_id call.amount call.store)) [
          | inl unpaid ↦ refused_bond (inr (inr unpaid)) (ground (arith, unpaid, high))
          | inr (s', debited) ↦ applied_bond s' debited high
        ]
      ]

-- A bond never panics. It is refused with nothing changed, because the call does not parse, the sender
-- is no validator, its new stake would be below the minimum or the coin does not pay; or exactly the
-- amount that the call asks for, which is positive, leaves the coin that it names for the sender's
-- self-stake, which then is at least the minimum stake, with every other object and validator as it
-- was and the value in coins and stakes the same. The set's slice and index must agree, the counter
-- be that of the coins, the value fit uint64, and the named object be a coin.
pub handle_bond_lem :
    (coins : List Hash) (d : Dag) (tx : Tx)
    → IsSound coins d
    → NamesCoin coins tx
    → Decides coins d (RefusesBond d tx) (λ r. IsBonded d r tx) (handle_bond d tx)
unfolding handle_bond bond_of
handle_bond_lem coins d tx w named = elim (Option-cases (parse_stake_tx d tx bond_func)) [
  | inl bad ↦ inl (ground arith, inl bad)
  | inr (call, parsed) ↦
      let (there, sender, coin, _, _) = parse_stake_tx_lem d tx bond_func call parsed in
      let found = get-eq-view d.validators w.indexed call.sender in
      elim (Option-cases (view d.validators tx.sender)) [
        | inl stranger ↦ inl (
          ground (arith, parsed, found, sender, stranger),
          inr (call, parsed, inl (ground (arith, sender, stranger))),
        )
        | inr (info, member) ↦
            let same : handle_bond d tx ≡ bond_of d call (some (some info)) =
              ground (arith, parsed, found, sender, member) in
            subst (Decides coins d (RefusesBond d tx) (λ r. IsBonded d r tx)) (sym same)
              (bond_of_lem coins d w tx call parsed (named call.coin_id coin) info member)
      ]
]
