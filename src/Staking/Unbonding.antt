-- ===== src/Staking/Unbonding.antt =====
-- Unbonding (internal/consensus/commit.go) moves value, and neither makes nor loses any.
use blue_pods.Prelude.{
  refl, ℕ, ◌+◌, ◌≤◌, ◌<◌, ◌≡◌, ◌⊎◌, sym, subst, List, none, some, Bool, true, false, ltb, ◌&&◌, ◌-◌,
  arith, Option-cases, Bool-cases, inl, inr,
}
use blue_pods.Types.{Hash, Tx, contains}
use blue_pods.Word.{u64_max}
use blue_pods.Validators.{set_self_stake, ValidatorInfo}
use blue_pods.Validators.Index.{view, get-eq-view}
use blue_pods.Coins.{State, credit_coin}
use blue_pods.Coins.Balance.{balance}
use blue_pods.Staking.{
  Dag, StakeCall, parse_stake_tx, settle, unbond_of, unbond_func, handle_unbond,
}
use blue_pods.Staking.Values.{stake_of, credit_coin-IsBacked, IsSound, stake-le_sum}
use blue_pods.Staking.Outcomes.{NamesCoin, parse_stake_tx_lem, settle_lem, Decides}
use blue_pods.Staking.Moving.{StakeMove, credit_coin_gives, settle_rest}

abbrev pub IsFloored : Dag → ℕ → Type 0
IsFloored d stake = (stake ≡ 0) ⊎ (d.min_stake ≤ stake)

-- The amount left the self-stake for the coin, and what remains is zero or at least the minimum stake.
pub record IsUnbonded (d r : Dag) (tx : Tx) : Type 0 where
  pub move : StakeMove d r tx
  pub given : balance move.coins' move.coin ≡ balance move.coins move.coin + move.amount
  pub lowered : move.stake + move.amount ≡ move.info.self_stake
  pub floored : IsFloored d move.stake

-- Why a parsed unbond is refused: the sender is no validator, its stake does not cover the amount,
-- what remains would be positive and below the minimum, or the coin takes no credit.
abbrev RefusesCall : Dag → StakeCall → Type 0
RefusesCall d call =
    (view d.validators call.sender ≡ none)
    ⊎ ((info : ValidatorInfo) × (view d.validators call.sender ≡ some info)
        × ((info.self_stake < call.amount)
            ⊎ ((call.amount < info.self_stake) × (info.self_stake - call.amount < d.min_stake))))
    ⊎ (credit_coin call.coin_id call.amount call.store ≡ none)

abbrev pub RefusesUnbond : Dag → Tx → Type 0
RefusesUnbond d tx =
    (parse_stake_tx d tx unbond_func ≡ none)
    ⊎ ((call : StakeCall) × (parse_stake_tx d tx unbond_func ≡ some call) × RefusesCall d call)

module _ (coins : List Hash) (d : Dag) (w : IsSound coins d) (tx : Tx) (call : StakeCall)
    (parsed : parse_stake_tx d tx unbond_func ≡ some call)
    (known : contains call.coin_id coins ≡ true) (info : ValidatorInfo)
    (member : view d.validators tx.sender ≡ some info) where
  there : d.coin_store ≡ some call.store
  there = (parse_stake_tx_lem d tx unbond_func call parsed).0

  word : call.store.counters.coins_total + stake_of info ≤ u64_max
  word = ground (arith, there, w.room, stake-le_sum d.validators tx.sender info member)

  dips : Bool
  dips =
      let remaining = info.self_stake - call.amount in
      ltb 0 d.min_stake && (ltb 0 remaining && ltb remaining d.min_stake)

  applied_unbond :
      (s' : State)
      → credit_coin call.coin_id call.amount call.store ≡ some s'
      → ltb info.self_stake call.amount ≡ false
      → dips ≡ false
      → Decides coins d
          (RefusesUnbond d tx)
          (λ r. IsUnbonded d r tx)
          (unbond_of d call (some (some info)))
  unfolding unbond_of dips set_self_stake
  applied_unbond s' credited enough floor =
      let (_, sender, coin, asked, positive) = parse_stake_tx_lem d tx unbond_func call parsed in
      let store = (w.backed call.store there).store in
      let within : call.amount ≤ info.self_stake = ground arith in
      let (backed, gained) =
        credit_coin-IsBacked coins call.store (w.backed call.store there) call.coin_id known
          call.amount s' (omega (arith, word)) credited in
      let (given, others) =
        credit_coin_gives call.store s' store call.coin_id call.amount positive
          (omega (arith, word)) credited in
      let stake = info.self_stake - call.amount in
      let (r, done, sound, same, held, own) =
        settle_lem coins d w call.store s' tx.sender info there member backed
          (λ v. record v { self_stake = stake }) (λ x. refl) (omega (arith, gained)) in
      inr (
        r,
        ground (arith, credited, enough, floor, sender, done),
        sound,
        same,
        record {
          move = record {
            coin = call.coin_id;
            amount = call.amount;
            named = coin;
            asked = asked;
            positive = positive;
            coins = call.store;
            coins' = s';
            held = there;
            held' = held;
            others = others;
            info = info;
            stake = stake;
            member = member;
            changed = own;
            rest =
                settle_rest d r s' tx.sender (λ v. record v { self_stake = stake }) w.indexed
                  (λ x. refl) done;
          };
          given = given;
          lowered = omega (arith, within);
          floored = ground (arith, floor);
        },
      )

  refused_unbond :
      RefusesCall d call
      → unbond_of d call (some (some info)) ≡ some (d, false)
      → Decides coins d
          (RefusesUnbond d tx)
          (λ r. IsUnbonded d r tx)
          (unbond_of d call (some (some info)))
  refused_unbond reason e = inl (e, inr (call, parsed, reason))

  unbond_of_lem :
      Decides coins d
        (RefusesUnbond d tx)
        (λ r. IsUnbonded d r tx)
        (unbond_of d call (some (some info)))
  unfolding unbond_of settle dips
  unbond_of_lem =
      let sender = (parse_stake_tx_lem d tx unbond_func call parsed).1 in
      let here : view d.validators call.sender ≡ some info = ground (arith, sender, member) in
      elim (Bool-cases (ltb info.self_stake call.amount)) [
        | inl short ↦
            refused_unbond (inr (inl (info, here, inl (ground (arith, short)))))
              (ground (arith, short))
        | inr enough ↦ elim (Bool-cases dips) [
          | inl low ↦
              refused_unbond (inr (inl (info, here, inr (ground (arith, low)))))
                (ground (arith, enough, low))
          | inr floor ↦ elim (Option-cases (credit_coin call.coin_id call.amount call.store)) [
            | inl failed ↦ refused_unbond (inr (inr failed)) (ground (arith, failed, enough, floor))
            | inr (s', credited) ↦ applied_unbond s' credited enough floor
          ]
        ]
      ]

-- An unbond never panics. It is refused with nothing changed, because the call does not parse, the
-- sender is no validator, its self-stake does not cover the amount, what remains would be positive and
-- below the minimum stake, or the coin takes no credit; or exactly the amount that the call asks for,
-- which is positive, leaves the sender's self-stake for the coin that it names, what remains is zero or
-- at least the minimum stake, and every other object and validator is as it was and the value in coins
-- and stakes the same. The conditions are those of a bond.
pub handle_unbond_lem :
    (coins : List Hash) (d : Dag) (tx : Tx)
    → IsSound coins d
    → NamesCoin coins tx
    → Decides coins d (RefusesUnbond d tx) (λ r. IsUnbonded d r tx) (handle_unbond d tx)
unfolding handle_unbond unbond_of
handle_unbond_lem coins d tx w named = elim (Option-cases (parse_stake_tx d tx unbond_func)) [
  | inl bad ↦ inl (ground arith, inl bad)
  | inr (call, parsed) ↦
      let (there, sender, coin, _, _) = parse_stake_tx_lem d tx unbond_func call parsed in
      let found = get-eq-view d.validators w.indexed call.sender in
      elim (Option-cases (view d.validators tx.sender)) [
        | inl stranger ↦ inl (
          ground (arith, parsed, found, sender, stranger),
          inr (call, parsed, inl (ground (arith, sender, stranger))),
        )
        | inr (info, member) ↦
            let same : handle_unbond d tx ≡ unbond_of d call (some (some info)) =
              ground (arith, parsed, found, sender, member) in
            subst (Decides coins d (RefusesUnbond d tx) (λ r. IsUnbonded d r tx)) (sym same)
              (unbond_of_lem coins d w tx call parsed (named call.coin_id coin) info member)
      ]
]
