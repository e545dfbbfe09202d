-- ===== src/Distribution/Compounding.antt =====
-- Rewards that compound into delegation positions (internal/consensus/epoch.go).
use blue_pods.Prelude.{
  ℕ, ◌+◌, ◌≤◌, ◌≡◌, refl, sym, subst, List, [], ◌∷◌, some, Bool, true, false, ◌==◌, if◌then◌else◌,
  arith, length, Option-cases, Bool-cases, inl, inr,
}
use blue_pods.Types.{Hash, contains}
use blue_pods.Word.{u64_max, safe_add, add64, safe_add-le}
use blue_pods.Validators.{ValidatorInfo, add_delegated}
use blue_pods.Validators.Index.{view}
use blue_pods.Coins.{State, set_object}
use blue_pods.Coins.Store.{AreBytes}
use blue_pods.Coins.Backing.{IsBacked}
use blue_pods.Staking.{Dag, settle, delegation_id, build_delegation_object, read_delegation_amount}
use blue_pods.Staking.Values.{sum_stakes-update, worth, IsSound, stake-le_sum}
use blue_pods.Staking.Positions.{set_object-IsBacked, key-position, content-AreBytes}
use blue_pods.Rewards.{DelegatorShare}
use blue_pods.Rewards.Split.{sum_amounts}
use blue_pods.Distribution.{compound_delegation, delegators_loop, credit_delegators}

-- What the loop over the delegators keeps: a sound DAG with a store, in which the validator is a
-- member with the given self-stake.
pub record IsReady (coins : List Hash) (validator : Hash) (stake : ℕ) (d : Dag) : Type 0 where
  pub sound : IsSound coins d
  pub store : State
  pub stored : d.coin_store ≡ some store
  pub info : ValidatorInfo
  pub member : view d.validators validator ≡ some info
  pub own : info.self_stake ≡ stake

module _ (blake3 : List ℕ → Hash) (keys coins : List Hash) (validator : Hash)
    (digest : (bytes : List ℕ) → length (blake3 bytes) ≡ 32)
    (apart : (delegator : Hash) → contains (delegation_id blake3 delegator validator) coins ≡ false)
    (wide : length validator ≡ 32) (plain : AreBytes validator) (stake : ℕ) where
  raised_lem :
      (delegator : Hash) (reward amount : ℕ) (d : Dag) (w : IsReady coins validator stake d)
      → amount ≤ u64_max
      → worth d + reward ≤ u64_max
      → (r : Dag) × (settle d
            (some (set_object (build_delegation_object blake3 delegator validator amount) w.store))
            (add_delegated validator reward d.validators)
          ≡ some (r, true))
        × IsReady coins validator stake r
        × (worth r ≡ worth d + reward)
  unfolding settle add_delegated set_object
  raised_lem delegator reward amount d w word room =
      let more =
        λ (v : ValidatorInfo). record v { delegated_total = add64 v.delegated_total reward } in
      let (vs, done, i, own, sum) =
        sum_stakes-update more validator d.validators w.info w.sound.indexed w.member (λ x. refl) in
      let most = stake-le_sum d.validators validator w.info w.member in
      let exact : (more w.info).delegated_total ≡ w.info.delegated_total + reward =
        omega (arith, most, room) in
      let o = build_delegation_object blake3 delegator validator amount in
      let key = key-position blake3 delegator validator amount digest wide plain word in
      let backed =
        set_object-IsBacked coins w.store o (w.sound.backed w.store w.stored)
          (content-AreBytes blake3 delegator validator amount digest wide plain word)
          (subst (λ k. contains k coins ≡ false) (sym key) (apart delegator)) in
      let s = set_object o w.store in
      let r = record d { coin_store = some s; validators = vs } in
      let grown : worth r ≡ worth d + reward = ground (arith, sum, exact, w.stored) in
      (
        r,
        ground (arith, done),
        record {
          sound = record {
            indexed = i;
            backed = λ x e. subst (IsBacked coins) (ground arith) backed;
            room = omega (arith, grown, room);
          };
          store = s;
          stored = refl;
          info = more w.info;
          member = own;
          own = w.own;
        },
        grown,
      )

  compound_delegation_lem :
      (delegator : Hash) (reward : ℕ) (d : Dag) (w : IsReady coins validator stake d)
      → worth d + reward ≤ u64_max
      → (r : Dag) × (raised : Bool) × (compound_delegation blake3 keys delegator validator reward d
          ≡ some (r, raised))
        × IsReady coins validator stake r
        × (worth r ≡ worth d + (if raised then reward else 0))
  unfolding compound_delegation
  compound_delegation_lem delegator reward d w room =
      let stored = w.stored in
      elim (Bool-cases (reward == 0)) [
        | inl nothing ↦ (d, false, ground (arith, nothing), w, omega arith)
        | inr positive ↦
            elim (Option-cases (
              read_delegation_amount blake3 (delegation_id blake3 delegator validator) validator
                w.store)) [
                  | inl missing ↦
                      (d, false, ground (arith, positive, stored, missing), w, omega arith)
                  | inr (current, held) ↦
                      let (r, done, ready, grown) =
                        raised_lem delegator reward (safe_add current reward) d w
                          (safe_add-le current reward) room in
                      (r, true, ground (arith, positive, stored, held, done), ready, grown)
                ]
      ]

  delegators_loop_lem :
      (dels : List DelegatorShare) (credited : ℕ) (d : Dag)
      → IsReady coins validator stake d
      → worth d + sum_amounts dels ≤ u64_max
      → credited + sum_amounts dels ≤ u64_max
      → (r : Dag) × (more : ℕ) × (delegators_loop blake3 keys dels validator credited d
          ≡ some (r, credited + more))
        × IsReady coins validator stake r
        × (worth r ≡ worth d + more)
        × (more ≤ sum_amounts dels)
  unfolding delegators_loop
  delegators_loop_lem [] credited d w room word = (d, 0, ground arith, w, omega arith, omega arith)
  delegators_loop_lem (del ∷ dels) credited d w room word =
      let (d', raised, done, ready, grown) =
        compound_delegation_lem del.delegator del.amount d w (omega (arith, room)) in
      let paid = if raised then del.amount else 0 in
      let small : paid ≤ del.amount = ground arith in
      let next = if raised then add64 credited del.amount else credited in
      let sum : next ≡ credited + paid = ground (arith, word) in
      let (r, more, rest, last, gained, bound) =
        delegators_loop_lem dels next d' ready (omega (arith, grown, small, room))
          (omega (arith, sum, small, word)) in
      (
        r,
        paid + more,
        ground (arith, done, rest, sum),
        last,
        omega (arith, gained, grown),
        omega (arith, bound, small),
      )

-- Compounding the delegators' rewards never panics, and what it reports is what the validator's
-- stake gains, at most the rewards' sum. The validator keeps its self-stake. The state must be
-- sound with a store, the validator be a member with a 32-byte key, BLAKE3 give 32 bytes, its positions be no coins, and the value after
-- all rewards fit uint64.
pub credit_delegators_lem :
    (blake3 : List ℕ → Hash) (keys coins : List Hash) (validator : Hash) (stake : ℕ)
    (payouts : List DelegatorShare) (d : Dag)
    → ((bytes : List ℕ) → length (blake3 bytes) ≡ 32)
    → ((delegator : Hash) → contains (delegation_id blake3 delegator validator) coins ≡ false)
    → length validator ≡ 32
    → AreBytes validator
    → IsReady coins validator stake d
    → worth d + sum_amounts payouts ≤ u64_max
    → (r : Dag) × (credited : ℕ) × (credit_delegators blake3 keys payouts validator d
        ≡ some (r, credited))
      × IsReady coins validator stake r
      × (worth r ≡ worth d + credited)
      × (credited ≤ sum_amounts payouts)
unfolding credit_delegators
credit_delegators_lem blake3 keys coins validator stake payouts d digest apart wide plain w room =
    let (r, more, done, ready, grown, bound) =
      delegators_loop_lem blake3 keys coins validator digest apart wide plain stake payouts 0 d w
        room (omega (arith, room)) in
    (r, more, ground (arith, done), ready, grown, bound)
