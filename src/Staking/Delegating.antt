-- ===== src/Staking/Delegating.antt =====
-- Delegation and its withdrawal (internal/consensus/commit.go). BLAKE3 is taken to give 32 bytes
-- and the positions' keys to be no coins' keys.
use blue_pods.Prelude.{
  ℕ, ◌+◌, ◌≤◌, ◌≡◌, refl, sym, subst, ◌∙◌, List, some, true, false, arith, length, Option-cases,
  Bool-cases, inl, inr,
}
use blue_pods.Types.{Hash, Tx, contains}
use blue_pods.Word.{u64_max, add64}
use blue_pods.Validators.{ValidatorInfo, add_delegated}
use blue_pods.Validators.Index.{view, get-eq-view}
use blue_pods.Coins.{State, strict_debit, set_object}
use blue_pods.Coins.Store.{AreBytes}
use blue_pods.Staking.{
  Dag, DelegateCall, decode_delegate_args, parse_delegate_tx, delegate_func, delegation_id,
  build_delegation_object, delegate_of, handle_delegate,
}
use blue_pods.Staking.Values.{stake_of, strict_debit-IsBacked, IsSound, stake-le_sum}
use blue_pods.Staking.Outcomes.{NamesCoin, settle_lem, Settles}
use blue_pods.Staking.Positions.{
  decode_delegate_args_lem, set_object-IsBacked, key-position, content-AreBytes,
  read_delegation_amount-set,
}
use blue_pods.Staking.DelegateCalls.{parse_delegate_tx_lem, principal}

-- The delegate call raised the validator's total by the amount, and the position holds the amount.
pub record Delegated (blake3 : List ℕ → Hash) (d r : Dag) (delegator validator : Hash) (amount : ℕ)
    : Type 0 where
  pub target : ValidatorInfo
  pub member : view d.validators validator ≡ some target
  pub free : target.jailed ≡ false
  pub raised :
      view r.validators validator
      ≡ some (record target { delegated_total = target.delegated_total + amount })
  pub position : principal blake3 delegator validator r ≡ some amount

module _ (blake3 : List ℕ → Hash) (coins : List Hash) (d : Dag) (w : IsSound coins d)
    (call : DelegateCall) (there : d.coin_store ≡ some call.store)
    (known : contains call.coin_id coins ≡ true)
    (digest : (bytes : List ℕ) → length (blake3 bytes) ≡ 32)
    (apart : contains (delegation_id blake3 call.delegator call.validator) coins ≡ false)
    (wide : length call.validator ≡ 32) (plain : AreBytes call.validator) (info : ValidatorInfo)
    (member : view d.validators call.validator ≡ some info) where
  word : call.store.counters.coins_total + stake_of info ≤ u64_max
  word = ground (arith, w.room, stake-le_sum d.validators call.validator info member)

  applied_delegate :
      (s : State)
      → call.amount ≤ u64_max
      → strict_debit call.coin_id call.amount call.store ≡ some s
      → info.jailed ≡ false
      → Settles coins d
          (λ r. Delegated blake3 d r call.delegator call.validator call.amount)
          (delegate_of blake3 d call (some (some info)))
  unfolding delegate_of add_delegated set_object
  applied_delegate s small debited free =
      let (backed, taken) =
        strict_debit-IsBacked coins call.store (w.backed call.store there) call.coin_id known
          call.amount s debited (omega (arith, word)) in
      let o = build_delegation_object blake3 call.delegator call.validator call.amount in
      let key =
        key-position blake3 call.delegator call.validator call.amount digest wide plain small in
      let stored =
        set_object-IsBacked coins s o backed
          (content-AreBytes blake3 call.delegator call.validator call.amount digest wide plain
            small)
          (subst (λ k. contains k coins ≡ false) (sym key) apart) in
      let exact : add64 info.delegated_total call.amount ≡ info.delegated_total + call.amount =
        omega (arith, word, taken) in
      let (r, done, sound, same, store, own) =
        settle_lem coins d w call.store (set_object o s) call.validator info there member stored
          (λ v. record v { delegated_total = add64 v.delegated_total call.amount }) (λ x. refl)
          (omega (arith, exact, taken)) in
      inr (
        r,
        ground (arith, debited, free, done),
        sound,
        same,
        record {
          target = info;
          member = member;
          free = free;
          raised = ground (arith, own, exact);
          position = ground (
            arith,
            store,
            read_delegation_amount-set blake3 call.delegator call.validator call.amount digest wide
                plain small s,
          );
        },
      )

  delegate_of_lem :
      call.amount ≤ u64_max
      → Settles coins d
          (λ r. Delegated blake3 d r call.delegator call.validator call.amount)
          (delegate_of blake3 d call (some (some info)))
  unfolding delegate_of
  delegate_of_lem small = elim (Bool-cases info.jailed) [
    | inl held ↦ inl (ground arith)
    | inr free ↦ elim (Option-cases (strict_debit call.coin_id call.amount call.store)) [
      | inl refused ↦ inl (ground (arith, refused, free))
      | inr (s, debited) ↦ applied_delegate s small debited free
    ]
  ]

-- A delegate call never panics. It is refused with nothing changed, or the value in coins and
-- stakes stays the same, the validator is a member that is not jailed and whose total rises by the
-- amount, and the position then holds that amount, whatever it held before: the second delegation
-- to a validator replaces the first one's principal. The state must be sound, the call name a
-- coin, its arguments be bytes, BLAKE3 give 32 bytes and the sender's positions be no coins.
pub handle_delegate_lem :
    (blake3 : List ℕ → Hash) (coins : List Hash) (d : Dag) (tx : Tx)
    → IsSound coins d
    → NamesCoin coins tx
    → AreBytes tx.args
    → ((bytes : List ℕ) → length (blake3 bytes) ≡ 32)
    → ((v : Hash) → contains (delegation_id blake3 tx.sender v) coins ≡ false)
    → Settles coins d
        (λ r.
          (v : Hash) × (n : ℕ) × (decode_delegate_args tx.args true ≡ some (v, n))
          × Delegated blake3 d r tx.sender v n)
        (handle_delegate blake3 d tx)
unfolding handle_delegate delegate_of
handle_delegate_lem blake3 coins d tx w named bytes digest apart =
    elim (Option-cases (parse_delegate_tx d tx delegate_func true)) [
      | inl bad ↦ inl (ground arith)
      | inr (call, parsed) ↦
          let (there, sender, coin, args) =
            parse_delegate_tx_lem d tx delegate_func true call parsed in
          let (wide, plain, small) =
            decode_delegate_args_lem tx.args true call.validator call.amount bytes args in
          let found = get-eq-view d.validators w.indexed call.validator in
          elim (Option-cases (view d.validators call.validator)) [
            | inl stranger ↦ inl (ground (arith, found))
            | inr (info, member) ↦
                let same : handle_delegate blake3 d tx
                    ≡ delegate_of blake3 d call (some (some info)) =
                  ground (arith, parsed, found, member) in
                let own =
                  subst (λ a. contains (delegation_id blake3 a call.validator) coins ≡ false)
                    (sym sender) (apart call.validator) in
                elim (delegate_of_lem blake3 coins d w call there (named call.coin_id coin) digest
                  own wide plain info member small) [
                    | inl e ↦ inl (same ∙ e)
                    | inr (r, done, sound, level, gives) ↦ inr (
                      r,
                      same ∙ done,
                      sound,
                      level,
                      (
                        call.validator,
                        call.amount,
                        args,
                        subst (λ a. Delegated blake3 d r a call.validator call.amount) sender gives,
                      ),
                    )
                  ]
          ]
    ]
