-- ===== src/Staking/Withdrawing.antt =====
-- Withdrawing a delegation (internal/consensus/commit.go).
use blue_pods.Prelude.{
  ℕ, ◌+◌, ◌-◌, ◌≤◌, ◌≡◌, refl, sym, subst, ◌∙◌, List, none, some, true, false, ltb, if◌then◌else◌,
  arith, Option-cases, inl, inr, bytes_eq_refl,
}
use blue_pods.Types.{Hash, Tx, contains}
use blue_pods.Word.{u64_max, sub64}
use blue_pods.Validators.{ValidatorInfo, sub_delegated}
use blue_pods.Validators.Index.{view}
use blue_pods.Coins.{State, credit_coin, delete_object, get_object}
use blue_pods.Staking.{
  Dag, DelegateCall, decode_delegate_args, parse_delegate_tx, undelegate_func, delegation_id,
  read_delegation_amount, undelegate_of, handle_undelegate,
}
use blue_pods.Staking.Values.{stake_of, credit_coin-IsBacked, IsSound, stake-le_sum}
use blue_pods.Staking.Outcomes.{NamesCoin, settle_lem, Settles}
use blue_pods.Staking.Positions.{delete_object-IsBacked}
use blue_pods.Staking.DelegateCalls.{parse_delegate_tx_lem, principal}

-- The undelegate call took the position's amount from the validator's total and the position is
-- gone.
pub record Withdrawn (blake3 : List ℕ → Hash) (d r : Dag) (delegator validator : Hash)
    : Type 0 where
  pub held : ℕ
  pub position : principal blake3 delegator validator d ≡ some held
  pub target : ValidatorInfo
  pub member : view d.validators validator ≡ some target
  pub lowered :
      view r.validators validator
      ≡ some (record target { delegated_total = target.delegated_total - held })
  pub gone : principal blake3 delegator validator r ≡ none

module _ (blake3 : List ℕ → Hash) (coins : List Hash) (d : Dag) (w : IsSound coins d)
    (call : DelegateCall) (there : d.coin_store ≡ some call.store)
    (known : contains call.coin_id coins ≡ true)
    (apart : contains (delegation_id blake3 call.delegator call.validator) coins ≡ false) (held : ℕ)
    (position : principal blake3 call.delegator call.validator d ≡ some held) (info : ValidatorInfo)
    (member : view d.validators call.validator ≡ some info)
    (covered : held ≤ info.delegated_total) where
  abbrev pos_id : Hash
  pos_id = delegation_id blake3 call.delegator call.validator

  gone_after :
      (s : State)
      → read_delegation_amount blake3 pos_id call.validator (delete_object pos_id s) ≡ none
  unfolding read_delegation_amount get_object delete_object
  gone_after s = ground (arith, bytes_eq_refl pos_id)

  applied_undelegate :
      (s : State)
      → credit_coin call.coin_id held call.store ≡ some s
      → Settles coins d
          (λ r. Withdrawn blake3 d r call.delegator call.validator)
          (undelegate_of blake3 d call pos_id (some held))
  unfolding undelegate_of sub_delegated delete_object
  applied_undelegate s credited =
      let word : call.store.counters.coins_total + stake_of info ≤ u64_max =
        ground (arith, w.room, stake-le_sum d.validators call.validator info member) in
      let (backed, given) =
        credit_coin-IsBacked coins call.store (w.backed call.store there) call.coin_id known held s
          (omega (arith, word)) credited in
      let stored = delete_object-IsBacked coins s pos_id backed apart in
      let less = λ (v : ValidatorInfo). record v {
        delegated_total = if ltb v.delegated_total held then 0 else sub64 v.delegated_total held;
      } in
      let exact : (less info).delegated_total ≡ info.delegated_total - held =
        ground (arith, word) in
      let (r, done, sound, same, store, own) =
        settle_lem coins d w call.store (delete_object pos_id s) call.validator info there member
          stored less (λ x. refl) (omega (arith, exact, given)) in
      inr (
        r,
        ground (arith, credited, done),
        sound,
        same,
        record {
          held = held;
          position = position;
          target = info;
          member = member;
          lowered = ground (arith, own, exact);
          gone = ground (arith, store, gone_after s);
        },
      )

  undelegate_of_lem :
      Settles coins d
        (λ r. Withdrawn blake3 d r call.delegator call.validator)
        (undelegate_of blake3 d call pos_id (some held))
  unfolding undelegate_of
  undelegate_of_lem = elim (Option-cases (credit_coin call.coin_id held call.store)) [
    | inl refused ↦ inl (ground (arith, refused))
    | inr (s, credited) ↦ applied_undelegate s credited
  ]

-- An undelegate call never panics. It is refused with nothing changed, or the value in coins and
-- stakes stays the same, what the sender's position held leaves the validator's total, and the
-- position is gone. The state must be sound, the call name a coin, the sender's positions be no
-- coins, and the validator of each of them be a member whose total covers it.
pub handle_undelegate_lem :
    (blake3 : List ℕ → Hash) (coins : List Hash) (d : Dag) (tx : Tx)
    → IsSound coins d
    → NamesCoin coins tx
    → ((v : Hash) → contains (delegation_id blake3 tx.sender v) coins ≡ false)
    → ((v : Hash) (n : ℕ)
        → principal blake3 tx.sender v d ≡ some n
        → (info : ValidatorInfo) × (view d.validators v ≡ some info) × (n ≤ info.delegated_total))
    → Settles coins d
        (λ r.
          (v : Hash) × (n : ℕ) × (decode_delegate_args tx.args false ≡ some (v, n))
          × Withdrawn blake3 d r tx.sender v)
        (handle_undelegate blake3 d tx)
unfolding handle_undelegate
handle_undelegate_lem blake3 coins d tx w named apart covers =
    elim (Option-cases (parse_delegate_tx d tx undelegate_func false)) [
      | inl bad ↦ inl (ground arith)
      | inr (call, parsed) ↦
          let (there, sender, coin, args) =
            parse_delegate_tx_lem d tx undelegate_func false call parsed in
          elim (Option-cases (principal blake3 call.delegator call.validator d)) [
            | inl missing ↦ inl (unfold undelegate_of in ground (arith, parsed, there, missing))
            | inr (held, position) ↦
                let at_sender =
                  subst (λ a. principal blake3 a call.validator d ≡ some held) sender position in
                let (info, member, covered) = covers call.validator held at_sender in
                let own =
                  subst (λ a. contains (delegation_id blake3 a call.validator) coins ≡ false)
                    (sym sender) (apart call.validator) in
                let same : handle_undelegate blake3 d tx
                    ≡ undelegate_of blake3 d call
                        (delegation_id blake3 call.delegator call.validator) (some held) =
                  ground (arith, parsed, there, position) in
                elim (undelegate_of_lem blake3 coins d w call there (named call.coin_id coin) own
                  held position info member covered) [
                    | inl e ↦ inl (same ∙ e)
                    | inr (r, done, sound, level, gives) ↦ inr (
                      r,
                      same ∙ done,
                      sound,
                      level,
                      (
                        call.validator,
                        call.amount,
                        args,
                        subst (λ a. Withdrawn blake3 d r a call.validator) sender gives,
                      ),
                    )
                  ]
          ]
    ]
