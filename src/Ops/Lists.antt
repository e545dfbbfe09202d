-- ===== src/Ops/Lists.antt =====
-- Lists of operations: all or nothing, and as the staged view has them.
use blue_pods.Prelude.{
  ℕ, ◌≡◌, refl, sym, List, [], ◌∷◌, Option, none, some, Bool, true, false, not, ◌==◌, ◌||◌,
  bytes_eq, arith, Bool-cases, Option-cases, inl, inr, ◌⊎◌, length, subst,
}
use blue_pods.Types.{Hash, DeclaredOp}
use blue_pods.Fees.{FeeParams}
use blue_pods.Registry.{Registry, zero_key}
use blue_pods.Registry.Leaves.{IsRegistry}
use blue_pods.Staged.{StagedView, new_staged_view, staged_parent, staged_domain, validate, hash32}
use blue_pods.Ops.{
  OpsState, OpsTx, apply_declared_ops, validate_all, mutable_ref_id_set, handle_declared_ops,
}
use blue_pods.Ops.Simulation.{Shows, apply_op_lem}

module _ (params : FeeParams) (epoch : ℕ) (sender : Hash) (refs : List Hash)
    (gas_coin : Option Hash) (wide : length sender ≡ 32) where
  apply_declared_ops_lem :
      (ops : List DeclaredOp) (s s' : StagedView) (st : OpsState)
      → Shows params epoch s st
      → validate_all sender refs ops s ≡ some s'
      → (st' : OpsState) × (apply_declared_ops sender gas_coin epoch params.max_term_epochs ops st
          ≡ some st')
        × Shows params epoch s' st'
  unfolding validate_all apply_declared_ops
  apply_declared_ops_lem [] s s' st shown e =
      let same : s ≡ s' = cc in
      (st, refl, subst (λ (v : StagedView). Shows params epoch v st) same shown)
  apply_declared_ops_lem (op ∷ ops) s s' st shown e =
      elim (Option-cases (validate sender op refs s)) [
        | inl refused ↦ absurd (ground (arith, e, refused))
        | inr (mid, step) ↦
            let (next, done, shown') =
              apply_op_lem params epoch sender op refs s mid st shown gas_coin wide step in
            let (last, rest, shown'') =
              apply_declared_ops_lem ops mid s' next shown' (ground (arith, e, step)) in
            (last, rw (done, rest) refl, shown'')
      ]

-- The view that the validation starts from.
abbrev pub first_view : FeeParams → ℕ → OpsState → StagedView
first_view params epoch st =
    new_staged_view st.ledger.tracker st.domains epoch params.max_term_epochs

abbrev pub HasRegistry : OpsState → Type 0
HasRegistry st = (st.domains ≡ none) ⊎ ((r : Registry) × (st.domains ≡ some r) × IsRegistry r)

first_view-Shows :
    (params : FeeParams) (epoch : ℕ) (st : OpsState)
    → st.ledger.fee_params ≡ some params
    → HasRegistry st
    → Shows params epoch (first_view params epoch st) st
unfolding staged_parent staged_domain
first_view-Shows params epoch st wired registry = record {
  edges = λ k. refl;
  leaves = elim registry [
    | inl off ↦ inl (off, off)
    | inr (r, on, wf) ↦ inr (r, r, on, on, wf, λ name. refl)
  ];
  wired = wired;
  dated = refl;
  capped = refl;
}

-- What becomes of a list of operations: it is refused with nothing changed, or every operation is
-- valid in the view that the ones before it leave, and the state ends as the last view shows it.
abbrev pub Handled : FeeParams → ℕ → OpsTx → OpsState → OpsState → Bool → Type 0
Handled params epoch call st st' success =
    ((success ≡ false) × (st' ≡ st))
    ⊎ ((success ≡ true)
        × ((s' : StagedView) × (validate_all call.tx.sender
                (mutable_ref_id_set call.tx.mutable_refs) call.operations
                (first_view params epoch st)
              ≡ some s')
            × Shows params epoch s' st'))

-- `handleDeclaredOps` does not panic when fee parameters are wired and the registry holds leaves of
-- the right widths. It refuses the list and changes nothing, or every operation is valid in the view
-- that the operations before it staged, and the parent edges and the leaves it leaves behind are
-- those of the last view.
pub handle_declared_ops_lem :
    (call : OpsTx) (epoch : ℕ) (st : OpsState) (params : FeeParams)
    → st.ledger.fee_params ≡ some params
    → HasRegistry st
    → (st' : OpsState) × (success : Bool) × (handle_declared_ops call epoch st
        ≡ some (st', success))
      × Handled params epoch call st st' success
unfolding handle_declared_ops
handle_declared_ops_lem call epoch st params wired registry =
    elim (Bool-cases (not (length call.tx.sender == 32) || bytes_eq call.tx.sender zero_key)) [
      | inl malformed ↦ (st, false, ground (arith, malformed), inl (refl, refl))
      | inr sent ↦ elim (Bool-cases (length call.operations == 0)) [
        | inl nothing ↦ (st, false, ground (arith, sent, nothing), inl (refl, refl))
        | inr some_ops ↦
            let refs = mutable_ref_id_set call.tx.mutable_refs in
            elim (Option-cases
              (validate_all call.tx.sender refs call.operations (first_view params epoch st))) [
                | inl refused ↦
                    (st, false, ground (arith, sent, some_ops, wired, refused), inl (refl, refl))
                | inr (s', valid) ↦
                    let wide : length call.tx.sender ≡ 32 = ground (arith, sent) in
                    let (st', done, shown) =
                      apply_declared_ops_lem params epoch call.tx.sender refs (hash32 call.gas_coin)
                        wide call.operations (first_view params epoch st) s' st
                        (first_view-Shows params epoch st wired registry) valid in
                    let capped =
                      subst
                        (λ (x : ℕ).
                          apply_declared_ops call.tx.sender (hash32 call.gas_coin) epoch x
                            call.operations st
                          ≡ some st')
                        (sym shown.capped) done in
                    (
                      st',
                      true,
                      ground (arith, sent, some_ops, wired, valid, capped),
                      inr (refl, (s', valid, shown)),
                    )
              ]
      ]
    ]
