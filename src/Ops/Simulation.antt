-- ===== src/Ops/Simulation.antt =====
-- The staged view and the committed state walk through the same states: what an operation stages is
-- what its application makes of the tracker and the registry.
use blue_pods.Prelude.{
  ℕ, ◌≡◌, sym, ◌∙◌, ap, List, Option, none, some, ◌==◌, if◌then◌else◌, bytes_eq, arith, Bool-cases,
  inl, inr, ◌⊎◌, length, subst,
}
use blue_pods.Types.{Hash, DeclaredOp, reparent_op, delete_op}
use blue_pods.Fees.{FeeParams}
use blue_pods.Tracker.{get_parent}
use blue_pods.Tracker.Parents.{get_parent-set_parent, get_parent-delete_object}
use blue_pods.Registry.{Name, Registry, DomainLeafView, domain_leaf, set_domain_leaf, delete}
use blue_pods.Registry.Leaves.{
  IsRegistry, domain_leaf-set_domain_leaf, domain_leaf-delete, set_domain_leaf-IsRegistry,
  delete-IsRegistry,
}
use blue_pods.Staged.{StagedView, staged_parent, staged_domain, stage_domain, validate}
use blue_pods.Staged.Overlay.{
  staged_parent-stage_reparent, staged_parent-stage_delete, stage_reparent_lem, stage_delete_lem,
  staged_domain-stage_domain,
}
use blue_pods.Ops.{
  OpsState, apply_domain, remove_domain, apply_reparent, apply_delete, apply_domain_delete,
  apply_domain_op, write_domain_leaf, apply_op,
}
use blue_pods.Ops.Edges.{
  Reparented, Dropped, validate_reparent_lem, validate_delete_lem, apply_reparent_lem,
  apply_delete_lem, controls_alive, call_index_lem,
}
use blue_pods.Ops.Domains.{Written, DomainStep, validate_domain_op_lem, removed_view}

-- The registries are both missing, or hold the same leaves.
abbrev SameLeaves : StagedView → OpsState → Type 0
SameLeaves s st =
    ((s.ds ≡ none) × (st.domains ≡ none))
    ⊎ ((ds : Registry) × (r : Registry) × (s.ds ≡ some ds)
        × (st.domains ≡ some r)
        × IsRegistry r
        × ((name : Name) → domain_leaf name r ≡ staged_domain ds name s))

-- A staged view that shows a state: its edges and its leaves are those of the state.
pub record Shows (params : FeeParams) (epoch : ℕ) (s : StagedView) (st : OpsState) : Type 0 where
  pub edges : (k : Hash) → get_parent k st.ledger.tracker ≡ staged_parent k s
  pub leaves : SameLeaves s st
  pub wired : st.ledger.fee_params ≡ some params
  pub dated : s.epoch ≡ epoch
  pub capped : s.max_term ≡ params.max_term_epochs

-- A change of the edges keeps the leaves.
leaves_kept :
    (s s' : StagedView) (st st' : OpsState)
    → s'.ds ≡ s.ds
    → st'.domains ≡ st.domains
    → ((ds : Registry) (name : Name) → staged_domain ds name s' ≡ staged_domain ds name s)
    → SameLeaves s st
    → SameLeaves s' st'
leaves_kept s s' st st' ds domains same (inl (off, off')) = inl (ds ∙ off, domains ∙ off')
leaves_kept s s' st st' ds domains same (inr (d, r, on, on', wf, held)) =
    inr (d, r, ds ∙ on, domains ∙ on', wf, λ name. held name ∙ sym (same d name))

module _ (params : FeeParams) (epoch : ℕ) (sender : Hash) (op : DeclaredOp) (refs : List Hash)
    (s s' : StagedView) (st : OpsState) (shown : Shows params epoch s st) where
  reparent_step : Reparented sender op refs s s' → Shows params epoch s' (apply_reparent op st)
  unfolding staged_domain
  reparent_step h =
      let (tracker, fees, domains) = apply_reparent_lem op st h.id_wide h.target_wide in
      let alive = controls_alive sender op.object_id s h.held in
      let (f, made) = stage_reparent_lem op.object_id op.target_kind op.target s in
      let at = sym made ∙ h.staged in
      record {
        edges = λ k.
            ap (get_parent k) tracker
            ∙ get_parent-set_parent op.object_id op.target_kind op.target st.ledger.tracker k
                h.target_wide
            ∙ ap
                (λ (e : Option (ℕ × Hash)).
                  if bytes_eq op.object_id k then some (op.target_kind, op.target) else e)
                (shown.edges k)
            ∙ sym (staged_parent-stage_reparent op.object_id op.target_kind op.target s alive k)
            ∙ ap (staged_parent k) h.staged;
        leaves =
            leaves_kept s s' st (apply_reparent op st) (ap (λ (v : StagedView). v.ds) (sym at))
              domains (λ ds name. ap (staged_domain ds name) (sym at)) shown.leaves;
        wired = fees ∙ shown.wired;
        dated = ap (λ (v : StagedView). v.epoch) (sym at) ∙ shown.dated;
        capped = ap (λ (v : StagedView). v.max_term) (sym at) ∙ shown.capped;
      }

  delete_step :
      (gas_coin : Option Hash)
      → Dropped sender op refs s s'
      → (st' : OpsState) × (apply_delete gas_coin op st ≡ some st') × Shows params epoch s' st'
  unfolding staged_domain
  delete_step gas_coin h =
      let (st', done, tracker, fees, domains) =
        apply_delete_lem gas_coin op st params h.id_wide shown.wired in
      let (f, made) = stage_delete_lem op.object_id s in
      let at = sym made ∙ h.staged in
      (
        st',
        done,
        record {
          edges = λ k.
              ap (get_parent k) tracker
              ∙ get_parent-delete_object op.object_id st.ledger.tracker k
              ∙ ap (λ (e : Option (ℕ × Hash)). if bytes_eq op.object_id k then none else e)
                  (shown.edges k)
              ∙ sym (staged_parent-stage_delete op.object_id s k)
              ∙ ap (staged_parent k) h.staged;
          leaves =
              leaves_kept s s' st st' (ap (λ (v : StagedView). v.ds) (sym at)) domains
                (λ ds name. ap (staged_domain ds name) (sym at)) shown.leaves;
          wired = fees ∙ shown.wired;
          dated = ap (λ (v : StagedView). v.epoch) (sym at) ∙ shown.dated;
          capped = ap (λ (v : StagedView). v.max_term) (sym at) ∙ shown.capped;
        },
      )

  write_step :
      (ds r : Registry) (effect : Registry → OpsState → OpsState)
      → length sender ≡ 32
      → s.ds ≡ some ds
      → IsRegistry r
      → ((name : Name) → domain_leaf name r ≡ staged_domain ds name s)
      → Written sender op ds s s' effect
      → Shows params epoch s' (effect r st)
  unfolding stage_domain write_domain_leaf staged_parent
  write_step ds r effect wide on wf held w =
      let fit = w.fits r wf (held op.name) wide in
      let written : OpsState = record st { domains = some (set_domain_leaf op.name w.leaf r) } in
      let (tracker, (fees, domains)) = call_index_lem (apply_domain op.name w.leaf) written in
      let done = sym (w.applied r st (held op.name)) in
      subst (Shows params epoch s') done (
        subst (λ (v : StagedView). Shows params epoch v (write_domain_leaf op.name w.leaf r st))
          w.staged
          (record {
            edges = λ k. ap (get_parent k) tracker ∙ shown.edges k;
            leaves = inr (
              ds,
              set_domain_leaf op.name w.leaf r,
              on,
              domains,
              set_domain_leaf-IsRegistry op.name w.leaf r fit wf,
              λ name.
                  domain_leaf-set_domain_leaf op.name w.leaf r fit name
                  ∙ ap
                      (λ (e : Option DomainLeafView).
                        if bytes_eq op.name name then some w.leaf else e)
                      (held name)
                  ∙ sym (staged_domain-stage_domain ds op.name w.leaf s name),
            );
            wired = fees ∙ shown.wired;
            dated = shown.dated;
            capped = shown.capped;
          }))

  remove_step :
      (ds r : Registry)
      → s.ds ≡ some ds
      → IsRegistry r
      → ((name : Name) → domain_leaf name r ≡ staged_domain ds name s)
      → removed_view ds sender op s s' ≡ s'
      → Shows params epoch s' (apply_domain_delete op r st)
  unfolding apply_domain_delete staged_parent staged_domain
  remove_step ds r on wf held made =
      let written : OpsState = record st { domains = some (delete op.name r) } in
      let (tracker, (fees, domains)) = call_index_lem (remove_domain op.name) written in
      subst (λ (v : StagedView). Shows params epoch v (apply_domain_delete op r st)) made
        (record {
          edges = λ k. ap (get_parent k) tracker ∙ shown.edges k;
          leaves = inr (
            ds,
            delete op.name r,
            on,
            domains,
            delete-IsRegistry op.name r wf,
            λ name. domain_leaf-delete op.name r name ∙ ground (arith, held name),
          );
          wired = fees ∙ shown.wired;
          dated = shown.dated;
          capped = shown.capped;
        })

  domain_step :
      length sender ≡ 32
      → DomainStep sender op s s'
      → (st' : OpsState) × (apply_domain_op sender s.epoch s.max_term op st ≡ some st')
        × Shows params epoch s' st'
  domain_step wide (ds, on, (effect, applied, what)) = elim shown.leaves [
    | inl (off, off') ↦ absurd (ground (arith, on, off))
    | inr (ds', r, on', wired, wf, held') ↦
        let same : ds' ≡ ds = ground (arith, on, on') in
        let held =
          subst (λ (d : Registry). (name : Name) → domain_leaf name r ≡ staged_domain d name s) same
            held' in
        (
          effect r st,
          applied r st wired,
          elim what [
            | inl w ↦ write_step ds r effect wide on wf held w
            | inr (right, (made, is)) ↦
                subst (λ (f : Registry → OpsState → OpsState). Shows params epoch s' (f r st))
                  (sym is) (remove_step ds r on wf held made)
          ],
        )
  ]

  -- An accepted operation is applied without a panic, and the staged view shows what it makes.
  pub apply_op_lem :
      (gas_coin : Option Hash)
      → length sender ≡ 32
      → validate sender op refs s ≡ some s'
      → (st' : OpsState) × (apply_op sender gas_coin epoch params.max_term_epochs op st ≡ some st')
        × Shows params epoch s' st'
  unfolding validate apply_op
  apply_op_lem gas_coin wide e = elim (Bool-cases (op.kind == reparent_op)) [
    | inl k0 ↦ (
      apply_reparent op st,
      ground (arith, k0),
      reparent_step (validate_reparent_lem sender op refs s s' (ground (arith, e, k0))),
    )
    | inr n0 ↦ elim (Bool-cases (op.kind == delete_op)) [
      | inl k1 ↦
          let (st', done, after) =
            delete_step gas_coin
              (validate_delete_lem sender op refs s s' (ground (arith, e, n0, k1))) in
          (st', ground (arith, n0, k1, done), after)
      | inr n1 ↦
          let (st', done, after) =
            domain_step wide (validate_domain_op_lem sender op s s' (ground (arith, e, n0, n1))) in
          let same : apply_domain_op sender epoch params.max_term_epochs op st ≡ some st' =
            subst (λ (x : ℕ). apply_domain_op sender x params.max_term_epochs op st ≡ some st')
              shown.dated
              (subst (λ (x : ℕ). apply_domain_op sender s.epoch x op st ≡ some st') shown.capped
                done) in
          (st', ground (arith, n0, n1, same), after)
    ]
  ]
