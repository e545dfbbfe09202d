-- ===== src/Ops/Foreign.antt =====
-- What a list of operations cannot touch: the parent edges of objects that are no mutable references
-- of the transaction, and the leaves of names that another key owns.
use blue_pods.Prelude.{
  ℕ, ◌≡◌, ◌≢◌, refl, sym, ◌∙◌, ap, List, [], ◌∷◌, Option, none, some, Bool, true, false, ◌==◌,
  ◌>>=◌, bytes_eq, bytes_eq_iff, arith, Bool-cases, Option-cases, inl, inr, ◌⊎◌, subst,
}
use blue_pods.Types.{Hash, DeclaredOp, contains, reparent_op, delete_op}
use blue_pods.Fees.{FeeParams}
use blue_pods.Tracker.{get_parent}
use blue_pods.Registry.{Name, Registry, DomainLeafView, domain_leaf}
use blue_pods.Staged.{StagedView, staged_parent, staged_domain, stage_domain, validate}
use blue_pods.Staged.Overlay.{
  stage_reparent_lem, stage_delete_lem, staged_domain-stage_domain, staged_parent-stage_reparent,
  staged_parent-stage_delete,
}
use blue_pods.Ops.{OpsState, OpsTx, validate_all, mutable_ref_id_set, handle_declared_ops}
use blue_pods.Ops.Edges.{
  Reparented, Dropped, validate_reparent_lem, validate_delete_lem, controls_alive,
}
use blue_pods.Ops.Domains.{Written, HasRight, validate_domain_op_lem, removed_view}
use blue_pods.Ops.Simulation.{Shows}
use blue_pods.Ops.Lists.{HasRegistry, first_view, handle_declared_ops_lem}

abbrev staged_leaf : Name → StagedView → Option DomainLeafView
staged_leaf name s = s.ds >>= (λ ds. staged_domain ds name s)

-- A step that leaves foreign objects and names alone.
record IsFair (sender : Hash) (refs : List Hash) (s s' : StagedView) : Type 0 where
  unlisted : (k : Hash) → contains k refs ≡ false → staged_parent k s' ≡ staged_parent k s
  foreign :
      (name : Name) (leaf : DomainLeafView)
      → staged_leaf name s ≡ some leaf
      → leaf.owner ≢ sender
      → staged_leaf name s' ≡ some leaf

module _ (sender : Hash) (op : DeclaredOp) (refs : List Hash) (s s' : StagedView) where
  validate_reparent-IsFair : Reparented sender op refs s s' → IsFair sender refs s s'
  unfolding staged_domain
  validate_reparent-IsFair h =
      let alive = controls_alive sender op.object_id s h.held in
      let (f, made) = stage_reparent_lem op.object_id op.target_kind op.target s in
      let at = sym made ∙ h.staged in
      record {
        unlisted = λ k out.
            ap (staged_parent k) (sym h.staged)
            ∙ staged_parent-stage_reparent op.object_id op.target_kind op.target s alive k
            ∙ ground (arith, out, h.listed, bytes_eq_iff op.object_id k);
        foreign = λ name leaf held other. ap (staged_leaf name) (sym at) ∙ held;
      }

  validate_delete-IsFair : Dropped sender op refs s s' → IsFair sender refs s s'
  unfolding staged_domain
  validate_delete-IsFair h =
      let (f, made) = stage_delete_lem op.object_id s in
      let at = sym made ∙ h.staged in
      record {
        unlisted = λ k out.
            ap (staged_parent k) (sym h.staged)
            ∙ staged_parent-stage_delete op.object_id s k
            ∙ ground (arith, out, h.listed, bytes_eq_iff op.object_id k);
        foreign = λ name leaf held other. ap (staged_leaf name) (sym at) ∙ held;
      }

  -- A name that the sender may write is not a foreign one.
  another_name :
      (ds : Registry) (name : Name) (leaf : DomainLeafView)
      → HasRight ds sender op.name s
      → staged_domain ds name s ≡ some leaf
      → leaf.owner ≢ sender
      → bytes_eq op.name name ≡ false
  another_name ds name leaf right held other = elim (Bool-cases (bytes_eq op.name name)) [
    | inr differ ↦ differ
    | inl same ↦
        let here : op.name ≡ name = (bytes_eq_iff op.name name).0 same in
        let at = ap (λ (n : Name). staged_domain ds n s) here ∙ held in
        elim right [
          | inl free ↦ absurd cc
          | inr (old, found, mine) ↦
              let is : old ≡ leaf = cc in
              absurd (other (subst (λ (l : DomainLeafView). l.owner ≡ sender) is mine))
        ]
  ]

  Written-IsFair :
      (ds : Registry) {effect : Registry → OpsState → OpsState}
      → s.ds ≡ some ds
      → Written sender op ds s s' effect
      → IsFair sender refs s s'
  unfolding stage_domain staged_parent staged_domain
  Written-IsFair ds on w = record {
    unlisted = λ k out. ap (staged_parent k) (sym w.staged);
    foreign = λ name leaf held other.
        let here : staged_domain ds name s ≡ some leaf = ground (arith, on, held) in
        let apart = another_name ds name leaf w.right here other in
        let kept : staged_domain ds name (stage_domain op.name w.leaf s) ≡ some leaf =
          staged_domain-stage_domain ds op.name w.leaf s name ∙ ground (arith, apart, here) in
        ap (staged_leaf name) (sym w.staged) ∙ ground (arith, on, kept);
  }

  removed_view-IsFair :
      (ds : Registry)
      → s.ds ≡ some ds
      → HasRight ds sender op.name s
      → removed_view ds sender op s s' ≡ s'
      → IsFair sender refs s s'
  unfolding staged_parent staged_domain
  removed_view-IsFair ds on right made = record {
    unlisted = λ k out. ap (staged_parent k) (sym made);
    foreign = λ name leaf held other.
        let here : staged_domain ds name s ≡ some leaf = ground (arith, on, held) in
        let apart = another_name ds name leaf right here other in
        ap (staged_leaf name) (sym made) ∙ ground (arith, on, here, apart);
  }

  validate-IsFair : validate sender op refs s ≡ some s' → IsFair sender refs s s'
  unfolding validate
  validate-IsFair e = elim (Bool-cases (op.kind == reparent_op)) [
    | inl k0 ↦
        validate_reparent-IsFair (validate_reparent_lem sender op refs s s' (ground (arith, e, k0)))
    | inr n0 ↦ elim (Bool-cases (op.kind == delete_op)) [
      | inl k1 ↦
          validate_delete-IsFair
            (validate_delete_lem sender op refs s s' (ground (arith, e, n0, k1)))
      | inr n1 ↦
          let (ds, on, (effect, applied, what)) =
            validate_domain_op_lem sender op s s' (ground (arith, e, n0, n1)) in
          elim what [
            | inl w ↦ Written-IsFair ds on w
            | inr (right, (made, is)) ↦ removed_view-IsFair ds on right made
          ]
    ]
  ]

validate_all-IsFair :
    (sender : Hash) (refs : List Hash) (ops : List DeclaredOp) (s s' : StagedView)
    → validate_all sender refs ops s ≡ some s'
    → IsFair sender refs s s'
unfolding validate_all
validate_all-IsFair sender refs [] s s' e =
    let same : s ≡ s' = cc in
    subst (IsFair sender refs s) same
      (record { unlisted = λ k out. refl; foreign = λ name leaf held other. held })
validate_all-IsFair sender refs (op ∷ ops) s s' e =
    elim (Option-cases (validate sender op refs s)) [
      | inl refused ↦ absurd (ground (arith, e, refused))
      | inr (mid, step) ↦
          let first = validate-IsFair sender op refs s mid step in
          let rest = validate_all-IsFair sender refs ops mid s' (ground (arith, e, step)) in
          record {
            unlisted = λ k out. rest.unlisted k out ∙ first.unlisted k out;
            foreign = λ name leaf held other.
                rest.foreign name leaf (first.foreign name leaf held other) other;
          }
    ]

-- The leaf that a state holds for a name.
abbrev pub leaf_of : Name → OpsState → Option DomainLeafView
leaf_of name st = st.domains >>= (λ r. domain_leaf name r)

shown_leaf :
    (params : FeeParams) (epoch : ℕ) (s : StagedView) (st : OpsState) (name : Name)
    → Shows params epoch s st
    → leaf_of name st ≡ staged_leaf name s
shown_leaf params epoch s st name shown = elim shown.leaves [
  | inl (off, off') ↦ ground (arith, off, off')
  | inr (ds, r, on, on', wf, held) ↦ ground (arith, on, on', held name)
]

first_leaf :
    (params : FeeParams) (epoch : ℕ) (st : OpsState) (name : Name)
    → staged_leaf name (first_view params epoch st) ≡ leaf_of name st
unfolding staged_domain
first_leaf params epoch st name = refl

-- A name is free, the sender's, or out of the sender's reach.
name_cases :
    (sender : Hash) (before after : Option DomainLeafView)
    → ((leaf : DomainLeafView) → before ≡ some leaf → leaf.owner ≢ sender → after ≡ some leaf)
    → (before ≡ none)
      ⊎ (((leaf : DomainLeafView) × (before ≡ some leaf) × (leaf.owner ≡ sender))
          ⊎ (after ≡ before))
name_cases sender before after keeps = elim (Option-cases before) [
  | inl free ↦ inl free
  | inr (leaf, held) ↦ elim (Bool-cases (bytes_eq leaf.owner sender)) [
    | inl mine ↦ inr (inl (leaf, held, (bytes_eq_iff leaf.owner sender).0 mine))
    | inr other ↦ inr (
        inr (
          keeps leaf held (λ e. ground (arith, other, e, bytes_eq_iff leaf.owner sender))
          ∙ sym held))
  ]
]

-- Whether the list is accepted or refused, an object keeps its parent edge or is a mutable reference
-- of the transaction, and a name keeps its leaf, or was free, or was the sender's. Fee parameters are
-- wired and the registry holds leaves of the right widths. Child counts, deposits and coins, which
-- change at other objects too, are not spoken of.
pub handle_declared_ops_safe :
    (call : OpsTx) (epoch : ℕ) (st : OpsState) (params : FeeParams)
    → st.ledger.fee_params ≡ some params
    → HasRegistry st
    → (st' : OpsState) × (success : Bool) × (handle_declared_ops call epoch st
        ≡ some (st', success))
      × ((k : Hash)
          → (contains k (mutable_ref_id_set call.tx.mutable_refs) ≡ true)
            ⊎ (get_parent k st'.ledger.tracker ≡ get_parent k st.ledger.tracker))
      × ((name : Name)
          → (leaf_of name st ≡ none)
            ⊎ (((leaf : DomainLeafView) × (leaf_of name st ≡ some leaf)
                  × (leaf.owner ≡ call.tx.sender))
                ⊎ (leaf_of name st' ≡ leaf_of name st)))
unfolding staged_parent
handle_declared_ops_safe call epoch st params wired registry =
    let (st', success, done, what) = handle_declared_ops_lem call epoch st params wired registry in
    let refs = mutable_ref_id_set call.tx.mutable_refs in
    let both : ((k : Hash)
          → contains k refs ≡ false
          → get_parent k st'.ledger.tracker ≡ get_parent k st.ledger.tracker)
        × ((name : Name) (leaf : DomainLeafView)
            → leaf_of name st ≡ some leaf
            → leaf.owner ≢ call.tx.sender
            → leaf_of name st' ≡ some leaf) =
      elim what [
        | inl (failed, same) ↦ (
          λ k out. ap (λ (x : OpsState). get_parent k x.ledger.tracker) same,
          λ name leaf held other. ap (leaf_of name) same ∙ held,
        )
        | inr (worked, (s', valid, shown)) ↦
            let fair =
              validate_all-IsFair call.tx.sender refs call.operations (first_view params epoch st)
                s' valid in
            (
              λ k out. shown.edges k ∙ fair.unlisted k out,
              λ name leaf held other.
                  shown_leaf params epoch s' st' name shown
                  ∙ fair.foreign name leaf (first_leaf params epoch st name ∙ held) other,
            )
      ] in
    (
      st',
      success,
      done,
      λ k. elim (Bool-cases (contains k refs)) [
        | inl listed ↦ inl listed
        | inr out ↦ inr (both.0 k out)
      ],
      λ name. name_cases call.tx.sender (leaf_of name st) (leaf_of name st') (both.1 name),
    )
