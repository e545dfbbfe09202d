-- ===== src/Ops/Edges.antt =====
-- Reparents and deletions: what their validation requires, and what their application changes.
use blue_pods.Prelude.{
  ℕ, ◌≡◌, refl, ◌∙◌, List, Option, some, true, false, arith, Bool-cases, Option-cases, inl, inr,
  ◌⊎◌, length, replicate, take-append,
}
use blue_pods.Types.{Hash, DeclaredOp, contains}
use blue_pods.Fees.{FeeParams}
use blue_pods.Tracker.{set_parent, delete_object, get_version}
use blue_pods.Coins.{get_object}
use blue_pods.Deletion.Released.{settle_deletion_fields}
use blue_pods.Staged.{
  StagedView, staged_parent, staged_controls, staged_controller_loop, staged_would_cycle,
  staged_child_count, stage_reparent, stage_delete, hash32, controlled_ref, validate_reparent,
  validate_delete,
}
use blue_pods.Ops.{
  OpsState, IndexCall, apply_edge, to_hash, call_index, rewrite_body_owner, apply_reparent,
  apply_delete,
}

pub hash32_lem : (b : List ℕ) {h : Hash} → hash32 b ≡ some h → (b ≡ h) × (length b ≡ 32)
unfolding hash32
hash32_lem b e = ground (arith, e)

pub to_hash-wide : (b : List ℕ) → length b ≡ 32 → to_hash b ≡ b
unfolding to_hash
to_hash-wide b wide = take-append b (replicate 32 0) 32 wide

-- A controlled object has an edge: no operation before has deleted it.
pub controls_alive :
    (sender id : Hash) (s : StagedView) → staged_controls sender id s ≡ true → s.deleted id ≡ false
unfolding staged_controls staged_controller_loop staged_parent
controls_alive sender id s e = elim (Bool-cases (s.deleted id)) [
  | inl gone ↦ absurd (ground (arith, e, gone))
  | inr alive ↦ alive
]

controlled_ref_lem :
    (sender : Hash) (object_id : List ℕ) (refs : List Hash) (s : StagedView) {id : Hash}
    → controlled_ref sender object_id refs s ≡ some id
    → (object_id ≡ id)
      × (length id ≡ 32)
      × (contains id refs ≡ true)
      × (staged_controls sender id s ≡ true)
unfolding controlled_ref
controlled_ref_lem sender object_id refs s {id} e = elim (Option-cases (hash32 object_id)) [
  | inl short ↦ absurd (ground (arith, e, short))
  | inr (h, wide) ↦
      let same : h ≡ id = ground (arith, e, wide) in
      let (is, size) = hash32_lem object_id wide in ground (arith, e, wide, is, size)
]

-- What an accepted reparent requires.
pub record Reparented (sender : Hash) (op : DeclaredOp) (refs : List Hash) (s s' : StagedView)
    : Type 0 where
  pub listed : contains op.object_id refs ≡ true
  pub held : staged_controls sender op.object_id s ≡ true
  pub id_wide : length op.object_id ≡ 32
  pub target_wide : length op.target ≡ 32
  pub target_held :
      (op.target_kind ≡ 0) ⊎ ((op.target_kind ≡ 1) × (staged_controls sender op.target s ≡ true))
  pub acyclic : staged_would_cycle op.object_id op.target_kind op.target s ≡ false
  pub staged : stage_reparent op.object_id op.target_kind op.target s ≡ s'

pub validate_reparent_lem :
    (sender : Hash) (op : DeclaredOp) (refs : List Hash) (s s' : StagedView)
    → validate_reparent sender op refs s ≡ some s'
    → Reparented sender op refs s s'
unfolding validate_reparent
validate_reparent_lem sender op refs s s' e =
    elim (Option-cases (controlled_ref sender op.object_id refs s)) [
      | inl refused ↦ absurd (ground (arith, e, refused))
      | inr (id, first) ↦ elim (Option-cases (hash32 op.target)) [
        | inl short ↦ absurd (ground (arith, e, first, short))
        | inr (target, second) ↦
            let (same, wide, listed, held) = controlled_ref_lem sender op.object_id refs s first in
            let (there, long) = hash32_lem op.target second in
            let kind : (op.target_kind ≡ 0)
                ⊎ ((op.target_kind ≡ 1) × (staged_controls sender target s ≡ true)) =
              ground (arith, e, first, second) in
            let no_loop : staged_would_cycle id op.target_kind target s ≡ false =
              ground (arith, e, first, second) in
            let made : stage_reparent id op.target_kind target s ≡ s' =
              ground (arith, e, first, second) in
            record {
              listed = rw same listed;
              held = rw same held;
              id_wide = rw same wide;
              target_wide = long;
              target_held = rw there kind;
              acyclic = rw (same, there) no_loop;
              staged = rw (same, there) made;
            }
      ]
    ]

pub record Dropped (sender : Hash) (op : DeclaredOp) (refs : List Hash) (s s' : StagedView)
    : Type 0 where
  pub listed : contains op.object_id refs ≡ true
  pub held : staged_controls sender op.object_id s ≡ true
  pub id_wide : length op.object_id ≡ 32
  pub childless : staged_child_count op.object_id s ≡ 0
  pub staged : stage_delete op.object_id s ≡ s'

pub validate_delete_lem :
    (sender : Hash) (op : DeclaredOp) (refs : List Hash) (s s' : StagedView)
    → validate_delete sender op refs s ≡ some s'
    → Dropped sender op refs s s'
unfolding validate_delete
validate_delete_lem sender op refs s s' e =
    elim (Option-cases (controlled_ref sender op.object_id refs s)) [
      | inl refused ↦ absurd (ground (arith, e, refused))
      | inr (id, first) ↦
          let (same, wide, listed, held) = controlled_ref_lem sender op.object_id refs s first in
          let none_below : staged_child_count id s ≡ 0 = ground (arith, e, first) in
          let made : stage_delete id s ≡ s' = ground (arith, e, first) in
          record {
            listed = rw same listed;
            held = rw same held;
            id_wide = rw same wide;
            childless = rw same none_below;
            staged = rw same made;
          }
    ]

-- The fields that the calls beside the tracker leave alone.
abbrev SameState : OpsState → OpsState → Type 0
SameState st st' =
    (st'.ledger.tracker ≡ st.ledger.tracker)
    × ((st'.ledger.fee_params ≡ st.ledger.fee_params) × (st'.domains ≡ st.domains))

pub call_index_lem : (call : IndexCall) (st : OpsState) → SameState st (call_index call st)
unfolding call_index
call_index_lem call st = elim (Option-cases st.ledger.indexer) [
  | inl off ↦ rw (call_index, off) (refl, (refl, refl))
  | inr (removed, on) ↦ rw (call_index, on) (refl, (refl, refl))
]

rewrite_body_owner_lem :
    (id : Hash) (kind : ℕ) (parent : Hash) (version : ℕ) (st : OpsState)
    → SameState st (rewrite_body_owner id kind parent version st)
unfolding rewrite_body_owner
rewrite_body_owner_lem id kind parent version st =
    elim (Option-cases (get_object id st.ledger.store)) [
      | inl absent ↦ rw (rewrite_body_owner, absent) (refl, (refl, refl))
      | inr (o, there) ↦ rw (rewrite_body_owner, there) (refl, (refl, refl))
    ]

pub apply_reparent_lem :
    (op : DeclaredOp) (st : OpsState)
    → length op.object_id ≡ 32
    → length op.target ≡ 32
    → ((apply_reparent op st).ledger.tracker
        ≡ set_parent op.object_id op.target_kind op.target st.ledger.tracker)
      × ((apply_reparent op st).ledger.fee_params ≡ st.ledger.fee_params)
      × ((apply_reparent op st).domains ≡ st.domains)
unfolding apply_reparent
apply_reparent_lem op st wide long =
    let id = to_hash-wide op.object_id wide in
    let parent = to_hash-wide op.target long in
    let version = get_version op.object_id st.ledger.tracker in
    let moved : OpsState = record st {
      ledger = record st.ledger {
        tracker = set_parent op.object_id op.target_kind op.target st.ledger.tracker;
      };
    } in
    let rewritten = rewrite_body_owner op.object_id op.target_kind op.target version moved in
    let (tracker, (params, domains)) =
      rewrite_body_owner_lem op.object_id op.target_kind op.target version moved in
    let (tracker', (params', domains')) =
      call_index_lem (apply_edge op.object_id op.target_kind op.target) rewritten in
    rw (apply_reparent, id, parent) (tracker' ∙ tracker, params' ∙ params, domains' ∙ domains)

pub apply_delete_lem :
    (gas_coin : Option Hash) (op : DeclaredOp) (st : OpsState) (params : FeeParams)
    → length op.object_id ≡ 32
    → st.ledger.fee_params ≡ some params
    → (st' : OpsState) × (apply_delete gas_coin op st ≡ some st')
      × (st'.ledger.tracker ≡ delete_object op.object_id st.ledger.tracker)
      × (st'.ledger.fee_params ≡ st.ledger.fee_params)
      × (st'.domains ≡ st.domains)
unfolding apply_delete
apply_delete_lem gas_coin op st params wide wired =
    let id = to_hash-wide op.object_id wide in
    let (ledger, refund, settled, tracker, fee_params) =
      settle_deletion_fields op.object_id gas_coin st.ledger params wired in
    (record st { ledger = ledger }, rw (apply_delete, id, settled) refl, tracker, fee_params, refl)
