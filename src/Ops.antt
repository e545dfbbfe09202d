-- ===== src/Ops.antt =====
-- Declared operations at commit: internal/consensus/ops.go and the domain effects of domainops.go.
-- `none` is a run-time panic: fee parameters or a registry that is not wired. The calls to the
-- indexer are a list, the last one first; the hooks of the state, events and log lines are left out.
-- The commit round's epoch is an argument.
pub mod Edges
pub mod Domains
pub mod Simulation
pub mod Lists
pub mod Foreign
pub mod Tests
use blue_pods.Prelude.{
  ℕ, List, [], ◌∷◌, ◌++◌, Option, none, some, Bool, true, false, ◌&&◌, ◌||◌, not, ltb, ◌==◌, ◌>>=◌,
  if◌then◌else◌, length, take, bytes_eq, replicate,
}
use blue_pods.Types.{
  Hash, DeclaredOp, TxRef, Tx, reparent_op, delete_op, domain_register_op, domain_renew_op,
  domain_update_op, domain_transfer_op, domain_delete_op,
}
use blue_pods.Word.{safe_add}
use blue_pods.Fees.{FeeParams, FeeSplit}
use blue_pods.Tracker.{Tracker, get_version, set_parent}
use blue_pods.Coins.{Object, State, get_object, set_object}
use blue_pods.Deletion.{Ledger, settle_deletion}
use blue_pods.Registry.{
  Name, Registry, DomainLeafView, domain_leaf, set_domain_leaf, delete, domain_expiry, zero_key,
}
use blue_pods.Staged.{StagedView, new_staged_view, validate, hash32}

pub data IndexCall : Type 0 where
  apply_edge : Hash → ℕ → Hash → IndexCall
  apply_domain : Name → DomainLeafView → IndexCall
  remove_domain : Name → IndexCall

-- What the operations change.
pub record OpsState : Type 0 where
  pub ledger : Ledger
  pub domains : Option Registry
  pub index_calls : List IndexCall

-- The parts of a transaction that the operations read beside the common ones.
pub record OpsTx : Type 0 where
  pub tx : Tx
  pub gas_coin : List ℕ
  pub operations : List DeclaredOp
  pub created_objects_replication : List ℕ

unfoldable to_hash : List ℕ → Hash
to_hash b = take 32 (b ++ replicate 32 0)

unfoldable call_index : IndexCall → OpsState → OpsState
call_index call st = elim st.ledger.indexer [
  | none ↦ st
  | some removed ↦ record st { index_calls = call ∷ st.index_calls }
]

unfoldable write_object_owner : Hash → ℕ → ℕ → Object → Object
write_object_owner new_owner new_parent_kind new_version obj = record obj {
  owner = new_owner;
  parent_kind = new_parent_kind;
  version = new_version;
}

unfoldable rewrite_body_owner : Hash → ℕ → Hash → ℕ → OpsState → OpsState
rewrite_body_owner id kind parent version st = elim (get_object id st.ledger.store) [
  | none ↦ st
  | some obj ↦ record st {
    ledger = record st.ledger {
      store = set_object (write_object_owner parent kind version obj) st.ledger.store;
    };
  }
]

unfoldable apply_reparent : DeclaredOp → OpsState → OpsState
apply_reparent op st =
    let id = to_hash op.object_id in
    let parent = to_hash op.target in
    let version = get_version id st.ledger.tracker in
    let moved = record st {
      ledger = record st.ledger { tracker = set_parent id op.target_kind parent st.ledger.tracker };
    } in
    call_index (apply_edge id op.target_kind parent)
      (rewrite_body_owner id op.target_kind parent version moved)

unfoldable apply_delete : Option Hash → DeclaredOp → OpsState → Option OpsState
apply_delete gas_coin op st = do
  (ledger, refund) ← settle_deletion (to_hash op.object_id) gas_coin st.ledger
  some (record st { ledger = ledger })

unfoldable write_domain_leaf : Name → DomainLeafView → Registry → OpsState → OpsState
write_domain_leaf name leaf ds st =
    call_index (apply_domain name leaf)
      (record st { domains = some (set_domain_leaf name leaf ds) })

unfoldable apply_domain_register : Hash → ℕ → ℕ → DeclaredOp → Registry → OpsState → OpsState
apply_domain_register sender epoch max_term op ds st =
    elim (domain_expiry 0 epoch op.term_epochs max_term) [
      | none ↦ st
      | some expiry ↦
          write_domain_leaf op.name
            (record { object_id = to_hash op.object_id; owner = sender; expiry = expiry }) ds st
    ]

unfoldable apply_domain_renew : ℕ → ℕ → DeclaredOp → Registry → OpsState → OpsState
apply_domain_renew epoch max_term op ds st = elim (domain_leaf op.name ds) [
  | none ↦ st
  | some leaf ↦ elim (domain_expiry leaf.expiry epoch op.term_epochs max_term) [
    | none ↦ st
    | some expiry ↦ write_domain_leaf op.name (record leaf { expiry = expiry }) ds st
  ]
]

unfoldable apply_domain_update : DeclaredOp → Registry → OpsState → OpsState
apply_domain_update op ds st = elim (domain_leaf op.name ds) [
  | none ↦ st
  | some leaf ↦ write_domain_leaf op.name (record leaf { object_id = to_hash op.object_id }) ds st
]

unfoldable apply_domain_transfer : DeclaredOp → Registry → OpsState → OpsState
apply_domain_transfer op ds st = elim (domain_leaf op.name ds) [
  | none ↦ st
  | some leaf ↦ write_domain_leaf op.name (record leaf { owner = to_hash op.target }) ds st
]

unfoldable apply_domain_delete : DeclaredOp → Registry → OpsState → OpsState
apply_domain_delete op ds st =
    call_index (remove_domain op.name) (record st { domains = some (delete op.name ds) })

unfoldable apply_domain_op : Hash → ℕ → ℕ → DeclaredOp → OpsState → Option OpsState
apply_domain_op sender epoch max_term op st = do
  ds ← st.domains
  some (
      if op.kind == domain_register_op
      then apply_domain_register sender epoch max_term op ds st
      else if op.kind == domain_renew_op
      then apply_domain_renew epoch max_term op ds st
      else if op.kind == domain_update_op
      then apply_domain_update op ds st
      else if op.kind == domain_transfer_op
      then apply_domain_transfer op ds st
      else if op.kind == domain_delete_op
      then apply_domain_delete op ds st
      else st)

unfoldable apply_op : Hash → Option Hash → ℕ → ℕ → DeclaredOp → OpsState → Option OpsState
apply_op sender gas_coin epoch max_term op st =
    if op.kind == reparent_op
    then some (apply_reparent op st)
    else if op.kind == delete_op
    then apply_delete gas_coin op st
    else apply_domain_op sender epoch max_term op st

unfoldable apply_declared_ops :
    Hash → Option Hash → ℕ → ℕ → List DeclaredOp → OpsState → Option OpsState
apply_declared_ops sender gas_coin epoch max_term [] st = some st
apply_declared_ops sender gas_coin epoch max_term (op ∷ ops) st =
    apply_op sender gas_coin epoch max_term op st
    >>= (λ st'. apply_declared_ops sender gas_coin epoch max_term ops st')

unfoldable mutable_ref_id_set : List TxRef → List Hash
mutable_ref_id_set [] = []
mutable_ref_id_set (ref ∷ refs) =
    let rest = mutable_ref_id_set refs in elim (hash32 ref.id) [ none ↦ rest | some id ↦ id ∷ rest ]

-- The loop that validates the list; `none` is the first operation that fails.
unfoldable validate_all : Hash → List Hash → List DeclaredOp → StagedView → Option StagedView
validate_all sender refs [] s = some s
validate_all sender refs (op ∷ ops) s =
    validate sender op refs s >>= (λ s'. validate_all sender refs ops s')

unfoldable handle_declared_ops : OpsTx → ℕ → OpsState → Option (OpsState × Bool)
handle_declared_ops call epoch st =
    if not (length call.tx.sender == 32) || bytes_eq call.tx.sender zero_key
    then some (st, false)
    else if length call.operations == 0
    then some (st, false)
    else (do
      params ← st.ledger.fee_params
      elim (validate_all call.tx.sender (mutable_ref_id_set call.tx.mutable_refs) call.operations
          (new_staged_view st.ledger.tracker st.domains epoch params.max_term_epochs)) [
            | none ↦ some (st, false)
            | some staged ↦
                apply_declared_ops call.tx.sender (hash32 call.gas_coin) epoch staged.max_term
                  call.operations st
                >>= (λ applied. some (applied, true))
          ])

unfoldable any_nonzero : List ℕ → Bool
any_nonzero [] = false
any_nonzero (b ∷ bs) = not (b == 0) || any_nonzero bs

unfoldable tx_has_pod_call : Tx → Bool
tx_has_pod_call tx = if ltb 0 (length tx.function_name) then true else any_nonzero tx.pod

unfoldable pool_unlocked_storage : FeeSplit → ℕ → FeeSplit
pool_unlocked_storage split storage = record split {
  total = safe_add split.total storage;
  epoch = safe_add split.epoch storage;
}

-- The verdict and the fee split.
unfoldable commit_declared_ops :
    OpsTx → ℕ → FeeSplit → ℕ → OpsState → Option (OpsState × Bool × FeeSplit)
commit_declared_ops call epoch split withheld st =
    let pooled = pool_unlocked_storage split withheld in
    if tx_has_pod_call call.tx || not (length call.created_objects_replication == 0)
    then some (st, false, pooled)
    else (do
      (applied, success) ← handle_declared_ops call epoch st
      some (applied, success, pooled))
