-- ===== src/Staged.antt =====
-- The staged view of declared operations: internal/consensus/staged.go and staged_domain.go. The
-- overlay maps are functions; a missing key of a map of numbers reads 0. A child-count delta is an
-- int32, held as its residue modulo 2^32. A rejected operation is `none`: it stages nothing.
pub mod Overlay
use blue_pods.Prelude.{
  ℕ, zero, suc, ◌+◌, ◌-◌, ◌%◌, ◌^◌, List, [], ◌∷◌, Option, none, some, Bool, true, false, ◌&&◌,
  ◌||◌, not, ltb, leb, ◌==◌, ◌>>=◌, if◌then◌else◌, length, bytes_eq, replicate,
}
use blue_pods.Types.{
  Hash, DeclaredOp, contains, reparent_op, delete_op, domain_register_op, domain_renew_op,
  domain_update_op, domain_transfer_op, domain_delete_op,
}
use blue_pods.Tracker.{
  Tracker, key_root_kind, object_parent_kind, get_parent, child_count, walk_depth_limit, plus_one,
  minus_one,
}
use blue_pods.Registry.{
  Name, Registry, DomainLeafView, domain_leaf, domain_expiry, valid_domain_name, parent_domain_name,
  zero_key,
}

pub record StagedView : Type 0 where
  pub ot : Tracker
  pub parents : Hash → Option (ℕ × Hash)
  pub deleted : Hash → Bool
  pub child_delta : Hash → ℕ
  pub ds : Option Registry
  pub epoch : ℕ
  pub max_term : ℕ
  pub domains : Name → Option DomainLeafView
  pub domain_removed : Name → Bool

abbrev pub new_staged_view : Tracker → Option Registry → ℕ → ℕ → StagedView
new_staged_view ot ds epoch max_term = record {
  ot = ot;
  parents = λ k. none;
  deleted = λ k. false;
  child_delta = λ k. 0;
  ds = ds;
  epoch = epoch;
  max_term = max_term;
  domains = λ k. none;
  domain_removed = λ k. false;
}

unfoldable pub hash32 : List ℕ → Option Hash
hash32 b = if length b == 32 then some b else none

unfoldable pub staged_parent : Hash → StagedView → Option (ℕ × Hash)
unfolding get_parent
staged_parent id s =
    if s.deleted id
    then none
    else elim (s.parents id) [ none ↦ get_parent id s.ot | some edge ↦ some edge ]

unfoldable pub staged_controller_loop : ℕ → Hash → StagedView → Option Hash
unfolding staged_parent
staged_controller_loop zero current s = none
staged_controller_loop (suc n) current s = elim (staged_parent current s) [
  | none ↦ none
  | some (kind, parent) ↦ elim (kind == key_root_kind) [
    | true ↦ some parent
    | false ↦ staged_controller_loop n parent s
  ]
]

unfoldable pub staged_controls : Hash → Hash → StagedView → Bool
staged_controls sender id s = elim (staged_controller_loop walk_depth_limit id s) [
  | none ↦ false
  | some controller ↦ bytes_eq controller sender
]

unfoldable pub staged_cycle_loop : ℕ → Hash → Hash → StagedView → Bool
unfolding staged_parent
staged_cycle_loop zero id current s = true
staged_cycle_loop (suc n) id current s = elim (bytes_eq current id) [
  | true ↦ true
  | false ↦ elim (staged_parent current s) [
    | none ↦ true
    | some (kind, parent) ↦ elim (kind == key_root_kind) [
      | true ↦ false
      | false ↦ staged_cycle_loop n id parent s
    ]
  ]
]

unfoldable pub staged_would_cycle : Hash → ℕ → Hash → StagedView → Bool
staged_would_cycle id kind parent s =
    if kind == key_root_kind then false else staged_cycle_loop walk_depth_limit id parent s

-- The sum on int64, floored at zero and cut to uint32.
unfoldable pub staged_child_count : Hash → StagedView → ℕ
staged_child_count id s =
    let count = child_count id s.ot in
    let delta = s.child_delta id in
    if ltb delta (2 ^ 31)
    then (count + delta) % 2 ^ 32
    else if ltb (count + delta) (2 ^ 32)
    then 0
    else count + delta - 2 ^ 32

abbrev add_delta : Hash → ℕ → StagedView → StagedView
add_delta id delta s = record s {
  child_delta = λ k. if bytes_eq id k then (s.child_delta k + delta) % 2 ^ 32 else s.child_delta k;
}

unfoldable release_parent : Hash → StagedView → StagedView
unfolding staged_parent
release_parent id s = elim (staged_parent id s) [
  | none ↦ s
  | some (kind, parent) ↦ if kind == object_parent_kind then add_delta parent minus_one s else s
]

unfoldable pub stage_reparent : Hash → ℕ → Hash → StagedView → StagedView
unfolding release_parent
stage_reparent id kind parent s =
    let released = release_parent id s in
    let moved = record released {
      parents = λ k. if bytes_eq id k then some (kind, parent) else released.parents k;
    } in
    if kind == object_parent_kind then add_delta parent plus_one moved else moved

unfoldable pub stage_delete : Hash → StagedView → StagedView
unfolding release_parent
stage_delete id s =
    let released = release_parent id s in
    record released { deleted = λ k. if bytes_eq id k then true else released.deleted k }

-- The object that an operation names: a mutable reference that the sender controls.
unfoldable pub controlled_ref : Hash → List ℕ → List Hash → StagedView → Option Hash
unfolding hash32
controlled_ref sender object_id refs s = do
  id ← hash32 object_id
  if not (contains id refs) || not (staged_controls sender id s) then none else some id

unfoldable pub validate_reparent : Hash → DeclaredOp → List Hash → StagedView → Option StagedView
unfolding controlled_ref stage_reparent
validate_reparent sender op refs s = do
  id ← controlled_ref sender op.object_id refs s
  target ← hash32 op.target
  (if not (op.target_kind == key_root_kind) && not (op.target_kind == object_parent_kind)
      then none
      else if (op.target_kind == object_parent_kind) && not (staged_controls sender target s)
      then none
      else if staged_would_cycle id op.target_kind target s
      then none
      else some (stage_reparent id op.target_kind target s))

unfoldable pub validate_delete : Hash → DeclaredOp → List Hash → StagedView → Option StagedView
unfolding controlled_ref staged_child_count stage_delete
validate_delete sender op refs s = do
  id ← controlled_ref sender op.object_id refs s
  if not (staged_child_count id s == 0) then none else some (stage_delete id s)

unfoldable pub stage_domain : Name → DomainLeafView → StagedView → StagedView
stage_domain name leaf s = record s {
  domains = λ k. if bytes_eq name k then some leaf else s.domains k;
  domain_removed = λ k. if bytes_eq name k then false else s.domain_removed k;
}

-- The registry is wired: the domain operations are refused otherwise.
unfoldable pub staged_domain : Registry → Name → StagedView → Option DomainLeafView
unfolding domain_leaf
staged_domain ds name s =
    if s.domain_removed name
    then none
    else elim (s.domains name) [ none ↦ domain_leaf name ds | some leaf ↦ some leaf ]

unfoldable pub owned_domain : Registry → Hash → Name → StagedView → Option DomainLeafView
owned_domain ds sender name s = do
  leaf ← staged_domain ds name s
  if not (bytes_eq leaf.owner sender) || bytes_eq sender zero_key then none else some leaf

unfoldable pub owns_domain_namespace : Registry → Hash → Name → StagedView → Bool
owns_domain_namespace ds sender name s = elim (parent_domain_name name) [
  | none ↦ true
  | some parent ↦ elim (owned_domain ds sender parent s) [
    | none ↦ false
    | some leaf ↦ leb s.epoch leaf.expiry
  ]
]

abbrev pub is_some {ℓ} : {A : Type ℓ} → Option A → Bool
is_some none = false
is_some (some a) = true

unfoldable pub controlled_object : Hash → List ℕ → StagedView → Option Hash
controlled_object sender object_id s = do
  id ← hash32 object_id
  if staged_controls sender id s then some id else none

unfoldable pub validate_domain_register :
    Registry → Hash → DeclaredOp → StagedView → Option StagedView
validate_domain_register ds sender op s =
    if not (valid_domain_name op.name)
    then none
    else if is_some (staged_domain ds op.name s)
    then none
    else if not (owns_domain_namespace ds sender op.name s)
    then none
    else (do
      id ← controlled_object sender op.object_id s
      expiry ← domain_expiry 0 s.epoch op.term_epochs s.max_term
      some (stage_domain op.name (record { object_id = id; owner = sender; expiry = expiry }) s))

unfoldable pub validate_domain_renew : Registry → Hash → DeclaredOp → StagedView → Option StagedView
validate_domain_renew ds sender op s = do
  leaf ← owned_domain ds sender op.name s
  expiry ← domain_expiry leaf.expiry s.epoch op.term_epochs s.max_term
  some (stage_domain op.name (record leaf { expiry = expiry }) s)

unfoldable pub validate_domain_update :
    Registry → Hash → DeclaredOp → StagedView → Option StagedView
validate_domain_update ds sender op s = do
  leaf ← owned_domain ds sender op.name s
  id ← controlled_object sender op.object_id s
  some (stage_domain op.name (record leaf { object_id = id }) s)

unfoldable pub validate_domain_transfer :
    Registry → Hash → DeclaredOp → StagedView → Option StagedView
validate_domain_transfer ds sender op s = do
  leaf ← owned_domain ds sender op.name s
  owner ← hash32 op.target
  if bytes_eq owner zero_key
      then none
      else some (stage_domain op.name (record leaf { owner = owner }) s)

abbrev pub zero_leaf : DomainLeafView
zero_leaf = record { object_id = zero_key; owner = zero_key; expiry = 0 }

unfoldable pub validate_domain_delete :
    Registry → Hash → DeclaredOp → StagedView → Option StagedView
validate_domain_delete ds sender op s = do
  leaf ← owned_domain ds sender op.name s
  some (record s {
    domains = λ k. if bytes_eq op.name k then some zero_leaf else s.domains k;
    domain_removed = λ k. if bytes_eq op.name k then true else s.domain_removed k;
  })

unfoldable pub validate_domain_op : Hash → DeclaredOp → StagedView → Option StagedView
validate_domain_op sender op s = do
  ds ← s.ds
  (if op.kind == domain_register_op
      then validate_domain_register ds sender op s
      else if op.kind == domain_renew_op
      then validate_domain_renew ds sender op s
      else if op.kind == domain_update_op
      then validate_domain_update ds sender op s
      else if op.kind == domain_transfer_op
      then validate_domain_transfer ds sender op s
      else if op.kind == domain_delete_op
      then validate_domain_delete ds sender op s
      else none)

abbrev last_declared_op_kind : ℕ
last_declared_op_kind = domain_delete_op

unfoldable pub validate : Hash → DeclaredOp → List Hash → StagedView → Option StagedView
validate sender op refs s =
    if ltb last_declared_op_kind op.kind
    then none
    else if op.kind == reparent_op
    then validate_reparent sender op refs s
    else if op.kind == delete_op
    then validate_delete sender op refs s
    else validate_domain_op sender op s
