-- ===== src/Fees.antt =====
-- The fee schedule of internal/consensus/fees.go. An int that counts validators, objects or
-- holders is a length, so it is a natural number here.
pub mod Exact
pub mod Ratio
pub mod Split
pub mod Tests
use blue_pods.Prelude.{
  ℕ, suc, ◌+◌, ◌-◌, ◌*◌, ◌/◌, ◌≤◌, Bool, true, false, ◌&&◌, ◌||◌, List, [], ◌∷◌, ltb, leb, ◌==◌,
  if◌then◌else◌, length, bytes_eq,
}
use blue_pods.Types.{
  Hash, DeclaredOp, reparent_op, delete_op, domain_register_op, domain_renew_op, domain_update_op,
  domain_transfer_op, domain_delete_op, contains,
}
use blue_pods.Word.{u64_mod, mul64, sub64, safe_mul, safe_add}

pub record FeeParams : Type 0 where
  pub gas_price : ℕ
  pub min_gas : ℕ
  pub transit_fee : ℕ
  pub storage_fee : ℕ
  pub rental_rate_per_epoch : ℕ
  pub max_term_epochs : ℕ
  pub grace_epochs : ℕ
  pub reparent_fee : ℕ
  pub delete_fee : ℕ
  pub domain_update_fee : ℕ
  pub domain_transfer_fee : ℕ
  pub domain_delete_fee : ℕ
  pub index_entry_fee : ℕ
  pub burn_bps : ℕ
  pub storage_refund_bps : ℕ

pub record FeeSplit : Type 0 where
  pub total : ℕ
  pub burned : ℕ
  pub epoch : ℕ

abbrev default_max_term_epochs : ℕ
default_max_term_epochs = 256

abbrev default_grace_epochs : ℕ
default_grace_epochs = 8

abbrev pub default_fee_params : FeeParams
default_fee_params = record {
  gas_price = 1;
  min_gas = 100;
  transit_fee = 10;
  storage_fee = 1000;
  rental_rate_per_epoch = 100;
  max_term_epochs = default_max_term_epochs;
  grace_epochs = default_grace_epochs;
  reparent_fee = 100;
  delete_fee = 100;
  domain_update_fee = 100;
  domain_transfer_fee = 100;
  domain_delete_fee = 100;
  index_entry_fee = 25;
  burn_bps = 0;
  storage_refund_bps = 9500;
}

abbrev pub bps_max : ℕ
bps_max = 10000

pub record ObjectRef : Type 0 where
  pub id : Hash
  pub replication : ℕ

unfoldable effective_rep : ℕ → ℕ → ℕ
effective_rep replication total_validators =
    if replication == 0 then total_validators else replication

storage_deposit : ℕ → ℕ → ℕ → ℕ → ℕ
unfolding effective_rep
storage_deposit replication total_validators storage_fee index_entry_fee =
    if total_validators == 0
    then 0
    else safe_add
        (safe_mul (effective_rep replication total_validators) storage_fee / total_validators)
        index_entry_fee

declared_op_fee : DeclaredOp → FeeParams → ℕ
declared_op_fee op params =
    if op.kind == reparent_op
    then params.reparent_fee
    else if op.kind == delete_op
    then params.delete_fee
    else if op.kind == domain_register_op || op.kind == domain_renew_op
    then safe_mul params.rental_rate_per_epoch op.term_epochs
    else if op.kind == domain_update_op
    then params.domain_update_fee
    else if op.kind == domain_transfer_op
    then params.domain_transfer_fee
    else if op.kind == domain_delete_op
    then params.domain_delete_fee
    else 0

-- `for i := range ops { total = safeAdd(total, declaredOpFee(ops[i], params)) }`
declared_ops_loop : ℕ → List DeclaredOp → FeeParams → ℕ
declared_ops_loop total [] params = total
declared_ops_loop total (op ∷ ops) params =
    declared_ops_loop (safe_add total (declared_op_fee op params)) ops params

declared_ops_fee : List DeclaredOp → FeeParams → ℕ
declared_ops_fee ops params = declared_ops_loop 0 ops params

-- The loop over createdObjectsReplication in CalculateFee.
storage_loop : ℕ → List ℕ → ℕ → FeeParams → ℕ
storage_loop total [] total_validators params = total
storage_loop total (rep ∷ reps) total_validators params =
    storage_loop
      (safe_add total
        (storage_deposit rep total_validators params.storage_fee params.index_entry_fee))
      reps total_validators params

-- The `switch` of CalculateFee: the compute term.
compute_fee : ℕ → ℕ → ℕ → Bool → FeeParams → ℕ
compute_fee max_gas rep_num rep_denom ops_only params =
    if ops_only
    then safe_add 0 (safe_mul params.min_gas params.gas_price)
    else if ltb 0 rep_denom && ltb 0 rep_num
    then safe_add 0 (safe_mul (safe_mul max_gas params.gas_price) rep_num / rep_denom)
    else 0

pub calculate_fee :
    (max_gas rep_num rep_denom standard_object_count : ℕ)
    → List ℕ
    → List DeclaredOp
    → Bool
    → ℕ
    → FeeParams
    → ℕ
unfolding compute_fee
calculate_fee max_gas rep_num rep_denom standard_object_count reps ops ops_only total_validators
      params =
    let compute = compute_fee max_gas rep_num rep_denom ops_only params in
    let transit = safe_add compute (safe_mul standard_object_count params.transit_fee) in
    let storage =
      if ltb 0 total_validators
      then storage_loop transit reps total_validators params
      else transit in
    safe_add storage (declared_ops_fee ops params)

-- No overflow check stands in the two splits, so their products wrap.
split_fee : ℕ → FeeParams → FeeSplit
split_fee total params =
    let burned = mul64 total params.burn_bps / bps_max in
    record { total = total; burned = burned; epoch = sub64 total burned }

pub storage_refund : ℕ → FeeParams → ℕ × ℕ
storage_refund object_fees params =
    let refund = mul64 object_fees params.storage_refund_bps / bps_max in
    (refund, sub64 object_fees refund)

count_loop : ℕ → List ObjectRef → ℕ
count_loop count [] = count
count_loop count (ref ∷ refs) = count_loop (if ltb 0 ref.replication then suc count else count) refs

count_standard_objects : List ObjectRef → ℕ
unfolding count_loop
count_standard_objects refs = count_loop 0 refs

-- `map[Hash]struct{}` as the list of its keys.
add_key : Hash → List Hash → List Hash
add_key h seen = if contains h seen then seen else h ∷ seen

add_keys : List Hash → List Hash → List Hash
add_keys [] seen = seen
add_keys (h ∷ hs) seen = add_keys hs (add_key h seen)

has_singleton : List ObjectRef → Bool
has_singleton [] = false
has_singleton (ref ∷ refs) = if ref.replication == 0 then true else has_singleton refs

holder_union : (Hash → ℕ → List Hash) → List ObjectRef → List Hash → List Hash
holder_union compute_holders [] seen = seen
holder_union compute_holders (ref ∷ refs) seen =
    holder_union compute_holders refs (add_keys (compute_holders ref.id ref.replication) seen)

ratio_of_refs : List ObjectRef → (Hash → ℕ → List Hash) → ℕ → ℕ × ℕ
ratio_of_refs [] compute_holders total_validators = (0, 1)
ratio_of_refs (ref ∷ refs) compute_holders total_validators =
    if has_singleton (ref ∷ refs)
    then (1, 1)
    else (length (holder_union compute_holders (ref ∷ refs) []), total_validators)

replication_ratio : List ObjectRef → ℕ → (Hash → ℕ → List Hash) → ℕ → ℕ × ℕ
unfolding ratio_of_refs
replication_ratio mutable_refs created_objects_count compute_holders total_validators =
    if total_validators == 0
    then (0, 1)
    else if ltb 0 created_objects_count
    then (1, 1)
    else ratio_of_refs mutable_refs compute_holders total_validators
