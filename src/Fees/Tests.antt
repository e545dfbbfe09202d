-- ===== src/Fees/Tests.antt =====
-- Runs of the fee functions, and each theorem at an input.
use blue_pods.Prelude.{ℕ, ◌+◌, ◌*◌, ◌≡◌, refl, false, List, [], ◌∷◌, min, arith, bytes_eq}
use blue_pods.Types.{Hash, DeclaredOp, domain_register_op, contains}
use blue_pods.Word.{u64_max, safe_mul, safe_add}
use blue_pods.Fees.{
  ObjectRef, default_fee_params, calculate_fee, storage_deposit, storage_loop, declared_ops_loop,
  declared_op_fee, has_singleton, holder_union, add_keys, add_key, replication_ratio,
  declared_ops_fee,
}
use blue_pods.Fees.Exact.{IsWord, compute_term, deposit_terms, op_terms, calculate_fee-eq-schedule}
use blue_pods.Fees.Ratio.{Within}

abbrev register : DeclaredOp
register = record {
  kind = domain_register_op;
  object_id = [];
  target_kind = 0;
  target = [];
  name = [];
  term_epochs = 12;
}

abbrev default_IsWord : IsWord default_fee_params
default_IsWord = record {
  min_gas = omega arith;
  transit = omega arith;
  reparent = omega arith;
  delete = omega arith;
  domain_update = omega arith;
  domain_transfer = omega arith;
  domain_delete = omega arith;
  index_entry = omega arith;
}

-- 5000 gas on half of the validators, two attested objects, one new object on 10 of 40 holders and
-- a lease of 12 epochs: 2500 + 20 + 275 + 1200.
fee_run : calculate_fee 5000 20 40 2 (10 ∷ []) (register ∷ []) false 40 default_fee_params ≡ 3995
unfolding calculate_fee declared_ops_fee storage_loop declared_ops_loop declared_op_fee
    storage_deposit safe_mul safe_add
fee_run = refl

calculate_fee-eq-schedule_example :
    calculate_fee 5000 20 40 2 (10 ∷ []) (register ∷ []) false 40 default_fee_params
    ≡ min
        (compute_term 5000 20 40 false default_fee_params
          + 2 * 10
          + deposit_terms (10 ∷ []) 40 default_fee_params
          + op_terms (register ∷ []) default_fee_params)
        u64_max
calculate_fee-eq-schedule_example =
    calculate_fee-eq-schedule default_fee_params default_IsWord 5000 20 40 2 (10 ∷ [])
      (register ∷ []) false 40 (omega arith)

abbrev large_deposit : ℕ
large_deposit = 2_000_000_000_000_000

abbrev two_holders : Hash → ℕ → List Hash
two_holders id replication = (1 ∷ []) ∷ (2 ∷ []) ∷ []

abbrev members : List Hash
members = (1 ∷ []) ∷ (2 ∷ []) ∷ (3 ∷ []) ∷ []

abbrev standard : ObjectRef
standard = record { id = 7 ∷ []; replication = 2 }

ratio_run : replication_ratio (standard ∷ standard ∷ []) 0 two_holders 3 ≡ (2, 3)
unfolding replication_ratio has_singleton holder_union add_keys add_key contains bytes_eq
ratio_run = refl

holders_are_members : (id : Hash) (replication : ℕ) → Within (two_holders id replication) members
unfolding contains bytes_eq
holders_are_members id replication = (refl, (refl, tt))
