-- ===== src/Ops/Tests.antt =====
-- The theorems on operations at a transfer and a registration of the object `root`.
use blue_pods.Prelude.{◌≡◌, refl, some, none, ◌∷◌, [], replicate, Bool, true, ◌⊎◌, inr}
use blue_pods.Types.{Hash, DeclaredOp, contains}
use blue_pods.Fees.{default_fee_params}
use blue_pods.Tracker.{get_parent}
use blue_pods.Tracker.Tests.{root, owner}
use blue_pods.Deletion.Tests.{ledger}
use blue_pods.Registry.{Registry, Name, DomainLeafView, domain_leaf, get}
use blue_pods.Registry.Leaves.{IsRegistry}
use blue_pods.Ops.{OpsState, OpsTx, handle_declared_ops, mutable_ref_id_set}
use blue_pods.Ops.Lists.{Handled, handle_declared_ops_lem}
use blue_pods.Ops.Foreign.{leaf_of, handle_declared_ops_safe}

abbrev no_names : Registry
no_names = λ name. none

no_names-IsRegistry : IsRegistry no_names
unfolding domain_leaf get
no_names-IsRegistry k leaf e = absurd cc

abbrev state : OpsState
state = record { ledger = ledger; domains = some no_names; index_calls = [] }

abbrev transfer : DeclaredOp
transfer = record {
  kind = 0;
  object_id = root;
  target_kind = 0;
  target = replicate 32 8;
  name = [];
  term_epochs = 0;
}

abbrev register : DeclaredOp
register = record {
  kind = 2;
  object_id = root;
  target_kind = 0;
  target = [];
  name = 97 ∷ [];
  term_epochs = 4;
}

abbrev call : OpsTx
call = record {
  tx = record {
    sender = owner;
    pod = [];
    function_name = [];
    args = [];
    read_refs = [];
    mutable_refs = record { id = root; version = 3; domain = [] } ∷ [];
  };
  gas_coin = [];
  operations = register ∷ transfer ∷ [];
  created_objects_replication = [];
}

handle_declared_ops_lem_example :
    (st' : OpsState) × (success : Bool) × (handle_declared_ops call 7 state ≡ some (st', success))
    × Handled default_fee_params 7 call state st' success
handle_declared_ops_lem_example =
    handle_declared_ops_lem call 7 state default_fee_params refl
      (inr (no_names, refl, no_names-IsRegistry))

handle_declared_ops_safe_example :
    (st' : OpsState) × (success : Bool) × (handle_declared_ops call 7 state ≡ some (st', success))
    × ((k : Hash)
        → (contains k (mutable_ref_id_set call.tx.mutable_refs) ≡ true)
          ⊎ (get_parent k st'.ledger.tracker ≡ get_parent k state.ledger.tracker))
    × ((name : Name)
        → (leaf_of name state ≡ none)
          ⊎ (((leaf : DomainLeafView) × (leaf_of name state ≡ some leaf)
                × (leaf.owner ≡ call.tx.sender))
              ⊎ (leaf_of name st' ≡ leaf_of name state)))
handle_declared_ops_safe_example =
    handle_declared_ops_safe call 7 state default_fee_params refl
      (inr (no_names, refl, no_names-IsRegistry))
