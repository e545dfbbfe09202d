-- ===== src/Deletion.antt =====
-- The settlement of a deleted object's storage deposit, settleDeletion of
-- internal/consensus/commit.go. `none` is the panic on a missing fee schedule. The index is the
-- list of the objects that it was told to remove; events are left out.
pub mod Accounts
pub mod Released
pub mod Tests
use blue_pods.Prelude.{
  ℕ, ◌-◌, ◌*◌, ◌/◌, List, [], ◌∷◌, Option, none, some, ◌==◌, if◌then◌else◌, map,
}
use mathlib.Core.Option
use blue_pods.Types.{Hash}
use blue_pods.Word.{mul64, sub64}
use blue_pods.Supply.{sub_supply}
use blue_pods.Fees.{FeeParams, bps_max}
use blue_pods.Coins.{State, credit_coin}
use blue_pods.Tracker.{Tracker, get_fees, delete_object}

pub record Ledger : Type 0 where
  pub tracker : Tracker
  pub indexer : Option (List Hash)
  pub fee_params : Option FeeParams
  pub store : State

burn : ℕ → Ledger → Ledger
burn amount l = record l {
  store = record l.store { counters = sub_supply amount l.store.counters };
}

-- The deposit is positive, and the tracker and the index have let the object go.
settle_deposit : ℕ → Option Hash → FeeParams → Ledger → Ledger × ℕ
unfolding burn
settle_deposit deposit none params l = (burn deposit l, 0)
settle_deposit deposit (some gas_coin) params l =
    if params.storage_refund_bps == 0
    then (burn deposit l, 0)
    else let refund = mul64 deposit params.storage_refund_bps / bps_max in
      let burned = sub64 deposit refund in
      elim (credit_coin gas_coin refund l.store) [
        | none ↦ (burn deposit l, 0)
        | some s ↦ (burn burned (record l { store = s }), refund)
      ]

pub settle_deletion : Hash → Option Hash → Ledger → Option (Ledger × ℕ)
unfolding settle_deposit
settle_deletion id gas_coin l =
    let deposit = get_fees id l.tracker in
    let released = record l {
      tracker = delete_object id l.tracker;
      indexer = Option.map (λ (ids : List Hash). id ∷ ids) l.indexer;
    } in
    if deposit == 0 then some (released, 0) else elim l.fee_params [
      | none ↦ none
      | some params ↦ some (settle_deposit deposit gas_coin params released)
    ]
