-- ===== src/Deletion/Released.antt =====
-- Beside the accounts, a settlement changes the tracker only: it lets the object go.
use blue_pods.Prelude.{
  ℕ, ◌≡◌, refl, List, ◌∷◌, Option, none, some, ◌==◌, Bool-cases, Option-cases, inl, inr, ◌/◌, arith,
}
use mathlib.Core.Option
use blue_pods.Types.{Hash}
use blue_pods.Word.{mul64}
use blue_pods.Fees.{FeeParams, bps_max}
use blue_pods.Coins.{credit_coin}
use blue_pods.Tracker.{get_fees, delete_object}
use blue_pods.Deletion.{Ledger, burn, settle_deposit, settle_deletion}

settle_deposit_fields :
    (deposit : ℕ) (gas_coin : Option Hash) (params : FeeParams) (l : Ledger)
    → ((settle_deposit deposit gas_coin params l).0.tracker ≡ l.tracker)
      × ((settle_deposit deposit gas_coin params l).0.fee_params ≡ l.fee_params)
unfolding settle_deposit burn
settle_deposit_fields deposit none params l = (refl, refl)
settle_deposit_fields deposit (some gas_coin) params l =
    let refund = mul64 deposit params.storage_refund_bps / bps_max in
    elim (Bool-cases (params.storage_refund_bps == 0)) [
      | inl free ↦ rw (settle_deposit, free) (refl, refl)
      | inr paid ↦ elim (Option-cases (credit_coin gas_coin refund l.store)) [
        | inl refused ↦ rw (settle_deposit, paid, refused) (refl, refl)
        | inr (s, credited) ↦ rw (settle_deposit, paid, credited) (refl, refl)
      ]
    ]

-- A settlement with fee parameters does not panic.
pub settle_deletion_fields :
    (id : Hash) (gas_coin : Option Hash) (l : Ledger) (params : FeeParams)
    → l.fee_params ≡ some params
    → (r : Ledger) × (refund : ℕ) × (settle_deletion id gas_coin l ≡ some (r, refund))
      × (r.tracker ≡ delete_object id l.tracker)
      × (r.fee_params ≡ l.fee_params)
unfolding settle_deletion
settle_deletion_fields id gas_coin l params wired =
    let deposit = get_fees id l.tracker in
    let released : Ledger = record l {
      tracker = delete_object id l.tracker;
      indexer = Option.map (λ (ids : List Hash). id ∷ ids) l.indexer;
    } in
    elim (Bool-cases (deposit == 0)) [
      | inl free ↦ (released, 0, rw (settle_deletion, free) refl, refl, refl)
      | inr paid ↦
          let settled = settle_deposit deposit gas_coin params released in
          let (tracker, fee_params) = settle_deposit_fields deposit gas_coin params released in
          (settled.0, settled.1, ground (arith, paid, wired), tracker, fee_params)
    ]
