-- ===== src/Deletion/Tests.antt =====
-- The deletion of an object with a deposit of 500, refunded to a wallet of 600.
use blue_pods.Prelude.{ℕ, ◌+◌, ◌≤◌, ◌≡◌, refl, [], ◌∷◌, some, true, arith}
use blue_pods.Types.{Hash, contains}
use blue_pods.Fees.{default_fee_params}
use blue_pods.Coins.Backing.{IsBacked}
use blue_pods.Coins.Tests.{key, wallet, wallet-IsBacked, key_known}
use blue_pods.Tracker.{get_fees}
use blue_pods.Tracker.Tests.{root, tracker, root_deposit}
use blue_pods.Deletion.{Ledger, settle_deletion}
use blue_pods.Deletion.Accounts.{settle_deletion_lem}

abbrev pub ledger : Ledger
ledger = record {
  tracker = tracker;
  indexer = some [];
  fee_params = some default_fee_params;
  store = wallet;
}

only_key : (k : Hash) → some key ≡ some k → contains k (key ∷ []) ≡ true
only_key k e = ground (arith, key_known)

settle_deletion_lem_example :
    (r : Ledger) × (refund : ℕ) × (settle_deletion root (some key) ledger ≡ some (r, refund))
    × IsBacked (key ∷ []) r.store
    × (r.store.counters.coins_total ≡ 600 + refund)
    × (r.store.counters.total_supply + get_fees root tracker ≡ 1000 + refund)
    × (refund ≤ get_fees root tracker)
    × (get_fees root r.tracker ≡ 0)
settle_deletion_lem_example =
    settle_deletion_lem (key ∷ []) root (some key) ledger default_fee_params refl wallet-IsBacked
      only_key (omega arith) (omega (arith, root_deposit)) (omega (arith, root_deposit))
      (omega (arith, root_deposit))
