-- ===== src/Fees/Split.antt =====
-- SplitFee and StorageRefund: where the consumed fee and a deleted object's deposit go.
use blue_pods.Prelude.{ℕ, ◌+◌, ◌*◌, ◌/◌, ◌≤◌, ◌≡◌, arith}
use blue_pods.Prelude.Arith.{mul_mono}
use blue_pods.Word.{u64_max, mul64}
use blue_pods.Fees.{FeeParams, bps_max, split_fee, storage_refund}

share-le : (x bps : ℕ) → bps ≤ bps_max → mul64 x bps / bps_max ≤ x
share-le x bps h = omega (arith, mul_mono x bps x bps_max)

-- A consumed fee is split with nothing lost or made up, and the burned share never exceeds it.
split_fee-conserves :
    (total : ℕ) (p : FeeParams)
    → total ≤ u64_max
    → p.burn_bps ≤ bps_max
    → ((split_fee total p).burned + (split_fee total p).epoch ≡ total)
      × ((split_fee total p).burned ≤ total)
unfolding split_fee
split_fee-conserves total p ht hb = omega (arith, share-le total p.burn_bps hb)

-- Refund and burned share add up to the deposit, and the refund is the ratio of the deposit
-- rounded down, as long as the product fits in 64 bits.
storage_refund-conserves :
    (fees : ℕ) (p : FeeParams)
    → p.storage_refund_bps ≤ bps_max
    → fees ≤ u64_max
    → ((storage_refund fees p).0 + (storage_refund fees p).1 ≡ fees)
      × (fees * p.storage_refund_bps ≤ u64_max
          → (storage_refund fees p).0 ≡ fees * p.storage_refund_bps / bps_max)
unfolding storage_refund
storage_refund-conserves fees p hb hf = omega (arith, share-le fees p.storage_refund_bps hb)
