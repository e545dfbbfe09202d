-- ===== src/Deletion/Accounts.antt =====
-- The deposit of a deleted object leaves the tracker, and its refund and burn account for all of it
-- (settleDeletion of internal/consensus/commit.go).
use mathlib.Core.Option
use blue_pods.Prelude.{
  ℕ, ◌+◌, ◌-◌, ◌*◌, ◌/◌, ◌≤◌, ◌≡◌, refl, ap, sym, ◌∙◌, List, [], ◌∷◌, Option, none, some, true,
  ◌==◌, arith, Option-cases, Bool-cases, inl, inr,
}
use blue_pods.Prelude.Arith.{div-le_of_le_mul, mul_mono}
use blue_pods.Types.{Hash, contains}
use blue_pods.Word.{u64_max, mul64, sub64}
use blue_pods.Supply.{Counters, sub_supply}
use blue_pods.Supply.Laws.{total_supply-sub_supply}
use blue_pods.Fees.{FeeParams, bps_max}
use blue_pods.Coins.{State, credit_coin}
use blue_pods.Coins.Backing.{IsBacked, sum_balances}
use blue_pods.Coins.Supplies.{total_supply-credit_coin}
use blue_pods.Staking.Values.{credit_coin-IsBacked}
use blue_pods.Tracker.{get_fees, delete_object}
use blue_pods.Tracker.Deletions.{get_fees-delete_object}
use blue_pods.Deletion.{Ledger, burn, settle_deposit, settle_deletion}

sum_balances-counters :
    (coins : List Hash) (s : State) (c : Counters)
    → sum_balances coins (record s { counters = c }) ≡ sum_balances coins s
sum_balances-counters [] s c = refl
sum_balances-counters (k ∷ ks) s c = omega (arith, sum_balances-counters ks s c)

-- The ledger after a settlement: the coins gain the refund, and the supply loses the rest.
abbrev Settled : List Hash → Ledger → ℕ → Ledger → ℕ → Type 0
Settled coins l deposit r refund =
    IsBacked coins r.store
    × (r.store.counters.coins_total ≡ l.store.counters.coins_total + refund)
    × (r.store.counters.total_supply + deposit ≡ l.store.counters.total_supply + refund)
    × (refund ≤ deposit)
    × (r.tracker ≡ l.tracker)

burn_lem :
    (coins : List Hash) (l : Ledger) (n : ℕ)
    → IsBacked coins l.store
    → n ≤ l.store.counters.total_supply
    → Settled coins l n (burn n l) 0
unfolding burn
burn_lem coins l n w h =
    let (less, kept) = total_supply-sub_supply n l.store.counters h in
    (
      record {
        store = record { keyed = w.store.keyed; bytes = w.store.bytes };
        distinct = w.distinct;
        total =
            sum_balances-counters coins l.store (sub_supply n l.store.counters)
            ∙ w.total
            ∙ sym kept;
      },
      omega (arith, kept),
      omega (arith, less),
      omega arith,
      refl,
    )

module _ (coins : List Hash) (l : Ledger) (w : IsBacked coins l.store) (deposit : ℕ)
    (params : FeeParams) (share : params.storage_refund_bps ≤ bps_max)
    (exact : deposit * params.storage_refund_bps ≤ u64_max)
    (covered : deposit ≤ l.store.counters.total_supply)
    (room : l.store.counters.coins_total + deposit ≤ u64_max) where
  refunded : ℕ
  refunded = deposit * params.storage_refund_bps / bps_max

  refunded-le : refunded ≤ deposit
  unfolding refunded
  refunded-le =
      div-le_of_le_mul (deposit * params.storage_refund_bps) deposit bps_max (omega arith)
        (mul_mono deposit params.storage_refund_bps deposit bps_max (omega arith) share)

  refund_lem :
      (k : Hash)
      → contains k coins ≡ true
      → (r : Ledger) × (refund : ℕ) × (settle_deposit deposit (some k) params l ≡ (r, refund))
        × Settled coins l deposit r refund
  unfolding settle_deposit refunded
  refund_lem k known = elim (Bool-cases (params.storage_refund_bps == 0)) [
    | inl nothing ↦ (burn deposit l, 0, ground (arith, nothing), burn_lem coins l deposit w covered)
    | inr some_part ↦
        let le = refunded-le in
        let product : mul64 deposit params.storage_refund_bps / bps_max ≡ refunded =
          omega (arith, exact) in
        let rest : sub64 deposit refunded ≡ deposit - refunded = omega (arith, le, room) in
        elim (Option-cases (credit_coin k refunded l.store)) [
          | inl failed ↦ (
            burn deposit l,
            0,
            ground (arith, some_part, product, failed),
            burn_lem coins l deposit w covered,
          )
          | inr (s, done) ↦
              let (backed, gained) =
                credit_coin-IsBacked coins l.store w k known refunded s (omega (arith, le, room))
                  done in
              let same = total_supply-credit_coin k refunded l.store s done in
              let paid = record l { store = s } in
              let (kept, coins_same, burnt, _, _) =
                burn_lem coins paid (deposit - refunded) backed (omega (arith, same, covered)) in
              (
                burn (deposit - refunded) paid,
                refunded,
                ground (arith, some_part, product, done, rest),
                (kept, omega (arith, coins_same, gained), omega (arith, burnt, same, le), le, refl),
              )
        ]
  ]

  settle_deposit_lem :
      (gas : Option Hash)
      → ((k : Hash) → gas ≡ some k → contains k coins ≡ true)
      → (r : Ledger) × (refund : ℕ) × (settle_deposit deposit gas params l ≡ (r, refund))
        × Settled coins l deposit r refund
  unfolding settle_deposit
  settle_deposit_lem none known = (burn deposit l, 0, refl, burn_lem coins l deposit w covered)
  settle_deposit_lem (some k) known = refund_lem k (known k refl)

-- A settlement never panics: the object leaves the tracker with its deposit, the coins gain exactly
-- the refund that is reported, and the supply loses the rest of the deposit, so the supply beyond
-- the coins falls by the whole deposit, on every branch. The coins' total must be that of the
-- coins, the gas coin be one of them, a schedule be in force whose refund share is at most 100%,
-- the supply cover the deposit, and the share's product and the coins after it fit uint64.
pub settle_deletion_lem :
    (coins : List Hash) (id : Hash) (gas : Option Hash) (l : Ledger) (params : FeeParams)
    → l.fee_params ≡ some params
    → IsBacked coins l.store
    → ((k : Hash) → gas ≡ some k → contains k coins ≡ true)
    → params.storage_refund_bps ≤ bps_max
    → get_fees id l.tracker * params.storage_refund_bps ≤ u64_max
    → get_fees id l.tracker ≤ l.store.counters.total_supply
    → l.store.counters.coins_total + get_fees id l.tracker ≤ u64_max
    → (r : Ledger) × (refund : ℕ) × (settle_deletion id gas l ≡ some (r, refund))
      × IsBacked coins r.store
      × (r.store.counters.coins_total ≡ l.store.counters.coins_total + refund)
      × (r.store.counters.total_supply + get_fees id l.tracker
          ≡ l.store.counters.total_supply + refund)
      × (refund ≤ get_fees id l.tracker)
      × (get_fees id r.tracker ≡ 0)
unfolding settle_deletion
settle_deletion_lem coins id gas l params ruled w known share exact covered room =
    let released = record l {
      tracker = delete_object id l.tracker;
      indexer = Option.map (λ (ids : List Hash). id ∷ ids) l.indexer;
    } in
    let out = get_fees-delete_object id l.tracker in
    elim (Bool-cases (get_fees id l.tracker == 0)) [
      | inl nothing ↦ (
        released,
        0,
        ground (arith, nothing),
        w,
        omega arith,
        ground (arith, nothing),
        omega arith,
        out,
      )
      | inr held ↦
          let (r, refund, done, (backed, gained, burnt, le, same)) =
            settle_deposit_lem coins released w (get_fees id l.tracker) params share exact covered
              room gas known in
          (
            r,
            refund,
            ground (arith, held, ruled, done),
            backed,
            gained,
            burnt,
            le,
            ap (get_fees id) same ∙ out,
          )
    ]
