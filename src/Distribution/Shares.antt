-- ===== src/Distribution/Shares.antt =====
-- The share of one validator (creditShare of internal/consensus/epoch.go).
use blue_pods.Prelude.{ℕ, ◌+◌, ◌≤◌, ◌<◌, ◌≡◌, ◌⊎◌, List, some, true, false, arith, length, bytes_eq}
use blue_pods.Types.{Hash, contains}
use blue_pods.Word.{u64_max, add64}
use blue_pods.Fees.{bps_max}
use blue_pods.Validators.{ValidatorInfo, zero_hash}
use blue_pods.Coins.Store.{AreBytes}
use blue_pods.Staking.{Dag, delegation_id}
use blue_pods.Staking.Values.{worth}
use blue_pods.Rewards.{mille_max, delegations_for}
use blue_pods.Rewards.Split.{sum_amounts, amounts_of, split_validator_reward_lem}
use blue_pods.Distribution.{RewardParams, delegator_shares, own_credit, credit_share}
use blue_pods.Distribution.Credits.{restake_le, Grows, credit_validator_reward_lem}
use blue_pods.Distribution.Compounding.{IsReady, credit_delegators_lem}

-- The share of a validator with delegators is credited without loss or gain: what is reported is
-- what the coins and the stakes gain, never more than the share, and nothing panics. The state must
-- be sound with a store, the validator be a member with a 32-byte key and the self-stake that it
-- is given with, its reward coin be one of the coins, BLAKE3 give 32 bytes, its positions be no
-- coins and hold stake, the commission and the restaked fraction be at most one, and the stakes and
-- the value after the credit fit uint64.
pub credit_share_lem :
    (blake3 : List ℕ → Hash) (keys coins : List Hash) (p : RewardParams) (v : ValidatorInfo)
    (share : ℕ) (d : Dag) (w : IsReady coins v.pubkey v.self_stake d)
    → ((bytes : List ℕ) → length (blake3 bytes) ≡ 32)
    → ((delegator : Hash) → contains (delegation_id blake3 delegator v.pubkey) coins ≡ false)
    → length v.pubkey ≡ 32
    → AreBytes v.pubkey
    → (bytes_eq v.reward_coin zero_hash ≡ true) ⊎ (contains v.reward_coin coins ≡ true)
    → p.wired ≡ true
    → p.commission_bps ≤ bps_max
    → p.auto_restake_mille ≤ mille_max
    → 0 < sum_amounts (delegations_for keys v.pubkey w.store)
    → v.self_stake + sum_amounts (delegations_for keys v.pubkey w.store) ≤ u64_max
    → worth d + share ≤ u64_max
    → (r : Dag) × (moved : ℕ) × (credit_share blake3 keys p v share d ≡ some (r, moved))
      × Grows coins d moved r
      × (moved ≤ share)
unfolding credit_share own_credit delegator_shares
credit_share_lem blake3 keys coins p v share d w digest apart wide plain known wired bps fraction
      some_stake fits room =
    let dels = delegations_for keys v.pubkey w.store in
    let stored = w.stored in
    let (mine, pool, divided, whole, _) =
      split_validator_reward_lem share v.self_stake p.commission_bps dels (omega (arith, room)) fits
        bps some_stake in
    let payouts = amounts_of pool (sum_amounts dels) dels in
    let (d', first, paid, ready, gained, bound) =
      credit_delegators_lem blake3 keys coins v.pubkey v.self_stake payouts d digest apart wide
        plain w (omega (arith, whole, room)) in
    let (r, second, own, (sound, grown), which) =
      credit_validator_reward_lem coins d' ready.store v ready.info p.auto_restake_mille mine
        ready.sound ready.stored ready.member ready.own known fraction
        (omega (arith, gained, bound, whole, room)) in
    let most = restake_le mine p.auto_restake_mille fraction in
    let small : second ≤ mine = ground (arith, which, most) in
    let total : add64 first second ≡ first + second = omega (arith, small, bound, whole, room) in
    (
      r,
      first + second,
      ground (arith, wired, stored, divided, paid, own, total),
      (sound, omega (arith, grown, gained)),
      omega (arith, small, bound, whole),
    )
