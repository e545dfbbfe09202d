-- ===== src/Distribution/Tests.antt =====
-- The credits of an epoch at a wallet of 600, a validator with 50 of its own, and a position of 80.
use blue_pods.Prelude.{
  false, ℕ, ◌≤◌, ◌≡◌, refl, List, [], ◌∷◌, some, true, false, arith, replicate, inr, bytes_eq,
}
use blue_pods.Validators.{ValidatorInfo, zero_bls}
use blue_pods.Validators.Index.{view}
use blue_pods.Coins.{State, set_object}
use blue_pods.Coins.Tests.{key, wallet, key_known}
use blue_pods.Staking.{Dag, build_delegation_object}
use blue_pods.Staking.Values.{worth}
use blue_pods.Staking.Tests.{nine, digest, digest_apart, funded, funded-IsSound}
use blue_pods.Rewards.{DelegatorShare}
use blue_pods.Rewards.Tests.{scan}
use blue_pods.Distribution.{RewardParams, credit_share}
use blue_pods.Distribution.Credits.{Grows}
use blue_pods.Distribution.Compounding.{IsReady}
use blue_pods.Distribution.Shares.{credit_share_lem}

abbrev info : ValidatorInfo
info = record {
  pubkey = nine;
  quic_addr = [];
  bls_pubkey = zero_bls;
  self_stake = 50;
  delegated_total = 80;
  jailed = false;
  reward_coin = replicate 32 0;
}

-- The same validator with the wallet's coin as its reward coin.
abbrev paid : ValidatorInfo
paid = record info { reward_coin = key }

abbrev store : State
store = set_object (build_delegation_object digest nine nine 80) wallet

total_before : worth funded ≡ 730
unfolding set_object
total_before = refl

funded_member : view funded.validators nine ≡ some info
unfolding bytes_eq
funded_member = refl

abbrev funded-IsReady : IsReady (key ∷ []) nine 50 funded
funded-IsReady = record {
  sound = funded-IsSound;
  store = store;
  stored = refl;
  info = info;
  member = funded_member;
  own = refl;
}

abbrev payouts : List DelegatorShare
payouts = record { delegator = nine; amount = 7 } ∷ record { delegator = key; amount = 5 } ∷ []

abbrev params : RewardParams
params = record {
  commission_bps = 1000;
  auto_restake_mille = 500;
  wired = true;
  governed = true;
  epoch_fees = λ epoch. 0;
  rounds_produced = λ epoch k. 1;
}

credit_share_lem_example :
    (r : Dag) × (moved : ℕ) × (credit_share digest
        (replicate 32 3 ∷ key ∷ [])
        params
        paid
        100
        funded
      ≡ some (r, moved))
    × Grows (key ∷ []) funded moved r
    × (moved ≤ 100)
credit_share_lem_example =
    credit_share_lem digest (replicate 32 3 ∷ key ∷ []) (key ∷ []) params paid 100 funded
      funded-IsReady (λ bytes. refl) (λ delegator. digest_apart delegator nine) refl (omega arith)
      (inr key_known) refl (omega arith) (omega arith) (omega (arith, scan)) (omega (arith, scan))
      (omega (arith, total_before))
