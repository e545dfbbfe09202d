-- ===== src/Rewards/Tests.antt =====
-- The scan of a store with a position, and a reward of 1000 between a validator that holds 600 and two delegators.
use blue_pods.Prelude.{refl, ℕ, ◌+◌, ◌≤◌, ◌≡◌, List, [], ◌∷◌, some, arith, replicate}
use blue_pods.Bytes.{le_num, le_bytes}
use blue_pods.Prelude.{bytes_eq}
use blue_pods.Coins.{get_object, set_object, extract_object_id}
use blue_pods.Coins.Tests.{key, wallet}
use blue_pods.Staking.{build_delegation_object, encode_delegation_content, delegation_id}
use blue_pods.Staking.Tests.{nine, digest}
use blue_pods.Rewards.{
  delegations_for, is_object_key, no_prefix, has_prefix, decode_delegation_position, DelegatorShare,
  self_share, split_validator_reward,
}
use blue_pods.Rewards.Split.{sum_amounts, amounts_of, split_validator_reward_lem}

abbrev delegators : List DelegatorShare
delegators =
    record { delegator = replicate 32 1; amount = 300 }
    ∷ record { delegator = replicate 32 2; amount = 100 }
    ∷ []

split_validator_reward_lem_example :
    (mine pool : ℕ) × (split_validator_reward 1000 600 500 delegators
      ≡ some (mine, amounts_of pool 400 delegators))
    × (mine + sum_amounts (amounts_of pool 400 delegators) ≡ 1000)
    × (self_share 1000 600 1000 + pool ≤ 1000)
split_validator_reward_lem_example =
    split_validator_reward_lem 1000 600 500 delegators (omega arith) (omega arith) (omega arith)
      (omega arith)

-- The position of 80 beside the wallet, under the digest's key.
pub scan :
    sum_amounts (
      delegations_for
        (replicate 32 3 ∷ key ∷ [])
        nine
        (set_object (build_delegation_object digest nine nine 80) wallet))
    ≡ 80
unfolding delegations_for is_object_key no_prefix has_prefix decode_delegation_position get_object
    set_object extract_object_id build_delegation_object encode_delegation_content delegation_id
    bytes_eq le_num le_bytes
scan = refl
