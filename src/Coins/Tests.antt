-- ===== src/Coins/Tests.antt =====
-- The theorems on coins at a store with one coin of 600.
use blue_pods.Prelude.{
  ◌≡◌, refl, true, false, [], ◌∷◌, none, some, arith, bytes_eq, bytes_eq_iff, if◌then◌else◌,
  replicate, subst, ◌∙◌,
}
use blue_pods.Types.{Hash, contains}
use blue_pods.Bytes.{le_num}
use blue_pods.Coins.{Object, State, extract_object_id, read_coin_balance}
use blue_pods.Coins.Store.{IsStore, AreBytes}
use blue_pods.Coins.Balance.{balance_of}
use blue_pods.Coins.Backing.{IsBacked, sum_balances}
use blue_pods.Coins.Flows.{fee, flow, flow-IsBacked}

abbrev pub key : Hash
key = replicate 32 7

abbrev coin : Object
coin = record {
  id = key;
  version = 3;
  owner = replicate 32 9;
  replication = 0;
  content = 88 ∷ 2 ∷ 0 ∷ 0 ∷ 0 ∷ 0 ∷ 0 ∷ 0 ∷ [];
  fees = 0;
  parent_kind = 0;
}

abbrev pub wallet : State
wallet = record {
  objects = λ k. if bytes_eq key k then some coin else none;
  counters = record { total_supply = 1000; coins_total = 600; db = none };
}

-- What stands under a key of the wallet is the coin, under its own key.
only_coin : (k : Hash) (o : Object) → wallet.objects k ≡ some o → (coin ≡ o) × (key ≡ k)
only_coin k o e = ground (arith, bytes_eq_iff key k)

coin_is_keyed : extract_object_id coin ≡ key
unfolding extract_object_id
coin_is_keyed = refl

coin_bytes : AreBytes coin.content
coin_bytes = omega arith

wallet-IsStore : IsStore wallet
wallet-IsStore = record {
  keyed = λ k o e.
      let (same, there) = only_coin k o e in
      subst (λ (x : Object). extract_object_id x ≡ k) same (coin_is_keyed ∙ there);
  bytes = λ k o e. subst (λ (x : Object). AreBytes x.content) (only_coin k o e).0 coin_bytes;
}

coin_balance : read_coin_balance coin ≡ some 600
unfolding read_coin_balance le_num
coin_balance = refl

wallet_total : sum_balances (key ∷ []) wallet ≡ 600
unfolding balance_of read_coin_balance le_num bytes_eq
wallet_total = refl

wallet_keys : contains key [] ≡ false
unfolding contains
wallet_keys = refl

pub key_known : contains key (key ∷ []) ≡ true
unfolding contains bytes_eq
key_known = refl

pub wallet-IsBacked : IsBacked (key ∷ []) wallet
wallet-IsBacked = record {
  store = wallet-IsStore;
  distinct = (wallet_keys, tt);
  total = wallet_total;
}

flow-IsBacked_example : IsBacked (key ∷ []) (flow (fee key 700) wallet)
flow-IsBacked_example =
    flow-IsBacked (key ∷ []) wallet wallet-IsBacked (fee key 700) key_known (omega arith)
