-- ===== src/Staking/Tests.antt =====
-- The staking handlers at a wallet of 600 and one validator with a stake of 50.
use blue_pods.Prelude.{
  ℕ, zero, suc, ◌≤◌, ◌≡◌, refl, [], ◌∷◌, List, ◌++◌, none, some, true, false, arith, bytes_eq,
  bytes_eq_iff, if◌then◌else◌, replicate, subst, Bool-cases, inl, inr,
}
use blue_pods.Types.{Hash, Tx, contains}
use blue_pods.Bytes.{le_num}
use blue_pods.Validators.{ValidatorInfo, ValidatorSet, zero_bls}
use blue_pods.Validators.Index.{Agrees, keys, view}
use blue_pods.Coins.{State, extract_object_id, get_object, set_object, strict_debit}
use blue_pods.Coins.Store.{AreBytes}
use blue_pods.Coins.Backing.{IsBacked}
use blue_pods.Coins.Tests.{key, wallet, wallet-IsBacked, key_known}
use blue_pods.Staking.{
  Dag, first_mutable_ref_id, first_ref_id, bond_func, unbond_func, delegate_func, undelegate_func,
  handle_bond, handle_unbond, handle_delegate, handle_undelegate, decode_delegate_args,
  delegation_id, read_delegation_amount, build_delegation_object, decode_delegation_content,
}
use blue_pods.Staking.Values.{IsSound}
use blue_pods.Staking.Outcomes.{NamesCoin, Settles, Decides}
use blue_pods.Staking.Bonding.{RefusesBond, IsBonded, handle_bond_lem}
use blue_pods.Staking.Unbonding.{RefusesUnbond, IsUnbonded, handle_unbond_lem}
use blue_pods.Staking.DelegateCalls.{principal}
use blue_pods.Staking.Delegating.{Delegated, handle_delegate_lem}
use blue_pods.Staking.Withdrawing.{Withdrawn, handle_undelegate_lem}
use blue_pods.Staking.Positions.{
  set_object-IsBacked, content-AreBytes, decode_delegation_content-encode,
  strict_debit-build_delegation_object,
}

abbrev pub nine : Hash
nine = replicate 32 9

abbrev solo : ValidatorSet
solo = record {
  validators =
      record {
        pubkey = nine;
        quic_addr = [];
        bls_pubkey = zero_bls;
        self_stake = 50;
        delegated_total = 0;
        jailed = false;
        reward_coin = replicate 32 0;
      }
      ∷ [];
  index = λ k. if bytes_eq nine k then some 0 else none;
  has_callback = false;
}

solo-Agrees : Agrees solo.index (keys solo)
solo-Agrees k zero = ground (arith, bytes_eq_iff nine k)
solo-Agrees k (suc i) = ground (arith, bytes_eq_iff nine k)

abbrev dag : Dag
dag = record {
  coin_store = some wallet;
  validators = solo;
  min_stake = 40;
  system_pod = replicate 32 1;
}

the_store : (s : State) → dag.coin_store ≡ some s → wallet ≡ s
the_store s e = ground arith

dag-IsSound : IsSound (key ∷ []) dag
dag-IsSound = record {
  indexed = record { at = solo-Agrees };
  backed = λ s e. subst (IsBacked (key ∷ [])) (the_store s e) wallet-IsBacked;
  room = omega arith;
}

abbrev call : List ℕ → List ℕ → Tx
call function_name args = record {
  sender = nine;
  pod = replicate 32 1;
  function_name = function_name;
  args = args;
  read_refs = [];
  mutable_refs = record { id = key; version = 3; domain = [] } ∷ [];
}

call-NamesCoin : (f args : List ℕ) → NamesCoin (key ∷ []) (call f args)
unfolding first_mutable_ref_id first_ref_id
call-NamesCoin f args k e = ground (arith, key_known)

abbrev eighty : List ℕ
eighty = 80 ∷ 0 ∷ 0 ∷ 0 ∷ 0 ∷ 0 ∷ 0 ∷ 0 ∷ []

handle_bond_lem_example :
    Decides
      (key ∷ [])
      dag
      (RefusesBond dag (call bond_func eighty))
      (λ r. IsBonded dag r (call bond_func eighty))
      (handle_bond dag (call bond_func eighty))
handle_bond_lem_example =
    handle_bond_lem (key ∷ []) dag (call bond_func eighty) dag-IsSound
      (call-NamesCoin bond_func eighty)

abbrev ten : List ℕ
ten = 10 ∷ 0 ∷ 0 ∷ 0 ∷ 0 ∷ 0 ∷ 0 ∷ 0 ∷ []

handle_unbond_lem_example :
    Decides
      (key ∷ [])
      dag
      (RefusesUnbond dag (call unbond_func ten))
      (λ r. IsUnbonded dag r (call unbond_func ten))
      (handle_unbond dag (call unbond_func ten))
handle_unbond_lem_example =
    handle_unbond_lem (key ∷ []) dag (call unbond_func ten) dag-IsSound
      (call-NamesCoin unbond_func ten)

-- A digest function for the runs: always the same 32 bytes.
abbrev pub digest : List ℕ → Hash
digest bytes = replicate 32 3

pub digest_apart : (a v : Hash) → contains (delegation_id digest a v) (key ∷ []) ≡ false
unfolding contains delegation_id bytes_eq
digest_apart a v = refl

abbrev delegate_args : List ℕ
delegate_args = nine ++ eighty

delegate_bytes : AreBytes delegate_args
delegate_bytes = omega arith

handle_delegate_lem_example :
    Settles
      (key ∷ [])
      dag
      (λ r.
        (v : Hash) × (n : ℕ) × (decode_delegate_args delegate_args true ≡ some (v, n))
        × Delegated digest dag r nine v n)
      (handle_delegate digest dag (call delegate_func delegate_args))
handle_delegate_lem_example =
    handle_delegate_lem digest (key ∷ []) dag (call delegate_func delegate_args) dag-IsSound
      (call-NamesCoin delegate_func delegate_args) delegate_bytes (λ bytes. refl)
      (digest_apart nine)

strict_debit-build_delegation_object_example :
    (s' : State) × (strict_debit
        (delegation_id digest nine nine)
        1000
        (set_object (build_delegation_object digest nine nine 80) wallet)
      ≡ some s')
unfolding le_num
strict_debit-build_delegation_object_example =
    strict_debit-build_delegation_object digest nine nine 80 wallet 1000 (λ bytes. refl)
      wallet-IsBacked.store refl (omega arith) (omega arith) (omega arith)

-- The wallet beside a position of 80 with the validator.
abbrev pub funded : Dag
funded = record dag {
  coin_store = some (set_object (build_delegation_object digest nine nine 80) wallet);
  validators = record {
    validators =
        record {
          pubkey = nine;
          quic_addr = [];
          bls_pubkey = zero_bls;
          self_stake = 50;
          delegated_total = 80;
          jailed = false;
          reward_coin = replicate 32 0;
        }
        ∷ [];
    index = solo.index;
    has_callback = false;
  };
}

position_elsewhere :
    contains (extract_object_id (build_delegation_object digest nine nine 80)) (key ∷ []) ≡ false
unfolding build_delegation_object extract_object_id contains delegation_id bytes_eq
position_elsewhere = refl

funded_store :
    (s : State)
    → funded.coin_store ≡ some s
    → set_object (build_delegation_object digest nine nine 80) wallet ≡ s
funded_store s e = ground arith

funded_bytes : AreBytes (build_delegation_object digest nine nine 80).content
funded_bytes = content-AreBytes digest nine nine 80 (λ bytes. refl) refl (omega arith) (omega arith)

funded_coins :
    (set_object (build_delegation_object digest nine nine 80) wallet).counters.coins_total ≡ 600
unfolding set_object
funded_coins = refl

pub funded-IsSound : IsSound (key ∷ []) funded
funded-IsSound = record {
  indexed = record { at = solo-Agrees };
  backed = λ s e. subst (IsBacked (key ∷ [])) (funded_store s e) (
      set_object-IsBacked (key ∷ []) wallet (build_delegation_object digest nine nine 80)
        wallet-IsBacked funded_bytes position_elsewhere);
  room = omega (arith, funded_coins);
}

funded_position :
    (v : Hash)
    → get_object
        (delegation_id digest nine v)
        (set_object (build_delegation_object digest nine nine 80) wallet)
      ≡ some (build_delegation_object digest nine nine 80)
unfolding get_object set_object build_delegation_object extract_object_id delegation_id bytes_eq
funded_position v = refl

position_content :
    decode_delegation_content (build_delegation_object digest nine nine 80).content
    ≡ some (nine, 80)
unfolding build_delegation_object
position_content = decode_delegation_content-encode nine 80 refl (omega arith)

position_seen :
    (v : Hash) → principal digest nine v funded ≡ (if bytes_eq nine v then some 80 else none)
unfolding read_delegation_amount
position_seen v = ground (arith, funded_position v, position_content)

funded_covers :
    (v : Hash) (n : ℕ)
    → principal digest nine v funded ≡ some n
    → (info : ValidatorInfo) × (view funded.validators v ≡ some info) × (n ≤ info.delegated_total)
funded_covers v n e =
    let at = position_seen v in
    elim (Bool-cases (bytes_eq nine v)) [
      | inl same ↦ (
        record {
          pubkey = nine;
          quic_addr = [];
          bls_pubkey = zero_bls;
          self_stake = 50;
          delegated_total = 80;
          jailed = false;
          reward_coin = replicate 32 0;
        },
        ground arith,
        ground arith,
      )
      | inr other ↦ absurd (ground arith)
    ]

handle_undelegate_lem_example :
    Settles
      (key ∷ [])
      funded
      (λ r.
        (v : Hash) × (n : ℕ) × (decode_delegate_args nine false ≡ some (v, n))
        × Withdrawn digest funded r nine v)
      (handle_undelegate digest funded (call undelegate_func nine))
handle_undelegate_lem_example =
    handle_undelegate_lem digest (key ∷ []) funded (call undelegate_func nine) funded-IsSound
      (call-NamesCoin undelegate_func nine) (digest_apart nine) funded_covers
