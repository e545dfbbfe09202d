-- ===== src/Validators.antt =====
-- The validator set of internal/validators/validators.go: a slice of infos and the index of each
-- public key in it. `none` is a run-time panic, an index out of the slice's range; the mutex and
-- the copies that the getters take are left out. `has_callback` says that OnAdd was called.
pub mod Index
pub mod Changes
pub mod Stakes
pub mod Tests
use blue_pods.Prelude.{
  ℕ, suc, ◌+◌, ◌-◌, ◌*◌, ◌/◌, ◌≤◌, Bool, true, false, not, ◌&&◌, List, [], ◌∷◌, ◌++◌, Option, none,
  some, ltb, ◌==◌, if◌then◌else◌, length, get_elem?, set, take, replicate, map, bytes_eq,
}
use blue_pods.Types.{Hash}
use blue_pods.Word.{add64, sub64}

pub record ValidatorInfo : Type 0 where
  pub pubkey : Hash
  pub quic_addr : List ℕ
  pub bls_pubkey : List ℕ
  pub self_stake : ℕ
  pub delegated_total : ℕ
  pub jailed : Bool
  pub reward_coin : Hash

pub record ValidatorSet : Type 0 where
  pub validators : List ValidatorInfo
  pub index : Hash → Option ℕ
  pub has_callback : Bool

abbrev pub zero_hash : Hash
zero_hash = replicate 32 0

abbrev pub zero_bls : List ℕ
zero_bls = replicate 48 0

-- A Go map with 32-byte keys, as a function.
abbrev put_index : Hash → ℕ → (Hash → Option ℕ) → Hash → Option ℕ
put_index k i m j = if bytes_eq k j then some i else m j

abbrev delete_index : Hash → (Hash → Option ℕ) → Hash → Option ℕ
delete_index k m j = if bytes_eq k j then none else m j

pub fresh_info : Hash → List ℕ → List ℕ → ValidatorInfo
fresh_info pubkey quic_addr bls_pubkey = record {
  pubkey = pubkey;
  quic_addr = quic_addr;
  bls_pubkey = bls_pubkey;
  self_stake = 0;
  delegated_total = 0;
  jailed = false;
  reward_coin = zero_hash;
}

-- `vs.validators[idx].f = …`
unfoldable pub modify_at : (ValidatorInfo → ValidatorInfo) → ℕ → ValidatorSet → Option ValidatorSet
modify_at f idx vs = elim (get_elem? vs.validators idx) [
  | none ↦ none
  | some info ↦ some (record vs { validators = set vs.validators idx (f info) })
]

pub append_info : ValidatorInfo → ValidatorSet → ValidatorSet
append_info info vs = record vs {
  validators = vs.validators ++ info ∷ [];
  index = put_index info.pubkey (length vs.validators) vs.index;
}

-- NewValidatorSet
new_loop : ℕ → List Hash → ValidatorSet → ValidatorSet
new_loop i [] vs = vs
new_loop i (pk ∷ pks) vs = new_loop (suc i) pks (record vs {
  validators = vs.validators ++ fresh_info pk [] zero_bls ∷ [];
  index = put_index pk i vs.index;
})

new_validator_set : List Hash → ValidatorSet
unfolding new_loop fresh_info
new_validator_set pubkeys =
    new_loop 0 pubkeys (record { validators = []; index = λ k. none; has_callback = false })

on_add : ValidatorSet → ValidatorSet
on_add vs = record vs { has_callback = true }

pub fill_addresses : List ℕ → List ℕ → ValidatorInfo → ValidatorInfo
fill_addresses quic_addr bls_pubkey info = record info {
  quic_addr =
      if bytes_eq info.quic_addr [] && not (bytes_eq quic_addr [])
      then quic_addr
      else info.quic_addr;
  bls_pubkey =
      if bytes_eq info.bls_pubkey zero_bls && not (bytes_eq bls_pubkey zero_bls)
      then bls_pubkey
      else info.bls_pubkey;
}

-- The result of Add, and the info that the callback is called with.
pub record Added : Type 0 where
  pub after : ValidatorSet
  pub is_new : Bool
  pub notified : Option ValidatorInfo

pub add : Hash → List ℕ → List ℕ → ValidatorSet → Option Added
unfolding modify_at append_info fresh_info fill_addresses
add pubkey quic_addr bls_pubkey vs = elim (vs.index pubkey) [
  | some idx ↦ elim (modify_at (fill_addresses quic_addr bls_pubkey) idx vs) [
    | none ↦ none
    | some vs' ↦ some (record { after = vs'; is_new = false; notified = none })
  ]
  | none ↦ some (record {
    after = append_info (fresh_info pubkey quic_addr bls_pubkey) vs;
    is_new = true;
    notified = if vs.has_callback then some (fresh_info pubkey quic_addr bls_pubkey) else none;
  })
]

-- The swap with the last element, which is read before it is written.
swap_last : ℕ → ℕ → ValidatorSet → Option ValidatorSet
swap_last idx last vs = if idx == last then some vs else elim (get_elem? vs.validators last) [
  | none ↦ none
  | some moved ↦
      if ltb idx (length vs.validators)
      then some (record vs {
        validators = set vs.validators idx moved;
        index = put_index moved.pubkey idx vs.index;
      })
      else none
]

pub remove : Hash → ValidatorSet → Option (ValidatorSet × Bool)
unfolding swap_last
remove pubkey vs = elim (vs.index pubkey) [
  | none ↦ some (vs, false)
  | some idx ↦
      let last = length vs.validators - 1 in
      elim (swap_last idx last vs) [
        | none ↦ none
        | some swapped ↦ some (
          record swapped {
            validators = take last swapped.validators;
            index = delete_index pubkey swapped.index;
          },
          true,
        )
      ]
]

pub has : Hash → ValidatorSet → Bool
has pubkey vs = elim (vs.index pubkey) [ none ↦ false | some idx ↦ true ]

len : ValidatorSet → ℕ
len vs = length vs.validators

quorum_size : ValidatorSet → ℕ
quorum_size vs = let n = length vs.validators in if ltb n 1 then 1 else 2 * n / 3 + 1

pubkeys : ValidatorSet → List Hash
pubkeys vs = map (λ v. v.pubkey) vs.validators

-- Get: nil for an unknown key.
unfoldable pub get : Hash → ValidatorSet → Option (Option ValidatorInfo)
get pubkey vs = elim (vs.index pubkey) [
  | none ↦ some none
  | some idx ↦ elim (get_elem? vs.validators idx) [ none ↦ none | some info ↦ some (some info) ]
]

-- The setters: a no-op, and false, for an unknown key.
unfoldable pub update :
    (ValidatorInfo → ValidatorInfo) → Hash → ValidatorSet → Option (ValidatorSet × Bool)
unfolding modify_at
update f pubkey vs = elim (vs.index pubkey) [
  | none ↦ some (vs, false)
  | some idx ↦ elim (modify_at f idx vs) [ none ↦ none | some vs' ↦ some (vs', true) ]
]

unfoldable pub set_self_stake : Hash → ℕ → ValidatorSet → Option (ValidatorSet × Bool)
unfolding update
set_self_stake pubkey stake vs = update (λ v. record v { self_stake = stake }) pubkey vs

unfoldable set_reward_coin : Hash → Hash → ValidatorSet → Option (ValidatorSet × Bool)
unfolding update
set_reward_coin pubkey coin vs = update (λ v. record v { reward_coin = coin }) pubkey vs

unfoldable pub add_delegated : Hash → ℕ → ValidatorSet → Option (ValidatorSet × Bool)
unfolding update
add_delegated pubkey amount vs =
    update (λ v. record v { delegated_total = add64 v.delegated_total amount }) pubkey vs

unfoldable pub sub_delegated : Hash → ℕ → ValidatorSet → Option (ValidatorSet × Bool)
unfolding update
sub_delegated pubkey amount vs =
    update
      (λ v. record v {
        delegated_total =
            if ltb v.delegated_total amount then 0 else sub64 v.delegated_total amount;
      })
      pubkey vs

jail : Hash → ValidatorSet → Option (ValidatorSet × Bool)
unfolding update
jail pubkey vs = update (λ v. record v { jailed = true }) pubkey vs

unjail : Hash → ValidatorSet → Option (ValidatorSet × Bool)
unfolding update
unjail pubkey vs = update (λ v. record v { jailed = false }) pubkey vs

add_with_stake : Hash → List ℕ → List ℕ → ℕ → ℕ → Bool → ValidatorSet → Option ValidatorSet
unfolding modify_at append_info fresh_info
add_with_stake pubkey quic_addr bls_pubkey self_stake delegated jailed vs = elim (vs.index pubkey) [
  | some idx ↦
      modify_at
        (λ v. record v { self_stake = self_stake; delegated_total = delegated; jailed = jailed })
        idx vs
  | none ↦ some (
      append_info
        (record (fresh_info pubkey quic_addr bls_pubkey) {
          self_stake = self_stake;
          delegated_total = delegated;
          jailed = jailed;
        })
        vs)
]

-- Index, whose -1 is `none`.
index_of : Hash → ValidatorSet → Option ℕ
index_of pubkey vs = vs.index pubkey
