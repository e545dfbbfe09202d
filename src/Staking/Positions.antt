-- ===== src/Staking/Positions.antt =====
-- Delegation positions as stored objects (internal/consensus/delegation.go).
use blue_pods.Prelude.{
  length-take, take-within, ℕ, ◌≤◌, ◌<◌, ◌≡◌, refl, ap, ◌∙◌, sym, subst, List, [], ◌∷◌, ◌++◌, some,
  Bool, false, arith, length, take, drop, All-append, take-append, take_all, drop-append,
  length-append, bytes_eq, bytes_eq_iff, bytes_eq_refl, Bool-cases, inl, inr,
}
use blue_pods.Types.{Hash, contains}
use blue_pods.Text.{codes}
use blue_pods.Word.{u64_max}
use blue_pods.Bytes.{le_bytes, le_num, length-le_bytes, le_num-le_bytes}
use blue_pods.Coins.{
  strict_debit, Object, State, extract_object_id, read_coin_balance, get_object, set_object,
  delete_object,
}
use blue_pods.Coins.Store.{
  IsStore, AreBytes, le_num-lt, le_bytes-AreBytes, take-AreBytes, drop-AreBytes, length-take-le,
}
use blue_pods.Coins.Balance.{balance_of, strict_debit_lem}
use blue_pods.Coins.Backing.{IsBacked, sum_balances}
use blue_pods.Staking.{
  encode_delegation_content, decode_delegation_content, decode_delegate_args, delegation_id,
  build_delegation_object, read_delegation_amount,
}

-- The arguments of a call give a 32-byte key and a 64-bit amount.
pub decode_delegate_args_lem :
    (args : List ℕ) (with_amount : Bool) (validator : Hash) (amount : ℕ)
    → AreBytes args
    → decode_delegate_args args with_amount ≡ some (validator, amount)
    → (length validator ≡ 32) × AreBytes validator × (amount ≤ u64_max)
unfolding decode_delegate_args
decode_delegate_args_lem args with_amount validator amount h e =
    let same : take 32 args ≡ validator = ground arith in
    let long : 32 ≤ length args = ground arith in
    let word =
      le_num-lt 8 (take 8 (drop 32 args)) (take-AreBytes 8 (drop 32 args) (drop-AreBytes 32 args h))
        (length-take-le 8 (drop 32 args)) in
    (
      ap length (sym same) ∙ length-take 32 args long,
      subst AreBytes same (take-AreBytes 32 args h),
      ground (arith, word),
    )

-- Decoding the content of a position gives back the validator and the amount that it was encoded
-- from, for a 32-byte key and a 64-bit amount.
pub decode_delegation_content-encode :
    (validator : Hash) (amount : ℕ)
    → length validator ≡ 32
    → amount ≤ u64_max
    → decode_delegation_content (encode_delegation_content validator amount)
      ≡ some (validator, amount)
unfolding decode_delegation_content encode_delegation_content
decode_delegation_content-encode validator amount h word =
    let whole = take_all validator 32 h in
    let size = length-append validator (le_bytes 8 amount) in
    let front = take-append validator (le_bytes 8 amount) 32 h in
    let back = drop-append validator (le_bytes 8 amount) 32 h in
    let bytes = take_all (le_bytes 8 amount) 8 (length-le_bytes 8 amount) in
    let num = le_num-le_bytes 8 amount (omega arith) in
    rw (whole, front, back, bytes, num) ground (arith, size, length-le_bytes 8 amount)

-- Writes at a key that is no coin keep the coins' total.
sum-apart :
    (ks : List Hash) (s s' : State) (k : Hash)
    → ((j : Hash) → bytes_eq k j ≡ false → s'.objects j ≡ s.objects j)
    → contains k ks ≡ false
    → sum_balances ks s' ≡ sum_balances ks s
unfolding contains
sum-apart [] s s' k apart h = refl
sum-apart (j ∷ ks) s s' k apart h =
    omega (arith, ap balance_of (apart j (ground arith)), sum-apart ks s s' k apart (ground arith))

set_object-IsStore :
    (s : State) (o : Object) → IsStore s → AreBytes o.content → IsStore (set_object o s)
unfolding set_object
set_object-IsStore s o w h =
    let k = extract_object_id o in
    record {
      keyed = λ j x e. ground (arith, bytes_eq_iff k j, w.keyed j x);
      bytes = λ j x e. elim (Bool-cases (bytes_eq k j)) [
        | inl here ↦
            let same : o ≡ x = ground arith in subst (λ (y : Object). AreBytes y.content) same h
        | inr away ↦ w.bytes j x (ground arith)
      ];
    }

pub set_object-IsBacked :
    (coins : List Hash) (s : State) (o : Object)
    → IsBacked coins s
    → AreBytes o.content
    → contains (extract_object_id o) coins ≡ false
    → IsBacked coins (set_object o s)
unfolding set_object
set_object-IsBacked coins s o w h apart =
    let after = set_object-IsStore s o w.store h in
    record {
      store = record { keyed = after.keyed; bytes = after.bytes };
      distinct = w.distinct;
      total =
          sum-apart coins s (set_object o s) (extract_object_id o) (λ j away. ground arith) apart
          ∙ w.total;
    }

pub delete_object-IsBacked :
    (coins : List Hash) (s : State) (k : Hash)
    → IsBacked coins s
    → contains k coins ≡ false
    → IsBacked coins (delete_object k s)
unfolding delete_object
delete_object-IsBacked coins s k w apart = record {
  store = record {
    keyed = λ j x e. ground (arith, w.store.keyed j x);
    bytes = λ j x e. w.store.bytes j x (ground arith);
  };
  distinct = w.distinct;
  total = sum-apart coins s (delete_object k s) k (λ j away. ground arith) apart ∙ w.total;
}

module _ (blake3 : List ℕ → Hash) (delegator validator : Hash) (amount : ℕ) where
  abbrev position_id : Hash
  position_id = delegation_id blake3 delegator validator

  module _ (digest : (bytes : List ℕ) → length (blake3 bytes) ≡ 32) (wide : length validator ≡ 32)
      (plain : AreBytes validator) (word : amount ≤ u64_max) where
    pub key-position :
        extract_object_id (build_delegation_object blake3 delegator validator amount) ≡ position_id
    unfolding extract_object_id build_delegation_object delegation_id
    key-position =
        ground (arith, digest (codes "bluepods/delegation/v1" ++ (delegator ++ validator)))

    pub content-AreBytes :
        AreBytes (build_delegation_object blake3 delegator validator amount).content
    unfolding build_delegation_object encode_delegation_content
    content-AreBytes =
        All-append (λ b. b < 256) (take 32 validator) (le_bytes 8 amount)
          (take-AreBytes 32 validator plain) (le_bytes-AreBytes 8 amount)

    -- A position that is stored is read back, whatever stood there before.
    pub read_delegation_amount-set :
        (s : State)
        → read_delegation_amount blake3 position_id validator
            (set_object (build_delegation_object blake3 delegator validator amount) s)
          ≡ some amount
    unfolding read_delegation_amount get_object set_object build_delegation_object
    read_delegation_amount-set s = ground (
      arith,
      key-position,
      bytes_eq_refl position_id,
      bytes_eq_refl validator,
      decode_delegation_content-encode validator amount wide word,
    )

-- Read as a coin, a position has the first eight bytes of the validator's key as its balance.
read_coin_balance-position :
    (blake3 : List ℕ → Hash) (delegator validator : Hash) (amount : ℕ)
    → length validator ≡ 32
    → read_coin_balance (build_delegation_object blake3 delegator validator amount)
      ≡ some (le_num (take 8 validator))
unfolding read_coin_balance build_delegation_object encode_delegation_content
read_coin_balance-position blake3 delegator validator amount wide =
    let whole = take_all validator 32 wide in
    let front = take-within 8 validator (le_bytes 8 amount) (omega (arith, wide)) in
    rw (whole, front) ground (arith, length-append validator (le_bytes 8 amount))

-- A strict debit takes a stored position for a coin whose balance is the first eight bytes of the
-- validator's key: it accepts any amount up to that number. The store must be well formed, BLAKE3 must give 32 bytes, the key be
-- 32 bytes and the amount of the position fit uint64.
pub strict_debit-build_delegation_object :
    (blake3 : List ℕ → Hash) (delegator validator : Hash) (amount : ℕ) (s : State) (n : ℕ)
    → ((bytes : List ℕ) → length (blake3 bytes) ≡ 32)
    → IsStore s
    → length validator ≡ 32
    → AreBytes validator
    → amount ≤ u64_max
    → n ≤ le_num (take 8 validator)
    → (s' : State) × (strict_debit
          (delegation_id blake3 delegator validator)
          n
          (set_object (build_delegation_object blake3 delegator validator amount) s)
        ≡ some s')
unfolding set_object build_delegation_object
strict_debit-build_delegation_object blake3 delegator validator amount s n digest w wide plain word
      enough =
    let key = key-position blake3 delegator validator amount digest wide plain word in
    let o = build_delegation_object blake3 delegator validator amount in
    let k = delegation_id blake3 delegator validator in
    let found : (set_object o s).objects k ≡ some o = ground (arith, key, bytes_eq_refl k) in
    let after =
      set_object-IsStore s o w
        (content-AreBytes blake3 delegator validator amount digest wide plain word) in
    let (pays, _, _) =
      strict_debit_lem (set_object o s) (record { keyed = after.keyed; bytes = after.bytes }) k o
        (le_num (take 8 validator)) found
        (read_coin_balance-position blake3 delegator validator amount wide) n in
    let (s', done, _, _) = pays refl enough in (s', done)
