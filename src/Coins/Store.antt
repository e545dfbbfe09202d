-- ===== src/Coins/Store.antt =====
-- The object store: an object stands under its own ID, and its content is made of bytes.
use native.Mathlib.Nat.{pow-suc}
use blue_pods.Prelude.{
  Bool-cases, inl, inr, subst, ℕ, zero, suc, ◌^◌, ◌≤◌, ◌<◌, ◌≡◌, refl, ap, List, [], ◌∷◌, some,
  if◌then◌else◌, length, take, drop, All, All-append, take-append, take_all, ◌/◌, length-append,
  bytes_eq, bytes_eq_iff, arith,
}
use blue_pods.Types.{Hash}
use blue_pods.Word.{u64_max}
use blue_pods.Bytes.{le_bytes, le_num, length-le_bytes, le_num-le_bytes}
use blue_pods.Coins.{
  Object, State, extract_object_id, read_coin_balance, write_coin_balance, set_object,
}

abbrev pub AreBytes : List ℕ → Type 0
AreBytes = All (λ b. b < 256)

pub record IsStore (s : State) : Type 0 where
  pub keyed : (k : Hash) (o : Object) → s.objects k ≡ some o → extract_object_id o ≡ k
  pub bytes : (k : Hash) (o : Object) → s.objects k ≡ some o → AreBytes o.content

pub le_num-lt : (n : ℕ) (bs : List ℕ) → AreBytes bs → length bs ≤ n → le_num bs < 256 ^ n
unfolding le_num
le_num-lt zero [] h l = omega arith
le_num-lt zero (b ∷ bs) h l = absurd (omega arith)
le_num-lt (suc n) [] h l = omega (arith, pow-suc 256 n, le_num-lt n [] tt)
le_num-lt (suc n) (b ∷ bs) h l = omega (arith, pow-suc 256 n, le_num-lt n bs h.1)

pub le_bytes-AreBytes : (n x : ℕ) → AreBytes (le_bytes n x)
unfolding le_bytes
le_bytes-AreBytes zero x = tt
le_bytes-AreBytes (suc n) x = (omega arith, le_bytes-AreBytes n (x / 256))

pub take-AreBytes : (n : ℕ) (bs : List ℕ) → AreBytes bs → AreBytes (take n bs)
take-AreBytes zero bs h = tt
take-AreBytes (suc n) [] h = tt
take-AreBytes (suc n) (b ∷ bs) h = (h.0, take-AreBytes n bs h.1)

pub drop-AreBytes : (n : ℕ) (bs : List ℕ) → AreBytes bs → AreBytes (drop n bs)
drop-AreBytes zero bs h = h
drop-AreBytes (suc n) [] h = tt
drop-AreBytes (suc n) (b ∷ bs) h = drop-AreBytes n bs h.1

pub length-take-le : (n : ℕ) (bs : List ℕ) → length (take n bs) ≤ n
length-take-le zero bs = omega arith
length-take-le (suc n) [] = omega arith
length-take-le (suc n) (b ∷ bs) = omega (arith, length-take-le n bs)

-- A balance is a 64-bit value.
pub balance-le :
    (o : Object) {balance : ℕ}
    → AreBytes o.content
    → read_coin_balance o ≡ some balance
    → balance ≤ u64_max
unfolding read_coin_balance
balance-le o h e = ground (
  arith,
  le_num-lt 8 (take 8 o.content) (take-AreBytes 8 o.content h) (length-take-le 8 o.content),
)

-- A balance that is written is read back.
pub read_coin_balance-write :
    (o : Object) (balance : ℕ)
    → balance ≤ u64_max
    → read_coin_balance (write_coin_balance o balance) ≡ some balance
unfolding read_coin_balance write_coin_balance
read_coin_balance-write o balance h = ground (
  arith,
  length-le_bytes 8 balance,
  length-append (le_bytes 8 balance) (drop 8 o.content),
  ap le_num (take-append (le_bytes 8 balance) (drop 8 o.content) 8 (length-le_bytes 8 balance)),
  ap le_num (take_all (le_bytes 8 balance) 8 (length-le_bytes 8 balance)),
  le_num-le_bytes 8 balance (omega arith),
)

write_coin_balance-AreBytes :
    (o : Object) (balance : ℕ)
    → AreBytes o.content
    → AreBytes (write_coin_balance o balance).content
unfolding write_coin_balance
write_coin_balance-AreBytes o balance h = ground (
  arith,
  le_bytes-AreBytes 8 balance,
  All-append (λ b. b < 256) (le_bytes 8 balance) (drop 8 o.content) (le_bytes-AreBytes 8 balance)
      (drop-AreBytes 8 o.content h),
)

module _ (s : State) (v : IsStore s) (k : Hash) (o : Object) (found : s.objects k ≡ some o) where
  -- Writing a balance changes one object, in place.
  pub objects-set_balance :
      (balance : ℕ) (j : Hash)
      → (set_object (write_coin_balance o balance) s).objects j
        ≡ (if bytes_eq k j then some (write_coin_balance o balance) else s.objects j)
  unfolding set_object write_coin_balance extract_object_id
  objects-set_balance balance j = rw (v.keyed k o found) refl

  same_key : (balance : ℕ) → extract_object_id (write_coin_balance o balance) ≡ k
  unfolding write_coin_balance extract_object_id
  same_key balance = v.keyed k o found

  pub set_balance-IsStore : (balance : ℕ) → IsStore (set_object (write_coin_balance o balance) s)
  set_balance-IsStore balance = record {
    keyed = λ j x e.
        let there = objects-set_balance balance j in
        ground (arith, there, bytes_eq_iff k j, same_key balance, v.keyed j x);
    bytes = λ j x e.
        let there = objects-set_balance balance j in
        elim (Bool-cases (bytes_eq k j)) [
          | inl here ↦
              let same : write_coin_balance o balance ≡ x = ground (arith, there) in
              subst (λ (y : Object). AreBytes y.content) same
                (write_coin_balance-AreBytes o balance (v.bytes k o found))
          | inr away ↦ v.bytes j x (ground (arith, there))
        ];
  }
