-- ===== src/Smt/Bits.antt =====
-- The bits of a key: keys that agree on every bit are the same key.
use blue_pods.Prelude.{
  ℕ, zero, suc, ◌+◌, ◌*◌, ◌/◌, ◌%◌, ◌^◌, ◌-◌, ◌<◌, ◌≡◌, refl, [], ◌∷◌, get_or, length, arith,
}
use blue_pods.Types.{Hash}
use blue_pods.Coins.Store.{AreBytes}
use blue_pods.Smt.{bit}

abbrev pub IsHash : Hash → Type 0
IsHash h = (length h ≡ 32) × AreBytes h

abbrev pub Agree : ℕ → Hash → Hash → Type 0
Agree d k j = (i : ℕ) → i < d → bit k i ≡ bit j i

pub bit-lt : (k : Hash) (i : ℕ) → bit k i < 2
unfolding bit
bit-lt k i = omega arith

byte_bits :
    (x y : ℕ)
    → x < 256
    → y < 256
    → ((j : ℕ) → j < 8 → x / 2 ^ (7 - j) % 2 ≡ y / 2 ^ (7 - j) % 2)
    → x ≡ y
byte_bits x y hx hy same = omega (
  arith,
  same 0 (omega arith),
  same 1 (omega arith),
  same 2 (omega arith),
  same 3 (omega arith),
  same 4 (omega arith),
  same 5 (omega arith),
  same 6 (omega arith),
  same 7 (omega arith),
)

bit_of_byte : (k : Hash) (m j : ℕ) → j < 8 → bit k (8 * m + j) ≡ get_or k m 0 / 2 ^ (7 - j) % 2
unfolding bit
bit_of_byte k m j h = rw (quotient, remainder) refl
  where
    quotient : (8 * m + j) / 8 ≡ m
    quotient = omega arith

    remainder : (8 * m + j) % 8 ≡ j
    remainder = omega arith

get_or-lt : (k : Hash) (m : ℕ) → AreBytes k → get_or k m 0 < 256
get_or-lt [] m h = omega arith
get_or-lt (x ∷ k) zero h = h.0
get_or-lt (x ∷ k) (suc m) h = get_or-lt k m h.1

get_or-ext :
    (k j : Hash)
    → length k ≡ length j
    → ((m : ℕ) → m < length k → get_or k m 0 ≡ get_or j m 0)
    → k ≡ j
get_or-ext [] [] h same = refl
get_or-ext [] (y ∷ j) h same = absurd (omega arith)
get_or-ext (x ∷ k) [] h same = absurd (omega arith)
get_or-ext (x ∷ k) (y ∷ j) h same =
    let rest = get_or-ext k j (omega arith) (λ m l. same (suc m) (omega arith)) in
    let first = same 0 (omega arith) in cc

pub Agree-all : (k j : Hash) → IsHash k → IsHash j → Agree 256 k j → k ≡ j
Agree-all k j hk hj same = get_or-ext k j (omega (arith, hk.0, hj.0)) (λ m l.
    byte_bits (get_or k m 0) (get_or j m 0) (get_or-lt k m hk.1) (get_or-lt j m hj.1) (λ i h.
      omega
        (arith, bit_of_byte k m i h, bit_of_byte j m i h, same (8 * m + i) (omega (arith, hk.0)))))
