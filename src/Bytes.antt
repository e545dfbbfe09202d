-- ===== src/Bytes.antt =====
-- Fixed-width integers as bytes: what encoding/binary writes and reads, in both byte orders.
use mathlib.Core.List.{reverse, reverse-reverse, reverse-cons}
use native.Mathlib.Nat.{pow-suc}
use blue_pods.Prelude.{
  ℕ, zero, suc, ◌+◌, ◌*◌, ◌/◌, ◌%◌, ◌^◌, ◌<◌, ◌≡◌, refl, ap, ◌∙◌, List, [], ◌∷◌, length,
  length-append, arith, All, All-append, subst, sym,
}

unfoldable pub le_bytes : ℕ → ℕ → List ℕ
le_bytes zero x = []
le_bytes (suc n) x = x % 256 ∷ le_bytes n (x / 256)

unfoldable pub le_num : List ℕ → ℕ
le_num [] = 0
le_num (b ∷ bs) = b + 256 * le_num bs

unfoldable pub be_bytes : ℕ → ℕ → List ℕ
unfolding le_bytes
be_bytes n x = reverse (le_bytes n x)

unfoldable pub be_num : List ℕ → ℕ
unfolding le_num
be_num bs = le_num (reverse bs)

pub length-le_bytes : (n x : ℕ) → length (le_bytes n x) ≡ n
unfolding le_bytes
length-le_bytes zero x = refl
length-le_bytes (suc n) x = ap suc (length-le_bytes n (x / 256))

pub le_num-le_bytes : (n x : ℕ) → x < 256 ^ n → le_num (le_bytes n x) ≡ x
unfolding le_bytes le_num
le_num-le_bytes zero x h = omega arith
le_num-le_bytes (suc n) x h = omega (arith, le_num-le_bytes n (x / 256), pow-suc 256 n)

pub length-reverse {ℓ} : {A : Type ℓ} (xs : List A) → length (reverse xs) ≡ length xs
length-reverse [] = refl
length-reverse (x ∷ xs) =
    ap length (reverse-cons x xs)
    ∙ omega (arith, length-append (reverse xs) (x ∷ []), length-reverse xs)

pub length-be_bytes : (n x : ℕ) → length (be_bytes n x) ≡ n
unfolding be_bytes
length-be_bytes n x = length-reverse (le_bytes n x) ∙ length-le_bytes n x

pub be_num-be_bytes : (n x : ℕ) → x < 256 ^ n → be_num (be_bytes n x) ≡ x
unfolding be_num be_bytes
be_num-be_bytes n x h = ap le_num (reverse-reverse (le_bytes n x)) ∙ le_num-le_bytes n x h

pub reverse-All {ℓ κ} : {A : Type ℓ} (P : A → Type κ) (xs : List A) → All P xs → All P (reverse xs)
reverse-All P [] h = h
reverse-All P (x ∷ xs) h =
    subst (All P) (sym (reverse-cons x xs))
      (All-append P (reverse xs) (x ∷ []) (reverse-All P xs h.1) (h.0, tt))

le_bytes-le_num : (bs : List ℕ) → All (λ b. b < 256) bs → le_bytes (length bs) (le_num bs) ≡ bs
unfolding le_bytes le_num
le_bytes-le_num [] h = refl
le_bytes-le_num (b ∷ bs) h =
    let low : (b + 256 * le_num bs) % 256 ≡ b = omega (arith, h.0) in
    let high : (b + 256 * le_num bs) / 256 ≡ le_num bs = omega (arith, h.0) in
    rw (low, high, le_bytes-le_num bs h.1) refl

pub be_bytes-be_num : (bs : List ℕ) → All (λ b. b < 256) bs → be_bytes (length bs) (be_num bs) ≡ bs
unfolding be_bytes be_num
be_bytes-be_num bs h =
    let wide = length-reverse bs in
    let back = le_bytes-le_num (reverse bs) (reverse-All (λ b. b < 256) bs h) in
    ap (λ (n : ℕ). reverse (le_bytes n (le_num (reverse bs)))) (sym wide)
    ∙ ap reverse back
    ∙ reverse-reverse bs
