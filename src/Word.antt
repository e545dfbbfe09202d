-- ===== src/Word.antt =====
-- Unsigned machine words, as the Go code computes with them, and the saturating operations
-- safeMul, safeAdd (internal/consensus/fees.go) and subFloor (internal/consensus/thermostat.go).
use blue_pods.Prelude.{
  ℕ, ◌+◌, ◌-◌, ◌*◌, ◌/◌, ◌%◌, ◌^◌, ◌≤◌, ◌≡◌, ◌||◌, min, arith, ltb, ◌==◌, if◌then◌else◌,
}

abbrev pub u64_mod : ℕ
u64_mod = 2 ^ 64

abbrev pub u64_max : ℕ
u64_max = 2 ^ 64 - 1

-- `a + b`, `a - b` and `a * b` on uint64.
abbrev pub add64 : ℕ → ℕ → ℕ
add64 a b = (a + b) % u64_mod

abbrev pub sub64 : ℕ → ℕ → ℕ
sub64 a b = (a + u64_mod - b) % u64_mod

abbrev pub mul64 : ℕ → ℕ → ℕ
mul64 a b = a * b % u64_mod

-- The high word of `bits.Mul64`.
abbrev mul64_hi : ℕ → ℕ → ℕ
mul64_hi a b = a * b / u64_mod

unfoldable pub safe_mul : ℕ → ℕ → ℕ
safe_mul a b = if a == 0 || b == 0 then 0 else if ltb 0 (mul64_hi a b) then u64_max else mul64 a b

unfoldable pub safe_add : ℕ → ℕ → ℕ
safe_add a b = let sum = add64 a b in if ltb sum a then u64_max else sum

unfoldable pub sub_floor : ℕ → ℕ → ℕ
sub_floor a b = if ltb a b then 0 else sub64 a b

pub safe_mul-eq-min : (a b : ℕ) → safe_mul a b ≡ min (a * b) u64_max
unfolding safe_mul
safe_mul-eq-min a b = ground arith

pub safe_add-eq-min : (a b : ℕ) → a ≤ u64_max → b ≤ u64_max → safe_add a b ≡ min (a + b) u64_max
unfolding safe_add
safe_add-eq-min a b ha hb = ground arith

pub sub_floor-eq-sub : (a b : ℕ) → a ≤ u64_max → sub_floor a b ≡ a - b
unfolding sub_floor
sub_floor-eq-sub a b ha = ground arith

pub safe_add-le : (a b : ℕ) → safe_add a b ≤ u64_max
unfolding safe_add
safe_add-le a b = ground arith

pub safe_mul-le : (a b : ℕ) → safe_mul a b ≤ u64_max
unfolding safe_mul
safe_mul-le a b = ground arith
