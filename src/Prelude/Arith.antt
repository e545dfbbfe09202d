-- ===== src/Prelude/Arith.antt =====
-- Facts on products and quotients by a variable.
use Prim.Native.Nat.{ℕ, ◌*◌, ◌/◌, ◌≤◌, ◌<◌}
use native.Mathlib.Omega.{arith}

pub mul_mono : (a b c d : ℕ) → a ≤ c → b ≤ d → a * b ≤ c * d
mul_mono a b c d h k = grind arith

pub div-le_of_le_mul : (x y d : ℕ) → 0 < d → x ≤ y * d → x / d ≤ y
div-le_of_le_mul x y d h k = grind arith

pub le-div_of_mul_le : (x y d : ℕ) → 0 < d → y * d ≤ x → y ≤ x / d
le-div_of_mul_le x y d h k = grind arith

pub div_mono : (x y d : ℕ) → 0 < d → x ≤ y → x / d ≤ y / d
div_mono x y d h k = grind arith

pub div-mul-le : (x d : ℕ) → 0 < d → x / d * d ≤ x
div-mul-le x d h = grind arith

pub le_of_mul_le_mul : (x y d : ℕ) → 0 < d → x * d ≤ y * d → x ≤ y
le_of_mul_le_mul x y d h k = grind arith
