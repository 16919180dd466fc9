-- ===== src/Common/Numbers.antt =====
-- Products and orders on the native numbers.
use Prim.Native.Nat.{ℕ, ◌*◌, ◌≤◌}
use native.Mathlib.Omega.{arith}

pub mul_mono : (a b c : ℕ) → a ≤ b → a * c ≤ b * c
mul_mono a b c h = grind arith
