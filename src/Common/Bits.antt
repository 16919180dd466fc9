-- ===== src/Common/Bits.antt =====
-- Facts about masks: over a byte by a table of all its values, and the mask of high bits.
use Prim.Native.Nat.{
  ℕ, zero, suc, ◌+◌, ◌-◌, ◌*◌, ◌/◌, ◌%◌, ◌^◌, ◌≤◌, ◌<◌, min, bit_and, digits, bit_and-bitwise,
}
use mathlib.Core.Path.{◌≡◌, refl}
use mathlib.Core.Bool.{Bool, true, ◌&&◌, not}
use native.Mathlib.Decide.{ℕ_discrete}
use r_os.Common.Tests.{if◌then◌else◌}
use native.Mathlib.Nat.{pow-suc, add-zero, add-suc}
use native.Mathlib.Omega.{arith}

-- Two Boolean functions compared on a table of their values at 0 to `size` - 1.
unfoldable pub agree : (size : ℕ) (f g : ℕ → Bool) → Bool
agree zero f g = true
agree (suc last) f g = (if f last then g last else not (g last)) && agree last f g

-- Functions with the same table have the same value inside it.
pub agree_lem :
    (f g : ℕ → Bool) (size byte : ℕ) → agree size f g ≡ true → byte < size → f byte ≡ g byte
unfolding agree
agree_lem f g zero byte table inside = absurd (omega arith)
agree_lem f g (suc last) byte table inside = elim (ℕ_discrete byte last) [
  | yes here ↦ rw here (ground arith)
  | no earlier ↦ agree_lem f g last byte (ground arith) (omega arith)
]

-- The definition behind the native operation, on any fuel that is enough.
abbrev lower_digit : ℕ → ℕ → ℕ → ℕ
lower_digit fuel a b = digits (λ _. zero) min fuel a b

lower_digit-zero : (n b : ℕ) → lower_digit n 0 b ≡ 0
lower_digit-zero zero b = refl
lower_digit-zero (suc n) b = refl

lower_digit-enough : (m n a b : ℕ) → a ≤ m → a ≤ n → lower_digit m a b ≡ lower_digit n a b
lower_digit-enough m n zero b hm hn = omega (arith, lower_digit-zero m b, lower_digit-zero n b)
lower_digit-enough zero n (suc a) b hm hn = absurd (omega arith)
lower_digit-enough (suc m) zero (suc a) b hm hn = absurd (omega arith)
lower_digit-enough (suc m) (suc n) (suc a) b hm hn =
    omega (arith, lower_digit-enough m n (suc a / 2) (b / 2) (omega arith) (omega arith))

-- `&` digit by digit.
bit_and-halves : (a b : ℕ) → bit_and a b ≡ 2 * bit_and (a / 2) (b / 2) + min (a % 2) (b % 2)
bit_and-halves zero b = omega (arith, bit_and-bitwise 0 b, bit_and-bitwise 0 (b / 2))
bit_and-halves (suc a) b = omega (
  arith,
  bit_and-bitwise (suc a) b,
  bit_and-bitwise (suc a / 2) (b / 2),
  lower_digit-enough a (suc a / 2) (suc a / 2) (b / 2) (omega arith) (omega arith),
)

-- A mask of `k` ones keeps a number of `k` bits.
bit_and-ones : (k a m : ℕ) → m + 1 ≡ 2 ^ k → a < 2 ^ k → bit_and a m ≡ a
bit_and-ones zero a m e h =
    let none_left : ◌≡◌ {A = ℕ} a 0 = omega arith in rw none_left (bit_and-bitwise 0 m)
bit_and-ones (suc k) a m e h = omega (
  arith,
  pow-suc 2 k,
  bit_and-halves a m,
  bit_and-ones k (a / 2) (m / 2) (omega (arith, pow-suc 2 k)) (omega (arith, pow-suc 2 k)),
)

-- The low `k` bits.
low_bits : ℕ → ℕ → ℕ
low_bits zero a = 0
low_bits (suc k) a = 2 * low_bits k (a / 2) + a % 2

-- A mask of `j` ones above `k` zeros clears the low `k` bits.
bit_and-high :
    (k j a m : ℕ) → m + 2 ^ k ≡ 2 ^ (j + k) → a < 2 ^ (j + k) → bit_and a m + low_bits k a ≡ a
unfolding low_bits
bit_and-high zero j a m e h =
    let e' : m + 1 ≡ 2 ^ j = rw (← add-zero j) e in
    omega (arith, bit_and-ones j a m e' (rw (← add-zero j) h))
bit_and-high (suc k) j a m e h =
    let top : 2 ^ (j + suc k) ≡ 2 ^ (j + k) * 2 = rw add-suc (pow-suc 2 (j + k)) in
    omega (
      arith,
      top,
      pow-suc 2 k,
      bit_and-halves a m,
      bit_and-high k j (a / 2) (m / 2) (omega (arith, top, pow-suc 2 k)) (omega (arith, top)),
    )

-- The mask of 4 KiB pages on a 64-bit address.
pub bit_and-page : (a : ℕ) → a < 2 ^ 64 → bit_and a (2 ^ 64 - 1 - 4095) + a % 4096 ≡ a
unfolding low_bits
bit_and-page a h = omega (arith, bit_and-high 12 52 a (2 ^ 64 - 1 - 4095) refl h)

-- The mask of 16-byte alignment.
pub bit_and-paragraph : (a : ℕ) → a < 2 ^ 64 → bit_and a (2 ^ 64 - 1 - 0xf) + a % 16 ≡ a
unfolding low_bits
bit_and-paragraph a h = omega (arith, bit_and-high 4 60 a (2 ^ 64 - 1 - 0xf) refl h)
