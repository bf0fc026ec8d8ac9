-- ===== src/Prelude/Bits.antt =====
-- Masks as arithmetic: tables over one byte, and the union of bits that stand apart.
use Prim.Native.Nat.{
  ℕ, zero, suc, ◌+◌, ◌-◌, ◌*◌, ◌/◌, ◌%◌, ◌^◌, ◌≤◌, ◌<◌, max, bit_and, bit_or, digits,
  bit_or-bitwise,
}
use mathlib.Core.Path.{◌≡◌, refl, sym, ap, ◌∙◌}
use mathlib.Core.Bool.{Bool, true, ◌&&◌}
use native.Mathlib.Omega.{arith}
use candy_runtime.Prelude.Tests.{◌==◌}

-- Two functions that give the same numbers below `bound`.
module _ (f g : ℕ → ℕ) where
  tabulated : ℕ → Bool
  tabulated zero = true
  tabulated (suc bound) = tabulated bound && (f bound == g bound)

  from_table : (bound : ℕ) → tabulated bound ≡ true → (n : ℕ) → n < bound → f n ≡ g n
  unfolding tabulated
  from_table zero t n h = absurd (omega arith)
  from_table (suc bound) t n h = ground (arith, from_table bound (ground arith) n)

pub bit_and_low : (b : ℕ) → b < 256 → bit_and b 0x7f ≡ b % 128
unfolding tabulated
bit_and_low = from_table _ _ 256 refl

pub bit_and_top : (b : ℕ) → b < 256 → bit_and b 0x80 ≡ b / 128 * 128
unfolding tabulated
bit_and_top = from_table _ _ 256 refl

pub bit_or_top : (b : ℕ) → b < 128 → bit_or b 0x80 ≡ b + 128
unfolding tabulated
bit_or_top = from_table _ _ 128 refl

-- The native union, digit by digit: more rounds than `a` has digits do not matter.
abbrev union : ℕ → ℕ → ℕ → ℕ
union rounds a b = digits (λ b. b) max rounds a b

union_zero : (rounds b : ℕ) → union rounds 0 b ≡ b
union_zero zero b = refl
union_zero (suc rounds) b = refl

union_rounds : (m n a b : ℕ) → a ≤ m → a ≤ n → union m a b ≡ union n a b
union_rounds m n zero b p q = union_zero m b ∙ sym (union_zero n b)
union_rounds zero n (suc a) b p q = absurd (omega arith)
union_rounds (suc m) zero (suc a) b p q = absurd (omega arith)
union_rounds (suc m) (suc n) (suc a) b p q =
    omega (arith, union_rounds m n (suc a / 2) (b / 2) (omega arith) (omega arith))

zero-bit_or : (b : ℕ) → bit_or 0 b ≡ b
zero-bit_or b = bit_or-bitwise 0 b

bit_or_digit : (a b : ℕ) → bit_or a b ≡ bit_or (a / 2) (b / 2) * 2 + max (a % 2) (b % 2)
bit_or_digit zero b = omega (arith, zero-bit_or b, zero-bit_or (b / 2))
bit_or_digit (suc a) b = omega (
  arith,
  bit_or-bitwise (suc a) b,
  bit_or-bitwise (suc a / 2) (b / 2),
  union_rounds a (suc a / 2) (suc a / 2) (b / 2) (omega arith) (omega arith),
)

bit_or-even : (a q : ℕ) → bit_or (a / 2) q ≡ a / 2 + q → bit_or a (q * 2) ≡ a + q * 2
bit_or-even a q h =
    let half : q * 2 / 2 ≡ q = omega arith in
    omega (arith, bit_or_digit a (q * 2), ap (bit_or (a / 2)) half)

double_shift : (s p : ℕ) → p * 2 ^ suc s ≡ p * 2 ^ s * 2
double_shift s p = grind arith

-- `a | p << s`, where `a` has no bit from `s` on.
pub bit_or_apart : (s a p : ℕ) → a < 2 ^ s → bit_or a (p * 2 ^ s) ≡ a + p * 2 ^ s
bit_or_apart zero a p h =
    let none_set : a ≡ 0 = omega arith in rw none_set (omega (arith, zero-bit_or (p * 2 ^ 0)))
bit_or_apart (suc s) a p h =
    rw (double_shift s p) (bit_or-even a (p * 2 ^ s) (bit_or_apart s (a / 2) p (omega arith)))

-- A number of six bits has none of the ten bits above them.
pub none_above : (n : ℕ) → n < 64 → bit_and n (2 ^ 16 - 1 - 0x3f) ≡ 0
unfolding tabulated
none_above = from_table _ _ 64 refl
