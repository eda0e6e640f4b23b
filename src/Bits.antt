-- ===== src/Bits.antt =====
-- The masks and shifts of the source as arithmetic. A table over one byte is checked by evaluation;
-- what ranges over whole words comes from the digit recursion that the native operations stand for.
use Prim.Native.Nat.{bit_or-bitwise, bit_and-bitwise, digits, max}
use native.Mathlib.Nat.{pow-suc}
use hwwctl.Prelude.{
  ℕ, zero, suc, ◌+◌, ◌*◌, ◌/◌, ◌%◌, ◌^◌, ◌≤◌, ◌<◌, min, bit_and, bit_or, ◌≡◌, refl, ap, Bool, true,
  ◌&&◌, ◌==◌, arith,
}

module _ (f g : ℕ → ℕ) where
  agree_below : ℕ → Bool
  agree_below zero = true
  agree_below (suc n) = f n == g n && agree_below n

  agree_below→eq : (n : ℕ) → agree_below n ≡ true → (i : ℕ) → i < n → f i ≡ g i
  unfolding agree_below
  agree_below→eq zero e i h = absurd (omega arith)
  agree_below→eq (suc n) e i h = ground (arith, agree_below→eq n (ground arith) i)

-- `b & 0x80`
pub top_bit : (b : ℕ) → b < 256 → bit_and b 0x80 ≡ b / 128 * 128
unfolding agree_below
top_bit = agree_below→eq _ _ 256 refl

-- `b | 0x80`, the top bit being clear
pub set_top_bit : (b : ℕ) → b < 128 → bit_or b 0x80 ≡ b + 128
unfolding agree_below
set_top_bit = agree_below→eq _ _ 128 refl

-- The recursion of a digitwise operation does not depend on its count, once that is large enough.
module _ (z : ℕ → ℕ) (f : ℕ → ℕ → ℕ) where
  digits_enough : (n m a b : ℕ) → a ≤ n → a ≤ m → digits z f n a b ≡ digits z f m a b
  digits_enough zero zero a b p q = refl
  digits_enough zero (suc m) zero b p q = refl
  digits_enough (suc n) zero zero b p q = refl
  digits_enough (suc n) (suc m) zero b p q = refl
  digits_enough zero m (suc a) b p q = absurd (omega arith)
  digits_enough (suc n) zero (suc a) b p q = absurd (omega arith)
  digits_enough (suc n) (suc m) (suc a) b p q =
      ap (λ d. d * 2 + f (suc a % 2) (b % 2))
        (digits_enough n m (suc a / 2) (b / 2) (omega arith) (omega arith))

or_step : (a b : ℕ) → bit_or a b ≡ bit_or (a / 2) (b / 2) * 2 + max (a % 2) (b % 2)
or_step zero b = omega (arith, bit_or-bitwise 0 b, bit_or-bitwise 0 (b / 2))
or_step (suc a) b = omega (
  arith,
  bit_or-bitwise (suc a) b,
  bit_or-bitwise (suc a / 2) (b / 2),
  digits_enough (λ b. b) max a (suc a / 2) (suc a / 2) (b / 2) (omega arith) (omega arith),
)

and_step : (a b : ℕ) → bit_and a b ≡ bit_and (a / 2) (b / 2) * 2 + min (a % 2) (b % 2)
and_step zero b = omega (arith, bit_and-bitwise 0 b, bit_and-bitwise 0 (b / 2))
and_step (suc a) b = omega (
  arith,
  bit_and-bitwise (suc a) b,
  bit_and-bitwise (suc a / 2) (b / 2),
  digits_enough (λ b. 0) min a (suc a / 2) (suc a / 2) (b / 2) (omega arith) (omega arith),
)

-- `value |= group << shift` adds, where `value` fits below the shift.
pub or_above : (s a g : ℕ) → a < 2 ^ s → bit_or a (g * 2 ^ s) ≡ a + g * 2 ^ s
or_above zero zero g h = omega (arith, bit_or-bitwise 0 (g * 1))
or_above zero (suc a) g h = absurd (omega arith)
or_above (suc s) a g h = ground (
  arith,
  or_step a (g * 2 ^ suc s),
  ap (λ (t : ℕ). g * t) (pow-suc 2 s),
  pow-suc 2 s,
  or_above s (a / 2) g,
)

or-zero : (k a : ℕ) → a ≤ k → bit_or a 0 ≡ a
or-zero k zero h = refl
or-zero zero (suc a) h = absurd (omega arith)
or-zero (suc k) (suc a) h = omega (arith, or_step (suc a) 0, or-zero k (suc a / 2) (omega arith))

-- `(field_num << 3) | 2`
pub or_two : (n : ℕ) → bit_or (n * 8) 2 ≡ n * 8 + 2
or_two n =
    omega (
      arith,
      or_step (n * 8) 2,
      or_step (n * 8 / 2) 1,
      or-zero (n * 8) (n * 8 / 2 / 2) (omega arith),
    )

-- No digit appears above those of the operands.
pub or_below : (k a b : ℕ) → a < 2 ^ k → b < 2 ^ k → bit_or a b < 2 ^ k
or_below zero zero b p q = omega (arith, bit_or-bitwise 0 b)
or_below zero (suc a) b p q = absurd (omega arith)
or_below (suc k) a b p q = ground (arith, or_step a b, pow-suc 2 k, or_below k (a / 2) (b / 2))

and-zero_below : (k a : ℕ) → a ≤ k → bit_and a 0 ≡ 0
and-zero_below k zero h = refl
and-zero_below zero (suc a) h = absurd (omega arith)
and-zero_below (suc k) (suc a) h =
    omega (arith, and_step (suc a) 0, and-zero_below k (suc a / 2) (omega arith))

and-zero : (a : ℕ) → bit_and a 0 ≡ 0
and-zero a = and-zero_below a a (omega arith)

-- `value & 0x7F`, on a number of any width.
pub low_bits : (a : ℕ) → bit_and a 0x7f ≡ a % 128
low_bits a = omega (arith, upper a, lower (a / 8))
  where
    lower : (a : ℕ) → bit_and a 15 ≡ a % 16
    lower a = omega (
      arith,
      and_step a 15,
      and_step (a / 2) 7,
      and_step (a / 2 / 2) 3,
      and_step (a / 2 / 2 / 2) 1,
      and-zero (a / 2 / 2 / 2 / 2),
    )

    upper : (a : ℕ) → bit_and a 127 ≡ bit_and (a / 8) 15 * 8 + a % 8
    upper a =
        let e : a / 2 / 2 / 2 ≡ a / 8 = omega arith in
        omega (
          arith,
          and_step a 127,
          and_step (a / 2) 63,
          and_step (a / 2 / 2) 31,
          ap (λ (t : ℕ). bit_and t 15) e,
        )

-- `tag & 0x7`
pub low_three : (a : ℕ) → bit_and a 7 ≡ a % 8
low_three a =
    omega
      (arith, and_step a 7, and_step (a / 2) 3, and_step (a / 2 / 2) 1, and-zero (a / 2 / 2 / 2))
