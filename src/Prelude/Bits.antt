-- ===== src/Prelude/Bits.antt =====
-- The binary digits of `&`, `|` and `^` on unsigned words, digit by digit.
use Prim.Native.Nat.{
  ℕ, zero, suc, ◌+◌, ◌-◌, ◌*◌, ◌/◌, ◌%◌, ◌^◌, ◌≤◌, ◌<◌, min, max, bit_and, bit_or, digits, bitwise,
  bit_and-bitwise, bit_or-bitwise,
}
use mathlib.Core.Path.{◌≡◌, refl, ap}
use native.Mathlib.Omega.{arith}
use native.Mathlib.Nat.{pow-suc}

-- Digit `i` of a number, the lowest being digit 0.
pub bit : ℕ → ℕ → ℕ
bit zero n = n % 2
bit (suc i) n = bit i (n / 2)

section_half : (a : ℕ) → suc a / 2 ≤ a
section_half a = omega arith

module _ (z : ℕ → ℕ) (op : ℕ → ℕ → ℕ) where
  -- Fuel beyond the first number is never used.
  more_fuel : (k l a b : ℕ) → a ≤ k → a ≤ l → digits z op k a b ≡ digits z op l a b
  more_fuel zero zero a b h g = refl
  more_fuel (suc k) zero zero b h g = refl
  more_fuel (suc k) zero (suc a) b h g = absurd (omega arith)
  more_fuel zero (suc l) zero b h g = refl
  more_fuel zero (suc l) (suc a) b h g = absurd (omega arith)
  more_fuel (suc k) (suc l) zero b h g = refl
  more_fuel (suc k) (suc l) (suc a) b h g =
      ap (λ (t : ℕ). t * 2 + op (suc a % 2) (b % 2))
        (more_fuel k l (suc a / 2) (b / 2) (omega arith) (omega arith))

  bitwise_lowest :
      (a b : ℕ)
      → bitwise z op (suc a) b ≡ bitwise z op (suc a / 2) (b / 2) * 2 + op (suc a % 2) (b % 2)
  bitwise_lowest a b =
      ap (λ (t : ℕ). t * 2 + op (suc a % 2) (b % 2))
        (more_fuel a (suc a / 2) (suc a / 2) (b / 2) (section_half a) (omega arith))

or_lowest : (a b : ℕ) → bit_or a b ≡ bit_or (a / 2) (b / 2) * 2 + max (a % 2) (b % 2)
or_lowest zero b = simp bit_or-bitwise (omega arith)
or_lowest (suc a) b = simp bit_or-bitwise (bitwise_lowest (λ t. t) max a b)

and_lowest : (a b : ℕ) → bit_and a b ≡ bit_and (a / 2) (b / 2) * 2 + min (a % 2) (b % 2)
and_lowest zero b = simp bit_and-bitwise (omega arith)
and_lowest (suc a) b = simp bit_and-bitwise (bitwise_lowest (λ t. 0) min a b)

or_half : (a b : ℕ) → bit_or a b / 2 ≡ bit_or (a / 2) (b / 2)
or_half a b = omega (arith, or_lowest a b)

and_half : (a b : ℕ) → bit_and a b / 2 ≡ bit_and (a / 2) (b / 2)
and_half a b = omega (arith, and_lowest a b)

pub bit-or : (i a b : ℕ) → bit i (bit_or a b) ≡ max (bit i a) (bit i b)
unfolding bit
bit-or zero a b = omega (arith, or_lowest a b)
bit-or (suc i) a b = rw or_half (bit-or i (a / 2) (b / 2))

pub bit-and : (i a b : ℕ) → bit i (bit_and a b) ≡ min (bit i a) (bit i b)
unfolding bit
bit-and zero a b = omega (arith, and_lowest a b)
bit-and (suc i) a b = rw and_half (bit-and i (a / 2) (b / 2))

pub bit-le-one : (i n : ℕ) → bit i n ≤ 1
unfolding bit
bit-le-one zero n = omega arith
bit-le-one (suc i) n = bit-le-one i (n / 2)

pub bit-zero : (i : ℕ) → bit i 0 ≡ 0
unfolding bit
bit-zero zero = refl
bit-zero (suc i) = bit-zero i

-- `^n` on a word of `w` bits, which `n` fits.
pub complement : ℕ → ℕ → ℕ
complement w n = 2 ^ w - 1 - n

bit-below : (i m n : ℕ) (w : ℕ) → m + n + 1 ≡ 2 ^ w → i < w → bit i m ≡ 1 - bit i n
unfolding bit
bit-below i m n zero e h = elim h [ ]
bit-below zero m n (suc w) e h = omega (arith, pow-suc 2 w)
bit-below (suc i) m n (suc w) e h =
    bit-below i (m / 2) (n / 2) w (omega (arith, pow-suc 2 w)) (omega arith)

pub bit-complement : (w i n : ℕ) → n < 2 ^ w → i < w → bit i (complement w n) ≡ 1 - bit i n
unfolding complement
bit-complement w i n fits h = bit-below i (2 ^ w - 1 - n) n w (omega arith) h

-- Numbers with the same digits are equal.
eq_of_bits_below : (k a b : ℕ) → a ≤ k → b ≤ k → ((i : ℕ) → bit i a ≡ bit i b) → a ≡ b
unfolding bit
eq_of_bits_below zero a b h g e = omega arith
eq_of_bits_below (suc k) a b h g e =
    omega (
      arith,
      e zero,
      eq_of_bits_below k (a / 2) (b / 2) (omega arith) (omega arith) (λ i. e (suc i)),
    )

pub eq_of_bits : (a b : ℕ) → ((i : ℕ) → bit i a ≡ bit i b) → a ≡ b
eq_of_bits a b e = eq_of_bits_below (a + b) a b (omega arith) (omega arith) e

-- A number that fits `w` bits has no digit from `w` on.
pub bit-above : (w i n : ℕ) → n < 2 ^ w → w ≤ i → bit i n ≡ 0
unfolding bit
bit-above zero i n fits h = rw (zero_of n (omega arith)) (bit-zero i)
  where
    zero_of : (m : ℕ) → m < 1 → m ≡ 0
    zero_of m g = omega arith
bit-above (suc w) zero n fits h = absurd (omega arith)
bit-above (suc w) (suc i) n fits h =
    bit-above w i (n / 2) (omega (arith, pow-suc 2 w)) (omega arith)
