-- ===== src/Types/Status/Laws.antt =====
-- Marking, unmarking and matching status bits.
use Prim.Native.Nat.{bit_and, bit_or, max, min}
use barrel.Prelude.{
  ℕ, ◌-◌, ◌^◌, ◌≤◌, ◌<◌, ◌≡◌, ◌≢◌, refl, ◌⊎◌, inl, inr, true, false, List, [], ◌∷◌, All, arith,
}
use barrel.Prelude.Bits.{
  bit, bit-or, bit-and, bit-le-one, bit-above, bit-zero, complement, bit-complement, eq_of_bits,
}
use native.Mathlib.Decide.{dec_lt}
use barrel.Types.Status.{matches, mark, unmark, uint_bits}

-- Digit `i` is set in one of the flags.
abbrev pub flag_bit : ℕ → List ℕ → ℕ
flag_bit i [] = 0
flag_bit i (flag ∷ flags) = max (bit i flag) (flag_bit i flags)

-- After `Mark` a digit is set when it was set before or is set in a flag.
pub bit-mark : (i s : ℕ) (flags : List ℕ) → bit i (mark s flags) ≡ max (bit i s) (flag_bit i flags)
unfolding mark
bit-mark i s [] = omega arith
bit-mark i s (flag ∷ flags) = omega (arith, bit-mark i (bit_or s flag) flags, bit-or i s flag)

-- A flag whose digits are all set is matched.
abbrev Covers : ℕ → ℕ → Type 0
Covers s flag = (i : ℕ) → bit i flag ≤ bit i s

Covers-bit_and : (s flag : ℕ) → Covers s flag → bit_and s flag ≡ flag
Covers-bit_and s flag c = eq_of_bits _ _ (λ i. omega (arith, bit-and i s flag, c i))

matches-Covers :
    (s : ℕ) (flags : List ℕ)
    → All (λ f. f ≢ 0) flags
    → All (Covers s) flags
    → matches s flags ≡ true
unfolding matches
matches-Covers s [] n c = refl
matches-Covers s (flag ∷ flags) n c =
    ground (arith, n.0, Covers-bit_and s flag c.0, matches-Covers s flags n.1 c.1)

Covers-mono : (s t : ℕ) (flags : List ℕ) → Covers t s → All (Covers s) flags → All (Covers t) flags
Covers-mono s t [] g c = tt
Covers-mono s t (flag ∷ flags) g c = ((λ i. omega (arith, g i, c.0 i)), Covers-mono s t flags g c.1)

mark-Covers : (s : ℕ) (flags : List ℕ) → All (Covers (mark s flags)) flags
unfolding mark
mark-Covers s [] = tt
mark-Covers s (flag ∷ flags) = (
  (λ i. omega (arith, bit-mark i (bit_or s flag) flags, bit-or i s flag)),
  mark-Covers (bit_or s flag) flags,
)

-- After flags that are not zero are marked, `Match` finds them all.
pub matches-mark :
    (s : ℕ) (flags : List ℕ) → All (λ f. f ≢ 0) flags → matches (mark s flags) flags ≡ true
matches-mark s flags n = matches-Covers _ flags n (mark-Covers s flags)

-- After `Unmark` of flags that fit a 64-bit word, a digit of the word is set when it was set
-- before and is in no flag.
pub bit-unmark :
    (i s : ℕ) (flags : List ℕ)
    → i < uint_bits
    → All (λ f. f < 2 ^ uint_bits) flags
    → bit i (unmark s flags) ≡ min (bit i s) (1 - flag_bit i flags)
unfolding unmark
bit-unmark i s [] h fits = omega (arith, bit-le-one i s)
bit-unmark i s (flag ∷ flags) h fits = omega (
  arith,
  bit-unmark i (bit_and s (complement uint_bits flag)) flags h fits.1,
  bit-and i s (complement uint_bits flag),
  bit-complement uint_bits i flag fits.0 h,
)

lt-or-le : (i w : ℕ) → (i < w) ⊎ (w ≤ i)
lt-or-le i w = elim (dec_lt i w) [ yes h ↦ inl h | no h ↦ inr (omega arith) ]

and-unmark : (s flag : ℕ) → flag < 2 ^ uint_bits → bit_and (unmark s (flag ∷ [])) flag ≡ 0
and-unmark s flag fits = eq_of_bits _ _ digit
  where
    digit : (i : ℕ) → bit i (bit_and (unmark s (flag ∷ [])) flag) ≡ bit i 0
    digit i = elim (lt-or-le i uint_bits) [
      | inl h ↦ omega (
        arith,
        bit-and i (unmark s (flag ∷ [])) flag,
        bit-unmark i s (flag ∷ []) h (fits, tt),
        bit-le-one i flag,
        bit-zero i,
      )
      | inr h ↦ omega (
        arith,
        bit-and i (unmark s (flag ∷ [])) flag,
        bit-above uint_bits i flag fits h,
        bit-zero i,
      )
    ]

-- After a flag that fits a 64-bit word is unmarked, `Match` does not find it.
pub matches-unmark :
    (s flag : ℕ) → flag < 2 ^ uint_bits → matches (unmark s (flag ∷ [])) (flag ∷ []) ≡ false
unfolding matches
matches-unmark s flag fits = ground (arith, and-unmark s flag fits)
