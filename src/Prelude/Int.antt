-- ===== src/Prelude/Int.antt =====
-- Integers over the native numbers, as far as the code compares them.
use Prim.Native.Nat.{ℕ}
use mathlib.Core.Path.{◌≡◌}
use mathlib.Core.Logic.{◌↔◌}
use mathlib.Core.Bool.{Bool, true, false}
use native.Mathlib.Omega.{arith}
use barrel.Prelude.Tests.{Eq, nat_eq, ◌==◌}

-- `negsuc n` is -(n + 1).
pub data ℤ : Type 0 where
  pos : ℕ → ℤ
  negsuc : ℕ → ℤ

abbrev int_beq : ℤ → ℤ → Bool
int_beq (pos m) (pos n) = m == n
int_beq (negsuc m) (negsuc n) = m == n
int_beq _ _ = false

pub int_beq_iff : (a b : ℤ) → (int_beq a b ≡ true) ↔ (a ≡ b)
int_beq_iff (pos m) (pos n) = ground arith
int_beq_iff (pos m) (negsuc n) = ground arith
int_beq_iff (negsuc m) (pos n) = ground arith
int_beq_iff (negsuc m) (negsuc n) = ground arith

instance abbrev pub int_eq : Eq ℤ
int_eq = record { same = int_beq; same_reflects = int_beq_iff }
