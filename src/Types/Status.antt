-- ===== src/Types/Status.antt =====
-- types/meta.go and the status bits of types/flags.go.
pub mod Laws
use Prim.Native.Nat.{bit_and, bit_or}
use barrel.Prelude.{ℕ, Bool, true, false, List, [], ◌∷◌, nat_eq, ◌==◌, if◌then◌else◌}
use barrel.Prelude.Bits.{complement}

-- `IPStatusInUse` and `IPStatusRetired`: `1 << iota`.
abbrev pub in_use : ℕ
in_use = 1

abbrev pub retired : ℕ
retired = 2

-- `uint` on a 64-bit platform.
abbrev pub uint_bits : ℕ
uint_bits = 64

-- `BitStatus.Match`
unfoldable pub matches : ℕ → List ℕ → Bool
matches status [] = true
matches status (flag ∷ flags) =
    let rest = matches status flags in if bit_and status flag == 0 then false else rest

-- `BitStatus.Mark`
unfoldable pub mark : ℕ → List ℕ → ℕ
mark s [] = s
mark s (flag ∷ flags) = mark (bit_or s flag) flags

-- `BitStatus.Unmark`
pub unmark : ℕ → List ℕ → ℕ
unmark s [] = s
unmark s (flag ∷ flags) = unmark (bit_and s (complement uint_bits flag)) flags
