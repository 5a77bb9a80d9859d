-- ===== src/Prelude/Texts.antt =====
-- Texts by their characters.
use Prim.Native.Char.{Char}
use Prim.Native.Nat.{ℕ, zero, suc}
use Prim.Native.String.{String}
use mathlib.Core.Bool.{Bool}
use mathlib.Core.Option.{Option, none, some}
use barrel.Prelude.{◌==◌, string_eq, if◌then◌else◌}

abbrev pub same_char : Char → Char → Bool
same_char c d = String.◌∷◌ c "" == String.◌∷◌ d ""

-- What stands after a prefix.
abbrev pub after_prefix : String → String → Option String
after_prefix String.[] s = some s
after_prefix (String.◌∷◌ c cs) (String.◌∷◌ d ds) =
    let rest = after_prefix cs ds in if same_char c d then rest else none
after_prefix _ _ = none

abbrev pub or_later : Option String → String → String
or_later (some pool) later = pool
or_later none later = later

-- `s[:MinInt(n, len(s))]`, where each character is one byte.
abbrev pub first_chars : ℕ → String → String
first_chars zero s = ""
first_chars (suc n) String.[] = ""
first_chars (suc n) (String.◌∷◌ c s) = String.◌∷◌ c (first_chars n s)
