-- ===== src/Tests/Getters.antt =====
-- The lazy getter at a concrete input.
use barrel.Prelude.{ℕ, suc, none, some, ◌≡◌}
use barrel.Utils.Lazy.{Answer, new_getter, gets, asked, gets-asked}

-- A getter that counts its calls.
abbrev counter : ℕ → Answer ℕ × ℕ
counter n = ((some n, none), suc n)

counted_thrice : (gets counter 3 new_getter 0).1 ≡ asked counter 3 0
counted_thrice = gets-asked counter 3 0
