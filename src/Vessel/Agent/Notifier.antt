-- ===== src/Vessel/Agent/Notifier.antt =====
-- `notifier`: signals for the polling loop. A channel is a number; what a call sends is a list of
-- channels with their signals, in order.
pub mod Laws
use barrel.Prelude.{
  ℕ, zero, suc, ◌-◌, ◌+◌, ◌≤◌, Bool, true, false, List, [], ◌∷◌, ◌++◌, map, Option, none, some,
  nat_eq, ◌==◌, ◌≡◌, refl, sym, ap, if◌then◌else◌, any, length, get_elem?, set, take, length-take,
  arith, Bool-cases, inl, inr,
}
use Prim.Native.Nat.{min}
use barrel.Prelude.Int.{ℤ, pos}

pub record Notifier : Type 0 where
  pub chs : List ℕ
  pub has_sig : Bool
  pub sig : ℤ

abbrev pub new_notifier : Notifier
new_notifier = record { chs = []; has_sig = false; sig = pos 0 }

abbrev pub Sent : Type 0
Sent = List (ℕ × ℤ)

-- `wait`. The goroutine that sends a pending signal is one entry of what is sent.
pub wait : Notifier → ℕ → Notifier × Sent
wait n ch =
    if n.has_sig
    then (record n { has_sig = false }, (ch, n.sig) ∷ [])
    else if any (λ c. c == ch) n.chs
    then (n, [])
    else (record n { chs = n.chs ++ ch ∷ [] }, [])

abbrev index_of : ℕ → List ℕ → Option ℕ
index_of ch [] = none
index_of ch (c ∷ cs) =
    if c == ch then some 0 else elim (index_of ch cs) [ none ↦ none | some i ↦ some (suc i) ]

-- The last channel takes the place of the removed one, and the slice ends before `lastIdx - 1`.
abbrev moved : List ℕ → ℕ → ℕ → Option ℕ → List ℕ
moved chs last i none = chs
moved chs last i (some c) = take (last - 1) (set chs i c)

abbrev drop_at : List ℕ → ℕ → Option ℕ → List ℕ
drop_at chs last none = chs
drop_at chs last (some i) = moved chs last i (get_elem? chs last)

-- `remove`, on the channels.
pub remove : List ℕ → ℕ → List ℕ
remove [] ch = []
remove (c ∷ []) ch = if c == ch then [] else c ∷ []
remove (c ∷ d ∷ cs) ch = drop_at (c ∷ d ∷ cs) (suc (length cs)) (index_of ch (c ∷ d ∷ cs))

-- `cancel`
pub cancel : Notifier → ℕ → Notifier
unfolding remove
cancel n ch = record n { chs = remove n.chs ch }

abbrev to_all : ℤ → List ℕ → Sent
to_all s [] = []
to_all s (c ∷ cs) = (c, s) ∷ to_all s cs

abbrev pub send_to : Notifier → ℤ → List ℕ → Notifier × Sent
send_to n s [] = (record n { has_sig = true; sig = s }, [])
send_to n s (c ∷ cs) = (record n { chs = [] }, to_all s (c ∷ cs))

-- `send`
pub send : Notifier → ℤ → Notifier × Sent
send n s = send_to n s n.chs
