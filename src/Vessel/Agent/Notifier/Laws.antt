-- ===== src/Vessel/Agent/Notifier/Laws.antt =====
-- Whom a signal of `notifier` reaches.
use barrel.Prelude.{
  ℕ, zero, suc, ◌-◌, true, false, List, [], ◌∷◌, map, Option, none, some, nat_eq, ◌==◌, ◌≡◌, refl,
  ap, any, length, get_elem?, set, length-take, arith, Bool-cases, inl, inr,
}
use Prim.Native.Nat.{min}
use barrel.Prelude.Int.{ℤ}
use barrel.Vessel.Agent.Notifier.{
  Notifier, new_notifier, wait, index_of, moved, remove, cancel, to_all, send_to, send,
}

-- The calls that the agent makes.
pub data Moves : Notifier → Notifier → Type 0 where
  waits : (n : Notifier) (ch : ℕ) → Moves n (wait n ch).0
  cancels : (n : Notifier) (ch : ℕ) → Moves n (cancel n ch)
  sends : (n : Notifier) (s : ℤ) → Moves n (send n s).0

pub data IsReachable : Notifier → Type 0 where
  starts : IsReachable new_notifier
  moves : {m n : Notifier} → IsReachable m → Moves m n → IsReachable n

-- A signal is kept only while nobody waits.
abbrev pub IsSettled : Notifier → Type 0
IsSettled n = n.has_sig ≡ true → n.chs ≡ []

remove-none : (chs : List ℕ) (ch : ℕ) → chs ≡ [] → remove chs ch ≡ []
unfolding remove
remove-none [] ch e = refl
remove-none (c ∷ cs) ch e = absurd (cc)

send_to-IsSettled : (n : Notifier) (s : ℤ) (cs : List ℕ) → n.chs ≡ cs → IsSettled (send_to n s cs).0
send_to-IsSettled n s [] e = λ _. e
send_to-IsSettled n s (c ∷ cs) e = λ _. refl

wait-IsSettled : (n : Notifier) (ch : ℕ) → IsSettled n → IsSettled (wait n ch).0
unfolding wait
wait-IsSettled n ch h = elim (Bool-cases n.has_sig) [
  | inl pending ↦ rw pending (λ e. absurd (cc (e)))
  | inr quiet ↦ elim (Bool-cases (any (λ c. c == ch) n.chs)) [
    | inl there ↦ rw (quiet, there) (λ e. absurd (cc (e)))
    | inr missing ↦ rw (quiet, missing) (λ e. absurd (cc (e)))
  ]
]

Moves-IsSettled : {m n : Notifier} → Moves m n → IsSettled m → IsSettled n
unfolding cancel send
Moves-IsSettled (waits n ch) h = wait-IsSettled n ch h
Moves-IsSettled (cancels n ch) h = λ e. remove-none n.chs ch (h e)
Moves-IsSettled (sends n s) h = send_to-IsSettled n s n.chs refl

-- Whatever calls the agent makes, the notifier never keeps a signal while a channel waits for one.
pub IsReachable-IsSettled : {n : Notifier} → IsReachable n → IsSettled n
IsReachable-IsSettled starts = λ e. refl
IsReachable-IsSettled (moves r m) = Moves-IsSettled m (IsReachable-IsSettled r)

-- A signal that is sent while nobody waits reaches the next channel that waits, once.
pub wait-send :
    (n : Notifier) (s : ℤ) (ch : ℕ)
    → n.chs ≡ []
    → wait (send n s).0 ch ≡ (record n { has_sig = false; sig = s }, (ch, s) ∷ [])
unfolding wait send
wait-send n s ch e = rw e refl

Sends-each : (s : ℤ) (cs : List ℕ) → map (λ (p : ℕ × ℤ). p.0) (to_all s cs) ≡ cs
Sends-each s [] = refl
Sends-each s (c ∷ cs) = ap (◌∷◌ c) (Sends-each s cs)

send_to-chs :
    (n : Notifier) (s : ℤ) (cs : List ℕ)
    → n.chs ≡ cs
    → (map (λ (p : ℕ × ℤ). p.0) (send_to n s cs).1 ≡ cs) × ((send_to n s cs).0.chs ≡ [])
send_to-chs n s [] e = (refl, e)
send_to-chs n s (c ∷ cs) e = (Sends-each s (c ∷ cs), refl)

-- A call of send sends to each channel that waits, in order, and no channel waits after it.
pub send-chs :
    (n : Notifier) (s : ℤ)
    → (map (λ (p : ℕ × ℤ). p.0) (send n s).1 ≡ n.chs) × ((send n s).0.chs ≡ [])
unfolding send
send-chs n s = send_to-chs n s n.chs refl

length-set : (cs : List ℕ) (i c : ℕ) → length (set cs i c) ≡ length cs
length-set [] i c = refl
length-set (d ∷ cs) zero c = refl
length-set (d ∷ cs) (suc i) c = ap suc (length-set cs i c)

get_last : (c : ℕ) (cs : List ℕ) → (d : ℕ) × (get_elem? (c ∷ cs) (length cs) ≡ some d)
get_last c [] = (c, refl)
get_last c (d ∷ cs) = get_last d cs

index_of-any :
    (ch : ℕ) (cs : List ℕ) → any (λ c. c == ch) cs ≡ true → (i : ℕ) × (index_of ch cs ≡ some i)
index_of-any ch [] h = absurd (cc)
index_of-any ch (c ∷ cs) h = elim (Bool-cases (c == ch)) [
  | inl hit ↦ (0, rw hit refl)
  | inr miss ↦ let (i, at) = index_of-any ch cs (rw miss at h) in (suc i, rw (miss, at) refl)
]

length-moved :
    (chs : List ℕ) (last i : ℕ) (o : Option ℕ) (c : ℕ)
    → o ≡ some c
    → length (moved chs last i o) ≡ min (last - 1) (length chs)
length-moved chs last i none c e = absurd (cc)
length-moved chs last i (some d) c e =
    omega (arith, length-take (last - 1) (set chs i d), length-set chs i d)

-- Where two or more channels wait, remove of one of them takes two away.
length-remove :
    (c d ch : ℕ) (cs : List ℕ)
    → any (λ x. x == ch) (c ∷ d ∷ cs) ≡ true
    → length (remove (c ∷ d ∷ cs) ch) ≡ length cs
unfolding remove
length-remove c d ch cs h =
    let (i, at) = index_of-any ch (c ∷ d ∷ cs) h in
    let (x, last) = get_last c (d ∷ cs) in
    rw at (
      omega (
        arith,
        length-moved (c ∷ d ∷ cs) (suc (length cs)) i (get_elem? (c ∷ d ∷ cs) (suc (length cs))) x
            last,
      ))
