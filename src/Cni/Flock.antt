-- ===== src/Cni/Flock.antt =====
-- cni/store/filesystem/lock.go: processes that lock the file of an address, call by call.
use barrel.Prelude.{
  ℕ, suc, ◌<◌, Bool, true, false, Option, none, some, ◌≡◌, ◌≢◌, refl, sym, ◌∙◌, inl, inr, nat_eq,
  ◌==◌, beq_iff, beq_refl, Option-cases, if◌then◌else◌, arith,
}

-- The file at the path is known by its number, and a process holds the file that it has opened.
pub record Locks : Type 0 where
  pub file : Option ℕ
  pub fresh : ℕ
  pub opened : ℕ → Option ℕ
  pub holds : ℕ → Bool

abbrev pub set_at : {A : Type 0} → (ℕ → A) → ℕ → A → ℕ → A
set_at f p v q = if p == q then v else f q

abbrev pub start : Locks
start = record { file = none; fresh = 0; opened = λ p. none; holds = λ p. false }

abbrev pub made_by : ℕ → Locks → Locks
made_by p s = record s {
  file = some s.fresh;
  fresh = suc s.fresh;
  opened = set_at s.opened p (some s.fresh);
}

abbrev pub opened_by : ℕ → ℕ → Locks → Locks
opened_by p i s = record s { opened = set_at s.opened p (some i) }

abbrev pub locked_by : ℕ → Locks → Locks
locked_by p s = record s { holds = set_at s.holds p true }

abbrev pub unlocked_by : ℕ → Locks → Locks
unlocked_by p s = record s { opened = set_at s.opened p none; holds = set_at s.holds p false }

-- `LOCK_EX` waits until no process holds the same file.
abbrev pub IsFree : ℕ → Locks → Type 0
IsFree i s = (q : ℕ) → s.holds q ≡ true → s.opened q ≢ some i

infix 40 ◌⟶◌
pub data ◌⟶◌ : Locks → Locks → Type 0 where
  get_new : {s : Locks} (p : ℕ) → s.file ≡ none → s.opened p ≡ none → s ⟶ made_by p s
  get_old : {s : Locks} (p i : ℕ) → s.file ≡ some i → s.opened p ≡ none → s ⟶ opened_by p i s
  lock : {s : Locks} (p i : ℕ) → s.opened p ≡ some i → IsFree i s → s ⟶ locked_by p s
  unlock : {s : Locks} (p : ℕ) → s.holds p ≡ true → s ⟶ unlocked_by p s

-- With the removal of the file in `DeleteNetEndpoint`, which runs under the lock.
infix 40 ◌⟹◌
pub data ◌⟹◌ : Locks → Locks → Type 0 where
  step : {s t : Locks} → s ⟶ t → s ⟹ t
  delete : {s : Locks} (p : ℕ) → s.holds p ≡ true → s ⟹ record s { file = none }

pub data Run (R : Locks → Locks → Type 0) : Locks → Type 0 where
  begin : Run R start
  after : {s t : Locks} → Run R s → R s t → Run R t

record Inv (s : Locks) : Type 0 where
  same_file : (p i : ℕ) → s.opened p ≡ some i → s.file ≡ some i
  opened_first : (p : ℕ) → s.holds p ≡ true → s.opened p ≢ none
  alone : (p q : ℕ) → s.holds p ≡ true → s.holds q ≡ true → p ≡ q

start-Inv : Inv start
start-Inv = record {
  same_file = λ p i e. absurd (cc);
  opened_first = λ p e. absurd (cc);
  alone = λ p q e f. absurd (cc);
}

-- A file that is free while its number is the one at the path has no holder at all.
nobody :
    {s : Locks} (p i : ℕ) → s.opened p ≡ some i → IsFree i s → Inv s → (q : ℕ) → s.holds q ≢ true
nobody {s} p i e f v q h = elim (Option-cases (s.opened q)) [
  | inl n ↦ v.opened_first q h n
  | inr (j, o) ↦ f q h (o ∙ sym (v.same_file q j o) ∙ v.same_file p i e)
]

step-Inv : {s t : Locks} → s ⟶ t → Inv s → Inv t
step-Inv (get_new {s} p e n) v = record {
  same_file = λ q i h. ground (arith, v.same_file q i, beq_iff p q);
  opened_first = λ q h. ground (arith, v.opened_first q, beq_iff p q);
  alone = v.alone;
}
step-Inv (get_old {s} p j e n) v = record {
  same_file = λ q i h. ground (arith, v.same_file q i, beq_iff p q);
  opened_first = λ q h. ground (arith, v.opened_first q, beq_iff p q);
  alone = v.alone;
}
step-Inv (lock {s} p i e f) v = record {
  same_file = v.same_file;
  opened_first = λ q h. ground (arith, v.opened_first q, beq_iff p q);
  alone =
      λ q r h k. ground (arith, nobody p i e f v q, nobody p i e f v r, beq_iff p q, beq_iff p r);
}
step-Inv (unlock {s} p h) v = record {
  same_file = λ q i h. ground (arith, v.same_file q i, beq_iff p q);
  opened_first = λ q k. ground (arith, v.opened_first q, beq_iff p q);
  alone = λ q r k l. ground (arith, v.alone q r, beq_iff p q, beq_iff p r);
}

Run-Inv : {s : Locks} → Run ◌⟶◌ s → Inv s
Run-Inv begin = start-Inv
Run-Inv (after r t) = step-Inv t (Run-Inv r)

-- In every order in which processes open the lock file of an address, lock it and unlock it, while
-- no file is removed, two processes never hold it together.
pub mutual_exclusion :
    {s : Locks} → Run ◌⟶◌ s → (p q : ℕ) → s.holds p ≡ true → s.holds q ≡ true → p ≡ q
mutual_exclusion r = (Run-Inv r).alone

-- What holds with removals too: the numbers in use are old ones.
record Known (s : Locks) : Type 0 where
  numbered : (p i : ℕ) → s.opened p ≡ some i → i < s.fresh
  listed : (i : ℕ) → s.file ≡ some i → i < s.fresh
  opened_first : (p : ℕ) → s.holds p ≡ true → s.opened p ≢ none

step-Known : {s t : Locks} → s ⟶ t → Known s → Known t
step-Known (get_new {s} p e n) v = record {
  numbered = λ q i h. ground (arith, v.numbered q i, beq_iff p q);
  listed = λ i h. ground arith;
  opened_first = λ q h. ground (arith, v.opened_first q, beq_iff p q);
}
step-Known (get_old {s} p j e n) v = record {
  numbered = λ q i h. ground (arith, v.numbered q i, v.listed j, beq_iff p q);
  listed = v.listed;
  opened_first = λ q h. ground (arith, v.opened_first q, beq_iff p q);
}
step-Known (lock {s} p i e f) v = record {
  numbered = v.numbered;
  listed = v.listed;
  opened_first = λ q h. ground (arith, v.opened_first q, beq_iff p q);
}
step-Known (unlock {s} p h) v = record {
  numbered = λ q i k. ground (arith, v.numbered q i, beq_iff p q);
  listed = v.listed;
  opened_first = λ q k. ground (arith, v.opened_first q, beq_iff p q);
}

Run-Known : {s : Locks} → Run ◌⟹◌ s → Known s
Run-Known begin = record {
  numbered = λ p i e. absurd (cc);
  listed = λ i e. absurd (cc);
  opened_first = λ p e. absurd (cc);
}
Run-Known (after r (step t)) = step-Known t (Run-Known r)
Run-Known (after r (delete p h)) =
    let v = Run-Known r in
    record { numbered = v.numbered; listed = λ i e. absurd (cc); opened_first = v.opened_first }

unopened :
    (s : Locks) (q : ℕ)
    → Known s
    → s.opened q ≡ none
    → IsFree s.fresh (made_by q (record s { file = none }))
unopened s q v n r h o = ground (arith, v.opened_first r, v.numbered r s.fresh, beq_iff q r)

-- From every state that processes reach in which one holds the lock of an address and another has
-- not opened its file, a state is reached, by the removal of the file under the lock, in which
-- both hold the lock.
pub delete-two_holders :
    (s : Locks) (p q : ℕ)
    → Run ◌⟹◌ s
    → s.holds p ≡ true
    → s.opened q ≡ none
    → (t : Locks) × Run ◌⟹◌ t × (t.holds p ≡ true) × (t.holds q ≡ true)
delete-two_holders s p q run h n =
    let v = Run-Known run in
    let gone : Locks = record s { file = none } in
    let again : Locks = made_by q gone in
    (
      locked_by q again,
      after (after (after run (delete p h)) (step (get_new q refl n)))
          (step (lock q s.fresh (rw (beq_refl q) refl) (unopened s q v n))),
      ground (arith, h),
      rw (beq_refl q) refl,
    )
