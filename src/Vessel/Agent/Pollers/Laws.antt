-- ===== src/Vessel/Agent/Pollers/Laws.antt =====
-- The size that `pollers` keeps, and the endpoints of its pending updates.
use barrel.Prelude.{
  ℕ, suc, ◌-◌, ◌+◌, Bool, true, false, not, ◌&&◌, List, [], ◌∷◌, Option, none, some, String,
  string_eq, ◌≡◌, refl, sym, ap, length, arith, Bool-cases, inl, inr, beq_iff,
}
use barrel.Types.{Result}
use barrel.Vessel.Agent.Pollers.{
  Poller, Pollers, stands_at, find, delete, placed, new_poller, match_loop, match, is_over,
}

-- No two pollers stand at one endpoint.
abbrev pub Distinct : List Poller → Type 0
Distinct [] = Unit
Distinct (p ∷ ps) = (find p.network_id p.endpoint_id ps ≡ none) × Distinct ps

pub record IsCounted (ps : Pollers) : Type 0 where
  pub counted : ps.size ≡ length ps.entries
  pub distinct : Distinct ps.entries

stands_at-same :
    (n e : String) (p : Poller) → stands_at n e p ≡ true → (p.network_id ≡ n) × (p.endpoint_id ≡ e)
stands_at-same n e p h =
    (ground (arith, beq_iff p.network_id n), ground (arith, beq_iff p.endpoint_id e))

delete-absent : (n e : String) (ps : List Poller) → find n e ps ≡ none → delete n e ps ≡ ps
delete-absent n e [] h = refl
delete-absent n e (p ∷ ps) h = elim (Bool-cases (stands_at n e p)) [
  | inl here ↦ absurd (ground arith)
  | inr there ↦ rw there (ap (◌∷◌ p) (delete-absent n e ps (rw there at h)))
]

find-delete :
    (n e m d : String) (ps : List Poller) → find m d ps ≡ none → find m d (delete n e ps) ≡ none
find-delete n e m d [] h = refl
find-delete n e m d (p ∷ ps) h = elim (Bool-cases (stands_at m d p)) [
  | inl hit ↦ absurd (cc (rw hit at h))
  | inr miss ↦
      let left = rw miss at h in
      elim (Bool-cases (stands_at n e p)) [
        | inl here ↦ rw here (find-delete n e m d ps left)
        | inr there ↦ rw (there, miss) (find-delete n e m d ps left)
      ]
]

Distinct-delete : (n e : String) (ps : List Poller) → Distinct ps → Distinct (delete n e ps)
Distinct-delete n e [] h = tt
Distinct-delete n e (p ∷ ps) h = elim (Bool-cases (stands_at n e p)) [
  | inl here ↦ rw here (Distinct-delete n e ps h.1)
  | inr there ↦
      rw there (find-delete n e p.network_id p.endpoint_id ps h.0, Distinct-delete n e ps h.1)
]

length-delete :
    (n e : String) (ps : List Poller) (q : Poller)
    → Distinct ps
    → find n e ps ≡ some q
    → suc (length (delete n e ps)) ≡ length ps
length-delete n e [] q d h = absurd (cc)
length-delete n e (p ∷ ps) q d h = elim (Bool-cases (stands_at n e p)) [
  | inl here ↦
      let same = stands_at-same n e p here in
      let gone : find n e ps ≡ none = rw (sym same.0, sym same.1) d.0 in
      rw (here, delete-absent n e ps gone) refl
  | inr there ↦ rw there (ap suc (length-delete n e ps q d.1 (rw there at h)))
]

placed-IsCounted :
    (ps : Pollers) (p : Poller) (o : Option Poller)
    → find p.network_id p.endpoint_id ps.entries ≡ o
    → IsCounted ps
    → IsCounted (placed ps p o)
placed-IsCounted ps p none gone h = record {
  counted = ap suc h.counted;
  distinct = (gone, h.distinct);
}
placed-IsCounted ps p (some prev) there h = elim (Bool-cases (prev.add && not p.add)) [
  | inl both ↦ rw both (record {
    counted = omega (
      arith,
      h.counted,
      length-delete p.network_id p.endpoint_id ps.entries prev h.distinct there,
    );
    distinct = Distinct-delete p.network_id p.endpoint_id ps.entries h.distinct;
  })
  | inr kept ↦ rw kept h
]

-- NewPoller keeps the size right and the endpoints distinct, whether it adds a poller, takes a
-- pending one back, or does nothing.
pub new_poller-IsCounted : (ps : Pollers) (p : Poller) → IsCounted ps → IsCounted (new_poller ps p)
unfolding new_poller
new_poller-IsCounted ps p h = placed-IsCounted ps p _ refl h

one_less : (n : ℕ) → suc n - 1 ≡ n
one_less n = omega arith

placed_back :
    (ps : Pollers) (p q : Poller)
    → p.add ≡ true
    → q.add ≡ false
    → stands_at q.network_id q.endpoint_id p ≡ true
    → find q.network_id q.endpoint_id ps.entries ≡ none
    → new_poller (placed ps p none) q ≡ ps
unfolding new_poller
placed_back ps p q adds removes here gone =
    rw (here, adds, removes, here, delete-absent q.network_id q.endpoint_id ps.entries gone)
      (ap (λ (n : ℕ). record { size = n; entries = ps.entries }) (one_less ps.size))

beq_self : (p : Poller) → stands_at p.network_id p.endpoint_id p ≡ true
beq_self p = ground (arith, beq_iff p.network_id p.network_id, beq_iff p.endpoint_id p.endpoint_id)

-- An endpoint that was created and removed between two polls, with nothing pending before, leaves
-- nothing pending.
pub new_poller-cancels :
    (ps : Pollers) (p q : Poller)
    → p.network_id ≡ q.network_id
    → p.endpoint_id ≡ q.endpoint_id
    → p.add ≡ true
    → q.add ≡ false
    → find p.network_id p.endpoint_id ps.entries ≡ none
    → new_poller (new_poller ps p) q ≡ ps
unfolding new_poller
new_poller-cancels ps p q same_network same_endpoint adds removes gone = rw gone (
    placed_back ps p q adds removes (rw (sym same_network, sym same_endpoint) (beq_self p))
      (rw (sym same_network, sym same_endpoint) gone))

module _ {S : Type 0} (event : S → Poller → Result Bool × S) (now : ℕ) where
  -- What is left after the loop has no endpoint that was not there.
  find-match_loop :
      (m d : String) (s : S) (ps : List Poller)
      → find m d ps ≡ none
      → find m d (match_loop event now s ps).0 ≡ none
  unfolding match_loop
  find-match_loop m d s [] h = refl
  find-match_loop m d s (p ∷ ps) h = elim (Bool-cases (stands_at m d p)) [
    | inl hit ↦ absurd (cc (rw hit at h))
    | inr miss ↦
        let t = event s p in
        let left = find-match_loop m d t.1 ps (rw miss at h) in
        elim (Bool-cases (is_over p now t.0)) [
          | inl over ↦ rw over left
          | inr stays ↦ rw (stays, miss) left
        ]
  ]

  Distinct-match_loop :
      (s : S) (ps : List Poller) → Distinct ps → Distinct (match_loop event now s ps).0
  unfolding match_loop
  Distinct-match_loop s [] h = tt
  Distinct-match_loop s (p ∷ ps) h =
      let t = event s p in
      elim (Bool-cases (is_over p now t.0)) [
        | inl over ↦ rw over (Distinct-match_loop t.1 ps h.1)
        | inr stays ↦
            rw stays (
              find-match_loop p.network_id p.endpoint_id t.1 ps h.0,
              Distinct-match_loop t.1 ps h.1,
            )
      ]

  length-match_loop :
      (s : S) (ps : List Poller)
      → let (left, (deleted, _)) = match_loop event now s ps in length left + deleted ≡ length ps
  unfolding match_loop
  length-match_loop s [] = refl
  length-match_loop s (p ∷ ps) =
      let t = event s p in
      let later = length-match_loop t.1 ps in
      elim (Bool-cases (is_over p now t.0)) [
        | inl over ↦ rw over (omega (arith, later))
        | inr stays ↦ rw stays (omega (arith, later))
      ]

  -- What each answer of the event keeps, the loop keeps.
  pub match_loop-keeps :
      (P : S → Type 0)
      → ((s : S) (p : Poller) → P s → P (event s p).1)
      → (s : S) (ps : List Poller) → P s
      → P (match_loop event now s ps).1.1
  unfolding match_loop
  match_loop-keeps P kept s [] h = h
  match_loop-keeps P kept s (p ∷ ps) h =
      let t = event s p in
      let later = match_loop-keeps P kept t.1 ps (kept s p h) in
      elim (Bool-cases (is_over p now t.0)) [
        | inl over ↦ rw over later
        | inr stays ↦ rw stays later
      ]

  -- Whatever the event answers, match keeps the size right and the endpoints distinct.
  pub match-IsCounted : (ps : Pollers) (s : S) → IsCounted ps → IsCounted (match event now ps s).0
  unfolding match
  match-IsCounted ps s h = record {
    counted = omega (arith, h.counted, length-match_loop s ps.entries);
    distinct = Distinct-match_loop s ps.entries h.distinct;
  }
