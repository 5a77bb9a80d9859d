-- ===== src/Vessel/Agent/Loop/Late.antt =====
-- The pending updates that a poll leaves once their time is over.
use barrel.Prelude.{
  ℕ, Bool, true, false, List, [], ◌∷◌, Option, none, some, String, nat_eq, ◌==◌, ◌≡◌, refl, ◌∙◌, ap,
  sym, inl, inr, Bool-cases, subst, length, arith, beq_iff, All, if◌then◌else◌, suc,
}
use barrel.Types.{Result, ok, err, Error, Pool, ContainerInfo, Network}
use barrel.Vessel.Agent.Pollers.{Poller, Pollers, is_timeout, is_over, match_loop, match}
use barrel.Vessel.Agent.MatchEvent.{
  Event, Entry, PollResult, DockerContainer, lookup, result_of, networks_of, keep_first, removed,
  make_add_poll_result, new_match_event, add_result, added, found, if_present, match_add_poller,
  unless_present, match_remove_poller, match_event,
}
use barrel.Method.{Ends, Ends-mono}
use barrel.Vessel.Agent.Pollers.Laws.{IsCounted}
use barrel.Vessel.Agent.Loop.{Agent, Peers, matched, poll}
use barrel.Vessel.Agent.Loop.Laws.{
  Polled, idle, polled, asked, NotAsked, no_daemon, no_records, poll-Ends,
}

abbrev pub AllLate : ℕ → List Poller → Type 0
AllLate now [] = Unit
AllLate now (p ∷ ps) = (is_timeout p now ≡ true) × AllLate now ps

-- An update that a poll cannot decide: the container of a created endpoint is there, and the pools of
-- its networks are not to be had.
pub record Unserved (pools_of : String → Result (List Pool))
    (belongs : String → String → Result Bool) (containers : List (Entry DockerContainer))
    (p : Poller) : Type 0 where
  pub container : DockerContainer
  pub error : Error
  pub adds : p.add ≡ true
  pub present : lookup p.network_id p.endpoint_id containers ≡ some container
  pub unserved : networks_of pools_of belongs container.endpoints ≡ err error

module _ (pools_of : String → Result (List Pool)) (belongs : String → String → Result Bool) where
  added-fails :
      (ev : Event) (c : DockerContainer) (o : Result (List Network)) (e : Error)
      → (added pools_of belongs ev c.id (add_result pools_of belongs ev.hostname c o)).0 ≡ err e
      → o ≡ err e
  added-fails ev c (ok networks) e h = absurd (cc)
  added-fails ev c (err d) e h = h'
    where
      h' : ◌≡◌ {A = Result (List Network)} (err d) (err e)
      h' = cc

  found-fails :
      (ev : Event) (c : DockerContainer) (o : Option PollResult) (e : Error)
      → (found pools_of belongs ev c o).0 ≡ err e
      → networks_of pools_of belongs c.endpoints ≡ err e
  found-fails ev c (some r) e h = absurd (cc)
  found-fails ev c none e h = added-fails ev c (networks_of pools_of belongs c.endpoints) e h

  adds-fails :
      (ev : Event) (p : Poller) (o : Option DockerContainer) (e : Error)
      → p.add ≡ true
      → lookup p.network_id p.endpoint_id ev.containers ≡ o
      → (if_present pools_of belongs ev o).0 ≡ err e
      → Unserved pools_of belongs ev.containers p
  adds-fails ev p none e adds at h = absurd (cc)
  adds-fails ev p (some c) e adds at h = record {
    container = c;
    error = e;
    adds = adds;
    present = at;
    unserved = found-fails ev c (result_of c.id ev.matched) e h;
  }

  removes-fails :
      (ev : Event) (p : Poller) (o : Option DockerContainer) (e : Error)
      → (unless_present ev p o).0 ≡ err e
      → ⊥
  removes-fails ev p none e h = cc
  removes-fails ev p (some c) e h = cc

  match_event-fails :
      (ev : Event) (p : Poller) (e : Error)
      → (match_event pools_of belongs ev p).0 ≡ err e
      → Unserved pools_of belongs ev.containers p
  unfolding match_event match_add_poller match_remove_poller
  match_event-fails ev p e h = elim (Bool-cases p.add) [
    | inl adds ↦ adds-fails ev p _ e adds refl (rw adds at h)
    | inr removes ↦ absurd (removes-fails ev p _ e (rw removes at h))
  ]

  keep_first-containers :
      (ev : Event) (id : String) (r : PollResult) (o : Option PollResult)
      → (keep_first ev id r o).containers ≡ ev.containers
  keep_first-containers ev id r none = refl
  keep_first-containers ev id r (some q) = refl

  removed-containers :
      (ev : Event) (o : Option ContainerInfo) → (removed ev o).containers ≡ ev.containers
  removed-containers ev none = refl
  removed-containers ev (some c) =
      keep_first-containers ev c.id (record { add = false; info = c }) (result_of c.id ev.matched)

  unless_present-containers :
      (ev : Event) (p : Poller) (o : Option DockerContainer)
      → (unless_present ev p o).1.containers ≡ ev.containers
  unless_present-containers ev p none =
      removed-containers ev (lookup p.network_id p.endpoint_id ev.infos)
  unless_present-containers ev p (some c) = refl

  added-containers :
      (ev : Event) (id : String) (o : Result PollResult)
      → (added pools_of belongs ev id o).1.containers ≡ ev.containers
  added-containers ev id (ok r) = refl
  added-containers ev id (err e) = refl

  if_present-containers :
      (ev : Event) (o : Option DockerContainer)
      → (if_present pools_of belongs ev o).1.containers ≡ ev.containers
  if_present-containers ev none = refl
  if_present-containers ev (some c) = of_found (result_of c.id ev.matched)
    where
      of_found :
          (o : Option PollResult) → (found pools_of belongs ev c o).1.containers ≡ ev.containers
      of_found none = added-containers ev c.id (make_add_poll_result pools_of belongs ev.hostname c)
      of_found (some r) = refl

  match_event-containers :
      (ev : Event) (p : Poller) → (match_event pools_of belongs ev p).1.containers ≡ ev.containers
  unfolding match_event match_add_poller match_remove_poller
  match_event-containers ev p = elim (Bool-cases p.add) [
    | inl adds ↦
        rw adds (if_present-containers ev (lookup p.network_id p.endpoint_id ev.containers))
    | inr removes ↦
        rw removes
          (unless_present-containers ev p (lookup p.network_id p.endpoint_id ev.containers))
  ]

  module _ (now : ℕ) (containers : List (Entry DockerContainer)) where
    abbrev Left : List Poller → Type 0
    Left ps = All (Unserved pools_of belongs containers) ps

    kept_or_over :
        (p : Poller) (r : Result Bool) (rest : List Poller)
        → is_timeout p now ≡ true
        → ((e : Error) → r ≡ err e → Unserved pools_of belongs containers p)
        → Left rest
        → Left (if is_over p now r then rest else p ∷ rest)
    kept_or_over p (ok true) rest late u h = h
    kept_or_over p (ok false) rest late u h = rw late h
    kept_or_over p (err e) rest late u h = (u e refl, h)

    match_loop-Left :
        (ev : Event) (ps : List Poller)
        → ev.containers ≡ containers
        → AllLate now ps
        → Left (match_loop (match_event pools_of belongs) now ev ps).0
    unfolding match_loop
    match_loop-Left ev [] same h = tt
    match_loop-Left ev (p ∷ ps) same (late, h) =
        let t = match_event pools_of belongs ev p in
        let rest = match_loop (match_event pools_of belongs) now t.1 ps in
        subst Left (chosen (is_over p now t.0) rest.0 rest.1.0 rest.1.1) (
          kept_or_over p t.0 rest.0 late
            (λ e f.
              subst (λ (c : List (Entry DockerContainer)). Unserved pools_of belongs c p) same
                (match_event-fails ev p e f))
            (match_loop-Left t.1 ps (match_event-containers ev p ∙ same) h))
      where
        chosen :
            (b : Bool) (rest : List Poller) (n : ℕ) (s : Event)
            → (if b then rest else p ∷ rest) ≡ (
                let r : List Poller × (ℕ × Event) =
                  if b then (rest, (suc n, s)) else (p ∷ rest, (n, s)) in
                r.0)
        chosen true rest n s = refl
        chosen false rest n s = refl

module _ {O : Type 0} (peers : Peers O) where
  matched-Left :
      (now : ℕ) (a : Agent) (containers : List DockerContainer) (infos : List ContainerInfo)
      → AllLate now a.pollers.entries
      → Left peers.pools_of peers.belongs now
          (new_match_event a.hostname containers infos).containers
          (matched peers now a containers infos).0.entries
  unfolding match
  matched-Left now a containers infos late =
      match_loop-Left peers.pools_of peers.belongs now _
        (new_match_event a.hostname containers infos) a.pollers.entries refl late

  nothing_left : (ps : Pollers) → IsCounted ps → (ps.size == 0) ≡ true → ps.entries ≡ []
  nothing_left ps h e = by_length ps.entries (sym h.counted ∙ size_zero)
    where
      size_zero : ps.size ≡ 0
      size_zero = ground (arith, beq_iff ps.size 0)

      by_length : (ls : List Poller) → length ls ≡ 0 → ls ≡ []
      by_length [] l = refl
      by_length (p ∷ ls) l = absurd (omega (arith, l))

  -- Where the docker daemon and the list of the records answer, a poll after the timeouts of all
  -- pending updates, whose number is recorded, returns without an error, and of each update that
  -- it leaves pending the endpoint was created, its container is among those that the daemon
  -- listed, and the pools of that container's networks could not be had.
  pub poll-late :
      (now : ℕ) (a : Agent) (o u v : O) (containers : List DockerContainer)
      (infos : List ContainerInfo)
      → peers.container_list o ≡ (ok containers, u)
      → peers.list_containers u ≡ (ok infos, v)
      → IsCounted a.pollers
      → AllLate now a.pollers.entries
      → Ends
          (λ _ (w : Agent × O).
            All
              (Unserved peers.pools_of peers.belongs
                (new_match_event a.hostname containers infos).containers)
              w.0.pollers.entries)
          (λ e w. ⊥)
          (poll peers now (a, o))
  poll-late now a o u v containers infos listed recorded h late =
      Ends-mono (poll-Ends peers now a o) (λ _ w q. settled w.0 w.1 q)
        (λ e w q. impossible e w.1 q.1)
    where
      ok_same : {A : Type 0} {x y : A} → ok x ≡ ok y → x ≡ y
      ok_same p = cc

      Rest : List DockerContainer → List ContainerInfo → List Poller → Type 0
      Rest cs is ps =
          All (Unserved peers.pools_of peers.belongs (new_match_event a.hostname cs is).containers)
            ps

      settled :
          (b : Agent) (o' : O) → Polled peers now a o b o' → Rest containers infos b.pollers.entries
      settled b o' (idle e) = subst (Rest containers infos) (sym (nothing_left a.pollers h e)) tt
      settled b o' (polled (asked cs is x y d r gone c)) =
          let same_x : x ≡ u =
            ap (λ (t : Result (List DockerContainer) × O). t.1) (sym d ∙ listed) in
          let same_c : cs ≡ containers =
            ok_same (ap (λ (t : Result (List DockerContainer) × O). t.0) (sym d ∙ listed)) in
          let r' : peers.list_containers u ≡ (ok is, y) =
            subst (λ t. peers.list_containers t ≡ (ok is, y)) same_x r in
          let same_i : is ≡ infos =
            ok_same (ap (λ (t : Result (List ContainerInfo) × O). t.0) (sym r' ∙ recorded)) in
          subst (λ k. Rest k infos b.pollers.entries) same_c
            (subst (λ k. Rest cs k b.pollers.entries) same_i
              (subst (λ (ps : Pollers). Rest cs is ps.entries) (sym gone)
                (matched-Left now a cs is late)))

      impossible : (e : Error) (o' : O) → NotAsked peers o e o' → ⊥
      impossible e o' (no_daemon d) = cc
      impossible e o' (no_records cs x d r) =
          let same : x ≡ u = ap (λ (t : Result (List DockerContainer) × O). t.1) (sym d ∙ listed) in
          let r' : peers.list_containers u ≡ (err e, o') =
            subst (λ t. peers.list_containers t ≡ (err e, o')) same r in
          cc
