-- ===== src/Vessel/Agent/MatchEvent/Laws.antt =====
-- The results that a poll files for the containers.
use barrel.Prelude.{
  ℕ, Bool, List, [], ◌∷◌, Option, none, some, String, ◌≡◌, refl, Bool-cases, inl, inr,
}
use barrel.Types.{Result, ok, err, Pool, ContainerInfo, Network}
use barrel.Vessel.Agent.Pollers.{Poller, Pollers, match}
use barrel.Vessel.Agent.Pollers.Laws.{match_loop-keeps}
use barrel.Vessel.Agent.MatchEvent.{
  Event, PollResult, DockerContainer, result_of, keep_first, removed, match_remove_poller, added,
  found, unless_present, if_present, match_add_poller, match_event, add_result, new_match_event,
}

-- No container has two results, and each result is about the container that it is filed under.
abbrev pub IsDecided : List (String × PollResult) → Type 0
IsDecided [] = Unit
IsDecided ((id, r) ∷ rs) = (result_of id rs ≡ none) × ((r.info.id ≡ id) × IsDecided rs)

keep_first-IsDecided :
    (ev : Event) (id : String) (r : PollResult) (o : Option PollResult)
    → result_of id ev.matched ≡ o
    → r.info.id ≡ id
    → IsDecided ev.matched
    → IsDecided (keep_first ev id r o).matched
keep_first-IsDecided ev id r none e same h = (e, (same, h))
keep_first-IsDecided ev id r (some _) e same h = h

removed-IsDecided :
    (ev : Event) (o : Option ContainerInfo)
    → IsDecided ev.matched
    → IsDecided (removed ev o).matched
removed-IsDecided ev none h = h
removed-IsDecided ev (some c) h = keep_first-IsDecided ev c.id _ _ refl refl h

unless_present-IsDecided :
    (ev : Event) (p : Poller) (o : Option DockerContainer)
    → IsDecided ev.matched
    → IsDecided (unless_present ev p o).1.matched
unless_present-IsDecided ev p none h = removed-IsDecided ev _ h
unless_present-IsDecided ev p (some c) h = h

module _ (pools_of : String → Result (List Pool)) (belongs : String → String → Result Bool) where
  added-IsDecided :
      (ev : Event) (c : DockerContainer) (networks : Result (List Network))
      → result_of c.id ev.matched ≡ none
      → IsDecided ev.matched
      → IsDecided
          (added pools_of belongs ev c.id
            (add_result pools_of belongs ev.hostname c networks)).1.matched
  added-IsDecided ev c (err e) new h = h
  added-IsDecided ev c (ok networks) new h = (new, (refl, h))

  found-IsDecided :
      (ev : Event) (c : DockerContainer) (o : Option PollResult)
      → result_of c.id ev.matched ≡ o
      → IsDecided ev.matched
      → IsDecided (found pools_of belongs ev c o).1.matched
  found-IsDecided ev c none new h = added-IsDecided ev c _ new h
  found-IsDecided ev c (some r) old h = h

  if_present-IsDecided :
      (ev : Event) (o : Option DockerContainer)
      → IsDecided ev.matched
      → IsDecided (if_present pools_of belongs ev o).1.matched
  if_present-IsDecided ev none h = h
  if_present-IsDecided ev (some c) h = found-IsDecided ev c _ refl h

  match_event-IsDecided :
      (ev : Event) (p : Poller)
      → IsDecided ev.matched
      → IsDecided (match_event pools_of belongs ev p).1.matched
  unfolding match_event match_add_poller match_remove_poller
  match_event-IsDecided ev p h = elim (Bool-cases p.add) [
    | inl adds ↦ rw adds (if_present-IsDecided ev _ h)
    | inr removes ↦ simp removes (unless_present-IsDecided ev p _ h)
  ]

  -- A poll decides at most once about a container, whatever updates are pending for it, and a
  -- result is about the container under whose identifier it is kept.
  pub match-IsDecided :
      (now : ℕ) (ps : Pollers) (hostname : String) (containers : List DockerContainer)
      (infos : List ContainerInfo)
      → IsDecided
          (match
            (match_event pools_of belongs)
            now
            ps
            (new_match_event hostname containers infos)).1.matched
  unfolding match new_match_event
  match-IsDecided now ps hostname containers infos =
      match_loop-keeps (match_event pools_of belongs) now (λ ev. IsDecided ev.matched)
        match_event-IsDecided _ ps.entries tt
