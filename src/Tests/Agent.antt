-- ===== src/Tests/Agent.antt =====
-- The theorems on the network agent at concrete inputs.
use barrel.Prelude.{Bool, true, false, List, [], ◌∷◌, ◌≡◌, refl, map, String}
use barrel.Types.{Result, ok, Pool}
use barrel.Vessel.Agent.Pollers.{Poller, Pollers, match}
use barrel.Vessel.Agent.MatchEvent.{DockerContainer, Event, new_match_event, match_event, results}
use barrel.Vessel.Agent.MatchEvent.Laws.{IsDecided, match-IsDecided}
use barrel.Tests.Memory.{container9}

abbrev created : Poller
created = record { network_id = "net"; endpoint_id = "end"; add = true; timeout = 5 }

abbrev other_end : Poller
other_end = record { network_id = "net"; endpoint_id = "other"; add = false; timeout = 7 }

abbrev pools_of : String → Result (List Pool)
pools_of name = ok (record { cidr = "10.0.0.0/24"; name = "pool"; gateway = "0.0.0.0/0" } ∷ [])

abbrev belongs : String → String → Result Bool
belongs address cidr = ok true

abbrev docker9 : DockerContainer
docker9 = record {
  id = "c9";
  endpoints =
      record {
        network_name = "n";
        network_id = "net";
        endpoint_id = "end";
        ip_address = "10.0.0.9";
      }
      ∷ [];
}

abbrev event9 : Event
unfolding new_match_event
event9 = new_match_event "node" (docker9 ∷ []) (container9 ∷ [])

abbrev both_pending : Pollers
both_pending = record { size = 2; entries = created ∷ other_end ∷ [] }

match-IsDecided_example :
    IsDecided
      (match
        (match_event pools_of belongs)
        6
        both_pending
        (new_match_event "node" (docker9 ∷ []) (container9 ∷ []))).1.matched
match-IsDecided_example =
    match-IsDecided pools_of belongs 6 both_pending "node" (docker9 ∷ []) (container9 ∷ [])

-- The created endpoint is found at the docker daemon, and its container is to be updated.
created_found :
    map
      (λ r. r.add)
      (results (match (match_event pools_of belongs) 6 both_pending event9).1.matched)
    ≡ true ∷ []
unfolding match match_event new_match_event
created_found = refl
