-- ===== src/Vessel/Agent/Loop.antt =====
-- `networkAgent`: what its methods do to the pending updates, and what a poll asks of its peers.
pub mod Laws
pub mod Late
use barrel.Prelude.{ℕ, ◌+◌, Bool, true, false, List, [], ◌∷◌, String, nat_eq, ◌==◌, if◌then◌else◌}
use barrel.Prelude.Int.{pos}
use barrel.Types.{Result, ok, err, Error, Pool, ContainerInfo}
use barrel.Method.{M, pure, log_error, ◌>>=◌, ◌>>◌}
use barrel.Vessel.Agent.Pollers.{Poller, Pollers, new_pollers, new_poller, match}
use barrel.Vessel.Agent.MatchEvent.{
  DockerContainer, Event, PollResult, new_match_event, match_event, results,
}
use barrel.Vessel.Agent.Notifier.{Notifier, new_notifier, Sent, send}

-- `AgentConfig`
pub record AgentConfig : Type 0 where
  pub host_name : String
  pub min_interval : ℕ
  pub poll_interval : ℕ
  pub poll_timeout : ℕ

pub record Agent : Type 0 where
  pub hostname : String
  pub pollers : Pollers
  pub notifier : Notifier
  pub poll_timeout : ℕ
  pub closed : Bool

-- `NewAgent`, which leaves the host's name blank.
abbrev pub new_agent : AgentConfig → Agent
new_agent config = record {
  hostname = "";
  pollers = new_pollers;
  notifier = new_notifier;
  poll_timeout = config.poll_timeout;
  closed = false;
}

abbrev update_at : String → String → Bool → ℕ → Agent → Poller
update_at network endpoint add now a = record {
  network_id = network;
  endpoint_id = endpoint;
  add = add;
  timeout = now + a.poll_timeout;
}

abbrev pub notify : String → String → Bool → ℕ → Agent → Agent × Sent
notify network endpoint add now a =
    let (n, sent) = send a.notifier (pos 0) in
    (
      record a {
        pollers = new_poller a.pollers (update_at network endpoint add now a);
        notifier = n;
      },
      sent,
    )

-- `NotifyEndpointCreated`
unfoldable pub notify_endpoint_created : String → String → ℕ → Agent → Agent × Sent
notify_endpoint_created network endpoint now = notify network endpoint true now

-- `NotifyEndpointRemoved`
unfoldable pub notify_endpoint_removed : String → String → ℕ → Agent → Agent × Sent
notify_endpoint_removed network endpoint now = notify network endpoint false now

-- `Dispose`
abbrev pub dispose : Agent → Agent
dispose a = record a { closed = true }

-- The docker client, which a poll with something pending needs and `NewAgent` leaves nil, and the
-- interface `ContainerVessel`, which has no implementation here.
pub record Peers (O : Type 0) : Type 0 where
  pub container_list : M O (List DockerContainer)
  pub list_containers : M O (List ContainerInfo)
  pub update_container : ContainerInfo → M O (Unit {0})
  pub delete_container : ContainerInfo → M O (Unit {0})
  pub pools_of : String → Result (List Pool)
  pub belongs : String → String → Result Bool

module _ {O : Type 0} (peers : Peers O) where
  open peers use {pools_of, belongs}

  -- `commit`; errors are logged.
  unfoldable pub commit : List PollResult → M O (Unit {0})
  commit [] = pure tt
  commit (r ∷ rs) =
      log_error (if r.add then peers.update_container r.info else peers.delete_container r.info)
      >> commit rs

  abbrev pub matched : ℕ → Agent → List DockerContainer → List ContainerInfo → Pollers × Event
  matched now a containers infos =
      match (match_event pools_of belongs) now a.pollers
        (new_match_event a.hostname containers infos)

  abbrev pub poll_listed : ℕ → Agent → List DockerContainer → List ContainerInfo → M O Pollers
  poll_listed now a containers infos =
      let (ps, ev) = matched now a containers infos in commit (results ev.matched) >> pure ps

  abbrev pub ask : ℕ → Agent → M O Pollers
  ask now a = peers.container_list >>= λ containers.
      peers.list_containers >>= λ infos. poll_listed now a containers infos

  abbrev pub settle : Agent → Result Pollers × O → Result (Unit {0}) × (Agent × O)
  settle a (ok ps, o) = (ok tt, (record a { pollers = ps }, o))
  settle a (err e, o) = (err e, (a, o))

  -- `poll`; an error ends the loop of `serve`.
  unfoldable pub poll : ℕ → M (Agent × O) (Unit {0})
  poll now (a, o) = if a.pollers.size == 0 then (ok tt, (a, o)) else settle a (ask now a o)
