-- ===== src/Vessel/Agent/MatchEvent.antt =====
-- `matchEvent`: pending updates against the containers of the docker daemon and the records of the
-- vessel. The pools of a network and the test of a subnet are answers of other components.
pub mod Laws
use barrel.Prelude.{
  ℕ, Bool, true, false, ◌&&◌, List, [], ◌∷◌, Option, none, some, String, string_eq, ◌==◌,
  if◌then◌else◌,
}
use barrel.Types.{Result, ok, err, ◌>>=◌, Pool, Ip, Container, ContainerInfo, Network}
use barrel.Vessel.Agent.Pollers.{Poller}

-- `dockerTypes.Container`, as far as it is read, and the entries of its network settings.
pub record Endpoint : Type 0 where
  pub network_name : String
  pub network_id : String
  pub endpoint_id : String
  pub ip_address : String

pub record DockerContainer : Type 0 where
  pub id : String
  pub endpoints : List Endpoint

pub record PollResult : Type 0 where
  pub add : Bool
  pub info : ContainerInfo

-- A map from networks to maps from endpoints, the latest entry first.
pub record Entry (A : Type 0) : Type 0 where
  pub network_id : String
  pub endpoint_id : String
  pub value : A

module _ {A : Type 0} where
  abbrev pub lookup : String → String → List (Entry A) → Option A
  lookup n e [] = none
  lookup n e (x ∷ xs) =
      if (x.network_id == n) && (x.endpoint_id == e) then some x.value else lookup n e xs

  abbrev insert_all : List (String × String) → A → List (Entry A) → List (Entry A)
  insert_all [] a m = m
  insert_all ((n, e) ∷ places) a m =
      insert_all places a (record { network_id = n; endpoint_id = e; value = a } ∷ m)

  abbrev index : (A → List (String × String)) → List A → List (Entry A) → List (Entry A)
  index places [] m = m
  index places (a ∷ rest) m = index places rest (insert_all (places a) a m)

pub record Event : Type 0 where
  pub hostname : String
  pub matched : List (String × PollResult)
  pub containers : List (Entry DockerContainer)
  pub infos : List (Entry ContainerInfo)

abbrev docker_places : List Endpoint → List (String × String)
docker_places [] = []
docker_places (e ∷ es) = (e.network_id, e.endpoint_id) ∷ docker_places es

abbrev vessel_places : List Network → List (String × String)
vessel_places [] = []
vessel_places (n ∷ ns) = (n.network_id, n.endpoint_id) ∷ vessel_places ns

-- `newMatchEvent`
unfoldable pub new_match_event : String → List DockerContainer → List ContainerInfo → Event
new_match_event hostname containers infos = record {
  hostname = hostname;
  matched = [];
  containers = index (λ (c : DockerContainer). docker_places c.endpoints) containers [];
  infos = index (λ (i : ContainerInfo). vessel_places i.networks) infos [];
}

abbrev pub result_of : String → List (String × PollResult) → Option PollResult
result_of id [] = none
result_of id ((j, r) ∷ rs) = if j == id then some r else result_of id rs

-- `result`
abbrev pub results : List (String × PollResult) → List PollResult
results [] = []
results ((j, r) ∷ rs) = r ∷ results rs

-- Keep a result, unless the container has one.
abbrev pub keep_first : Event → String → PollResult → Option PollResult → Event
keep_first ev id r (some _) = ev
keep_first ev id r none = record ev { matched = (id, r) ∷ ev.matched }

abbrev pub removed : Event → Option ContainerInfo → Event
removed ev none = ev
removed ev (some c) =
    keep_first ev c.id (record { add = false; info = c }) (result_of c.id ev.matched)

-- `makeRemovePollResult`
abbrev pub make_remove_poll_result : Event → Poller → Event
make_remove_poll_result ev p = removed ev (lookup p.network_id p.endpoint_id ev.infos)

abbrev pub unless_present : Event → Poller → Option DockerContainer → Result Bool × Event
unless_present ev p none = (ok true, make_remove_poll_result ev p)
unless_present ev p (some _) = (ok false, ev)

-- `matchRemovePoller`
unfoldable pub match_remove_poller : Event → Poller → Result Bool × Event
match_remove_poller ev p = unless_present ev p (lookup p.network_id p.endpoint_id ev.containers)

module _ (pools_of : String → Result (List Pool)) (belongs : String → String → Result Bool) where
  abbrev holds : String → Pool → Bool
  holds address p = elim (belongs address p.cidr) [ ok b ↦ b | err _ ↦ false ]

  -- Of several pools the last that holds the address.
  abbrev pick : String → Pool → List Pool → Pool
  pick address chosen [] = chosen
  pick address chosen (p ∷ ps) = pick address (if holds address p then p else chosen) ps

  abbrev no_pool : Pool
  no_pool = record { cidr = ""; name = ""; gateway = "" }

  abbrev pub pool_for : String → List Pool → Pool
  pool_for address (p ∷ []) = p
  pool_for address ps = pick address no_pool ps

  abbrev pub network_of : Endpoint → Pool → Network
  network_of e p = record {
    network_id = e.network_id;
    endpoint_id = e.endpoint_id;
    address = record { pool_id = p.name; address = e.ip_address };
  }

  abbrev pub with_pools : Endpoint → List Pool → List Network → List Network
  with_pools e [] later = later
  with_pools e (p ∷ ps) later = network_of e (pool_for e.ip_address (p ∷ ps)) ∷ later

  abbrev pub networks_of : List Endpoint → Result (List Network)
  networks_of [] = ok []
  networks_of (e ∷ es) =
      pools_of e.network_name >>= λ ps. networks_of es >>= λ later. ok (with_pools e ps later)

  abbrev pub add_result : String → DockerContainer → Result (List Network) → Result PollResult
  add_result hostname c (err e) = err e
  add_result hostname c (ok networks) = ok (record {
    add = true;
    info = record {
      container = record { id = c.id; host_name = hostname };
      networks = networks;
      addresses = [];
    };
  })

  -- `makeAddPollResult`
  abbrev pub make_add_poll_result : String → DockerContainer → Result PollResult
  make_add_poll_result hostname c = add_result hostname c (networks_of c.endpoints)

  abbrev pub added : Event → String → Result PollResult → Result Bool × Event
  added ev id (err e) = (err e, ev)
  added ev id (ok r) = (ok true, record ev { matched = (id, r) ∷ ev.matched })

  abbrev pub found : Event → DockerContainer → Option PollResult → Result Bool × Event
  found ev c (some _) = (ok true, ev)
  found ev c none = added ev c.id (make_add_poll_result ev.hostname c)

  abbrev pub if_present : Event → Option DockerContainer → Result Bool × Event
  if_present ev none = (ok false, ev)
  if_present ev (some c) = found ev c (result_of c.id ev.matched)

  -- `matchAddPoller`
  unfoldable pub match_add_poller : Event → Poller → Result Bool × Event
  match_add_poller ev p = if_present ev (lookup p.network_id p.endpoint_id ev.containers)

  -- `match` of an event.
  unfoldable pub match_event : Event → Poller → Result Bool × Event
  unfolding match_add_poller match_remove_poller
  match_event ev p = if p.add then match_add_poller ev p else match_remove_poller ev p
