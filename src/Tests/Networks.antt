-- ===== src/Tests/Networks.antt =====
-- The network drivers on a cluster that always answers.
use barrel.Prelude.{
  ℕ, All, String, Bool, true, false, List, [], ◌∷◌, Option, none, some, ◌≡◌, refl, string_eq,
  concat, nat_eq,
}
use barrel.Types.{Result, ok, err, other, IsForeign}
use barrel.Method.{Ends, returns, fails}
use barrel.Driver.Cluster.{
  Cluster, ClusterLaws, WorkloadEndpoint, View, made, put_endpoint, with_endpoint, with_profile,
  with_link, replace_pool,
}
use barrel.Driver.Network.{create_network, create_endpoint, join, populate_pool_label}
use barrel.Driver.Requests.{
  Settings, Readers, CreateNetworkRequest, CreateEndpointRequest, flag, refused_option,
}
use barrel.Driver.Network.Joins.{Joined, NotJoined, join-Ends}
use barrel.Driver.Network.Endpoints.{Created, NotCreated}
use barrel.Driver.FixedNetwork
use barrel.Driver.FixedNetwork.{Node, created, fixed_create_endpoint-Ends}
use barrel.Vessel.Agent.Loop.{Agent, AgentConfig, new_agent, Peers, poll, notify_endpoint_created}
use barrel.Vessel.Agent.Loop.Laws.{begin, created as made_known, Stands, Runs-Stands}
use barrel.Vessel.Agent.Loop.Late.{Unserved, poll-late}
use barrel.Vessel.Agent.MatchEvent.{new_match_event}
use barrel.Vessel.Agent.Pollers.{new_poller}
use barrel.Vessel.Agent.Pollers.Laws.{IsCounted}

abbrev found : Option WorkloadEndpoint → View → Result WorkloadEndpoint × View
found (some e) v = (ok e, v)
found none v = (err (other "no endpoint"), v)

abbrev cluster : Cluster View
cluster = record {
  list_pools = λ v. (ok v.pools, v);
  update_pool = λ p v. (ok tt, record v { pools = replace_pool p v.pools });
  get_profile = λ name v. (err (other "no profile"), v);
  create_profile = λ p v. (made, with_profile p.name v);
  create_endpoint = λ e v. (ok tt, with_endpoint e v);
  get_endpoint = λ space name v. found (v.endpoints space name) v;
  update_endpoint = λ e v. (ok tt, with_endpoint e v);
  delete_endpoint = λ space name v. (ok tt, put_endpoint space name none v);
  create_veth = λ host temp v. (ok tt, with_link host true v);
  remove_veth = λ host v. (ok tt, with_link host false v);
  link_mac = λ name v. (ok "mac", v);
  link_local = λ name v. none;
}

found-Ends :
    (o : Option WorkloadEndpoint) (v : View)
    → Ends (λ e u. (o ≡ some e) × (u ≡ v)) (λ d u. IsForeign d × (u ≡ v)) (found o v)
found-Ends (some e) v = returns (refl, refl)
found-Ends none v = fails (tt, refl)

cluster_laws : ClusterLaws cluster
cluster_laws = record {
  view = λ v. v;
  list_pools_Ends = λ v. returns (refl, refl);
  update_pool_Ends = λ p v. returns refl;
  get_profile_Ends = λ name v. fails (tt, refl);
  create_profile_made = λ p v. refl;
  create_endpoint_Ends = λ e v. returns refl;
  get_endpoint_Ends = λ space name v. found-Ends (v.endpoints space name) v;
  update_endpoint_Ends = λ e v. returns refl;
  delete_endpoint_Ends = λ space name v. returns refl;
  create_veth_Ends = λ host temp v. returns refl;
  remove_veth_Ends = λ host v. returns refl;
  link_mac_Ends = λ name v. returns refl;
}

abbrev driver : Settings
driver = record {
  container_name = "libnetwork";
  orchestrator_id = "libnetwork";
  namespace = "node";
  hostname = "node";
  dummy_ipv4_nexthop = "169.254.1.1";
  create_profiles = true;
  interface_prefix = "cali";
}

abbrev readers : Readers
readers = record {
  parse_cidr = λ c. ok (c, c);
  parse_mac = λ m. ok m;
  endpoint_name = λ node orchestrator id. ok (concat (node ∷ "-" ∷ id ∷ []));
}

abbrev empty : View
empty = record {
  pools = record { name = "pool"; cidr = "10.0.0.0/24"; annotations = [] } ∷ [];
  endpoints = λ space name. none;
  profiles = λ name. false;
  links = λ name. false;
}

abbrev net_request : CreateNetworkRequest
net_request = record {
  network_id = "net";
  options = ("com.docker.network.internal", flag false) ∷ [];
  ipv4_data = record { gateway = "0.0.0.0/0"; pool = "10.0.0.0/24" } ∷ [];
  ipv6_data = [];
}

abbrev end_request : CreateEndpointRequest
end_request = record {
  network_id = "net";
  endpoint_id = "0123456789abcdef";
  address = "10.0.0.9";
  address_ipv6 = "";
  mac_address = "";
}

join-Ends_example :
    Ends
      (Joined driver readers cluster cluster_laws "0123456789abcdef" empty)
      (NotJoined driver readers cluster cluster_laws "0123456789abcdef" empty)
      (join driver readers cluster "0123456789abcdef" empty)
join-Ends_example = join-Ends driver readers cluster cluster_laws "0123456789abcdef" empty

abbrev config : AgentConfig
config = record { host_name = "node"; min_interval = 1; poll_interval = 2; poll_timeout = 3 }

abbrev node : Node View
node = record { host = empty; agent = some (new_agent config) }

fixed_create_endpoint-Ends_example :
    Ends
      (λ _ (u : Node View).
        Created driver readers cluster cluster_laws end_request empty u.host
        × (u.agent ≡ created "net" "0123456789abcdef" 7 node.agent))
      (λ e u.
        NotCreated driver readers cluster cluster_laws end_request empty e u.host
        × (u.agent ≡ node.agent))
      (FixedNetwork.create_endpoint driver readers cluster 7 end_request node)
fixed_create_endpoint-Ends_example =
    fixed_create_endpoint-Ends driver readers cluster 7 cluster_laws node end_request

-- The network is made, an endpoint is put in it, and the container is joined with the other end's MAC.
abbrev run : View
run =
    let v = (create_network driver readers cluster net_request empty).1 in
    let u = (create_endpoint driver readers cluster end_request v).1 in
    (join driver readers cluster "0123456789abcdef" u).1

abbrev seen : List String × Bool
seen = (
  elim (run.endpoints "node" "node-0123456789abcdef") [
    | some e ↦ e.mac ∷ e.interface_name ∷ e.profiles
    | none ↦ []
  ],
  run.links "cali0123456789a",
)

run_seen : seen ≡ ("mac" ∷ "cali0123456789a" ∷ "pool" ∷ [], true)
unfolding create_network create_endpoint join refused_option populate_pool_label
run_seen = refl

-- Of an endpoint that is not there the link stays behind.
left_after_join :
    (join driver readers cluster "0123456789abcdef" empty).1.links "cali0123456789a" ≡ true
unfolding join
left_after_join = refl

abbrev peers : Peers ℕ
peers = record {
  container_list = λ n. (ok [], n);
  list_containers = λ n. (ok [], n);
  update_container = λ i n. (ok tt, n);
  delete_container = λ i n. (ok tt, n);
  pools_of = λ network. ok [];
  belongs = λ address cidr. ok true;
}

abbrev told : Agent
told = (notify_endpoint_created "net" "end" 7 (new_agent config)).0

Runs-Stands_example : Stands peers told
Runs-Stands_example = Runs-Stands peers (made_known "net" "end" 7 (begin config 0))

told-IsCounted : IsCounted told.pollers
told-IsCounted = (Runs-Stands peers {o = 0} (made_known "net" "end" 7 (begin config 0))).counted

poll-late_example :
    Ends
      (λ _ (w : Agent × ℕ).
        All
          (Unserved peers.pools_of peers.belongs (new_match_event told.hostname [] []).containers)
          w.0.pollers.entries)
      (λ e w. ⊥)
      (poll peers 11 (told, 0))
unfolding notify_endpoint_created new_poller
poll-late_example = poll-late peers 11 told 0 0 0 [] [] refl refl told-IsCounted (refl, tt)
