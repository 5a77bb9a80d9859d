-- ===== src/Driver/Network.antt =====
-- driver/calico/network.go: the networks and endpoints of docker as Calico's pools and workload
-- endpoints.
pub mod Described
pub mod Endpoints
pub mod Labels
pub mod Networks
pub mod Joins
use barrel.Prelude.{
  String, Bool, true, false, not, ◌&&◌, ◌||◌, List, [], ◌∷◌, ◌++◌, map, any, Option, none, some,
  string_eq, ◌==◌, if◌then◌else◌, concat,
}
use barrel.Prelude.Texts.{after_prefix, or_later, first_chars}
use barrel.Resources.{sort_strings}
use barrel.Types.{Result, ok, err, Error, other, cidr_not_in_pool}
use barrel.Types.{◌>>=◌ as ◌|>◌}
use barrel.Method.{M, pure, fail, fail_if, catch, ◌>>=◌, ◌>>◌}
use barrel.Driver.Cluster.{
  Cluster, PoolObject, WorkloadEndpoint, Profile, Creation, made, already_exists, refused,
}
use barrel.Driver.Requests.{
  Settings, Readers, CreateNetworkRequest, CreateEndpointRequest, JoinResponse, refused_option,
  ipv4_pools, ipv6_pools, annotated, find_pool, veth_name, temp_name, of_option, result, in_profile,
  host_network, own_network,
}

module _ (driver : Settings) (readers : Readers) {H : Type 0} (cluster : Cluster H) where
  -- `generateEndpointName`
  abbrev pub generate_endpoint_name : String → Result String
  generate_endpoint_name id = readers.endpoint_name driver.hostname driver.orchestrator_id id

  -- The inner loop: the pool is updated once for each text that is its CIDR.
  abbrev pub label_pool : String → PoolObject → List String → M H (Unit {0})
  label_pool network p [] = pure tt
  label_pool network p (c ∷ cs) =
      let later = label_pool network p cs in
      let labelled = label_pool network (annotated network p) cs in
      if p.cidr == c then (cluster.update_pool (annotated network p) >> labelled) else later

  abbrev pub label_pools : String → List String → List PoolObject → M H (Unit {0})
  label_pools network cidrs [] = pure tt
  label_pools network cidrs (p ∷ ps) = label_pool network p cidrs >> label_pools network cidrs ps

  -- `populatePoolLabel`
  unfoldable pub populate_pool_label : List String → String → M H (Unit {0})
  populate_pool_label cidrs network = cluster.list_pools >>= label_pools network cidrs

  -- `CreateNetwork`
  unfoldable pub create_network : CreateNetworkRequest → M H (Unit {0})
  unfolding refused_option
  create_network r =
      result (of_option (refused_option r.options) tt)
      >> (result (ipv4_pools r.ipv4_data) >>= λ v4.
          result (ipv6_pools r.ipv6_data) >>= λ v6. populate_pool_label (v4 ++ v6) r.network_id)

  abbrev pub found_pool : Option PoolObject → M H PoolObject
  found_pool (some p) = pure p
  found_pool none = fail (other "Not find pool by networkID")

  -- `FindPoolByNetworkID`
  unfoldable pub find_pool_by_network_id : String → M H PoolObject
  find_pool_by_network_id network = cluster.list_pools >>= λ ps. found_pool (find_pool network ps)

  -- An IPv4 address stands alone in its network, and of an IPv6 address the network counts.
  abbrev pub ipv4_network : String → Result (List String)
  ipv4_network address = if address == "" then ok [] else host_network (readers.parse_cidr address)

  abbrev pub ipv6_network : String → Result (List String)
  ipv6_network address = if address == "" then ok [] else own_network (readers.parse_cidr address)

  abbrev pub mac_text : String → Result String
  mac_text address = if address == "" then ok "" else readers.parse_mac address

  abbrev pub new_endpoint : CreateEndpointRequest → List String → String → String → WorkloadEndpoint
  new_endpoint r networks name mac = record {
    name = name;
    namespace = driver.namespace;
    endpoint = r.endpoint_id;
    node = driver.hostname;
    orchestrator = driver.orchestrator_id;
    workload = driver.container_name;
    interface_name = veth_name r.endpoint_id;
    mac = mac;
    ip_networks = networks;
    profiles = [];
    labels = [];
  }

  abbrev pub read_endpoint : CreateEndpointRequest → Result WorkloadEndpoint
  read_endpoint r = ipv4_network r.address |> λ v4. ipv6_network r.address_ipv6 |> λ v6.
      generate_endpoint_name r.endpoint_id |> λ name.
      mac_text r.mac_address |> λ mac. ok (new_endpoint r (v4 ++ v6) name mac)

  abbrev pub after_creation : Creation × H → Result (Unit {0}) × H
  after_creation (made, h) = (ok tt, h)
  after_creation (already_exists, h) = (ok tt, h)
  after_creation (refused e, h) = (err e, h)

  -- A profile is made unless there is one.
  abbrev pub ensure_profile : String → M H (Unit {0})
  ensure_profile network_name = catch (cluster.get_profile network_name) pure (λ _ h.
      after_creation (
        cluster.create_profile
          (record { name = network_name; selector = concat ("has(" ∷ network_name ∷ ")" ∷ []) }) h))

  abbrev pub create_with : Bool → WorkloadEndpoint → PoolObject → M H (Unit {0})
  create_with profiles e p =
      if profiles
      then (ensure_profile p.name >> cluster.create_endpoint (in_profile profiles e p))
      else cluster.create_endpoint (in_profile profiles e p)

  abbrev pub create_in : WorkloadEndpoint → Option PoolObject → M H (Unit {0})
  create_in e none = fail cidr_not_in_pool
  create_in e (some p) = create_with driver.create_profiles e p

  -- `CreateEndpoint`, up to the goroutine that adds labels; the answer is empty.
  unfoldable pub create_endpoint : CreateEndpointRequest → M H (Unit {0})
  create_endpoint r =
      fail_if ((r.address == "") && (r.address_ipv6 == ""))
        (other "No address assigned for endpoint")
      >> (result (read_endpoint r) >>= λ e.
          cluster.list_pools >>= λ ps. create_in e (find_pool r.network_id ps))

  -- `DeleteEndpoint`
  unfoldable pub delete_endpoint : String → M H (Unit {0})
  delete_endpoint id =
      result (generate_endpoint_name id) >>= λ name. cluster.delete_endpoint driver.namespace name

  abbrev pub link_routes : Option String → JoinResponse → JoinResponse
  link_routes none resp = resp
  link_routes (some link) resp = record resp {
    gateway_ipv6 = link;
    static_routes = resp.static_routes ++ concat (link ∷ "/128" ∷ []) ∷ [];
  }

  abbrev pub joined : String → M H JoinResponse
  joined id h = (
    ok (
        link_routes (cluster.link_local (veth_name id) h) (record {
          src_name = temp_name id;
          dst_prefix = driver.interface_prefix;
          gateway = driver.dummy_ipv4_nexthop;
          gateway_ipv6 = "";
          static_routes = concat (driver.dummy_ipv4_nexthop ∷ "/32" ∷ []) ∷ [];
        })),
    h,
  )

  -- `Join`
  unfoldable pub join : String → M H JoinResponse
  join id =
      cluster.create_veth (veth_name id) (temp_name id)
      >> (result (generate_endpoint_name id) >>= λ name.
          cluster.get_endpoint driver.namespace name >>= λ wep.
          cluster.link_mac (temp_name id) >>= λ mac.
          cluster.update_endpoint (record wep { mac = mac }) >> joined id)

  -- `Leave`
  unfoldable pub leave : String → M H (Unit {0})
  leave id = cluster.remove_veth (veth_name id)
