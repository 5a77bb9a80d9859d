-- ===== src/Tests/Connections.antt =====
-- The creation of a labelled container and its connection to a network, with a daemon that knows one
-- container.
use barrel.Prelude.{
  ℕ, String, Bool, true, false, List, [], ◌∷◌, Option, some, ◌≡◌, refl, string_eq, ◌==◌,
  if◌then◌else◌,
}
use barrel.Types.{Result, ok, err, other}
use barrel.Json.{string, object, Fields, end, field}
use barrel.Method.{Ends}
use barrel.Codecs.{ip_info_key, encode_ip_info, decode_ip_info}
use barrel.Store.Etcd.{put, update_else_get}
use barrel.Store.Etcd
use barrel.Types.Status.{matches, mark}
use barrel.Vessel.CalicoPool.{
  get_pools_by_cidrs, alloc_ip_from_pools, alloc_ip_from_pool, unalloc_ip,
}
use barrel.Vessel.FixedPool.{alloc_fixed_ip_from_pools, unalloc_fixed_ip}
use barrel.Json.Object.{get, set, keys}
use barrel.Proxy.Members.{ensure_object_member, get_string_member}
use barrel.Proxy.Daemon.{Daemon, Site, Request, Response, get_pools_by_network_name, inspect}
use barrel.Proxy.Connect.{
  handle_connect, match_connect, get_container_info, is_fixed_ip_label_enabled, get_ipam_config,
  check_or_request_fixed_ip, write_server_response,
}
use barrel.Proxy.Connect.Pending.{Connected, NotConnected}
use barrel.Proxy.Connect.Laws.{handle_connect-Ends}
use barrel.Proxy.Connect.Check.{Requested, NotRequested, check_or_request_fixed_ip-Ends}
use barrel.Proxy.Create.{plan, adapt_request_for_cni, check_fixed_ip_label_and_network_mode}
use barrel.Proxy.Create.Handle.{
  handle_create_container, check_and_request_fixed_ip, request_fixed_ip,
  visit_network_config_and_allocate_address, write_create_response,
}
use barrel.Proxy.Removal.{handle_delete_container, handle_disconnect}
use barrel.Proxy.Removal.Laws.{Deletes}
use barrel.Proxy.Removal.Disconnect.{Disconnects, handlers_release}
use barrel.Tests.Memory.{clients, client_laws, empty, nothing_assigned}

abbrev calls : Fields
calls = field "Container" (string "c9") end

-- The daemon connects, with an answer that its state says, and lists the requests.
record Dockerd : Type 0 where
  pub status : ℕ
  pub bodies : List (Result String)

abbrev answered : Dockerd → Request → Result Response × Dockerd
answered d req =
    if req.method == "GET" then (ok (record { status = 200; body = ok "inspected" }), d) else (
      ok (record { status = d.status; body = ok "" }),
      record d { bodies = req.body ∷ d.bodies },
    )

abbrev written_as : Fields → String
written_as body = elim (get_ipam_config body) [
  | ok n ↦ elim (get_string_member n.ipam "IPv4Address") [ ok s ↦ s | err e ↦ "" ]
  | err e ↦ ""
]

abbrev docker : Daemon Dockerd
docker = record {
  inspect_network = λ name d. (ok (record { driver = "calico"; subnets = "10.0.0.0/24" ∷ [] }), d);
  request = λ req d. answered d req;
  read_container = λ text.
      ok (record {
        id = "c9";
        runtime = "";
        labels = ("fixed-ip", "1") ∷ [];
        env = [];
        sources = [];
      });
  unmarshal_object = λ text. ok calls;
  marshal = λ body. ok (written_as body);
}

abbrev found : String → Option (String × String)
found path = some ("v1.32", "net")

abbrev req : Request
req = record { method = "POST"; path = "/v1.32/networks/net/connect"; body = ok "{}" }

abbrev site : ℕ → Site clients Dockerd
site status = record {
  vessel = record { shared = record { store = empty; others = [] }; ipam = nothing_assigned };
  daemon = record { status = status; bodies = [] };
}

handle_connect-Ends_example :
    Ends
      (Connected clients client_laws docker (site 500))
      (NotConnected clients client_laws docker (site 500))
      (handle_connect clients docker "calico" "node" found req (site 500))
handle_connect-Ends_example =
    handle_connect-Ends clients client_laws docker "calico" "node" found req (site 500)

check_or_request_fixed_ip-Ends_example :
    Ends
      (Requested clients client_laws docker calls (site 200))
      (NotRequested clients client_laws docker calls (site 200))
      (check_or_request_fixed_ip clients docker "node"
        (record { name = "pool"; cidr = "10.0.0.0/24"; gateway = "" } ∷ [])
        calls
        (site 200))
check_or_request_fixed_ip-Ends_example =
    check_or_request_fixed_ip-Ends clients client_laws docker "node"
      (record { name = "pool"; cidr = "10.0.0.0/24"; gateway = "" } ∷ []) calls (site 200)

abbrev seen_after : ℕ → List (Result String) × Bool
seen_after status =
    let (r, w) = handle_connect clients docker "calico" "node" found req (site status) in
    (w.daemon.bodies, w.vessel.ipam "10.0.0.9")

-- The daemon gets a request with the address, which stays taken after an answer of 200.
kept_after_200 : seen_after 200 ≡ (ok "10.0.0.9" ∷ [], true)
unfolding handle_connect match_connect get_pools_by_network_name get_pools_by_cidrs
    get_container_info inspect get set is_fixed_ip_label_enabled check_or_request_fixed_ip
    get_ipam_config ensure_object_member get_string_member alloc_fixed_ip_from_pools
    alloc_ip_from_pools alloc_ip_from_pool put ip_info_key write_server_response
kept_after_200 = refl

given_back_after_500 : seen_after 500 ≡ (ok "10.0.0.9" ∷ [], false)
unfolding handle_connect match_connect get_pools_by_network_name get_pools_by_cidrs
    get_container_info inspect get set is_fixed_ip_label_enabled check_or_request_fixed_ip
    get_ipam_config ensure_object_member get_string_member alloc_fixed_ip_from_pools
    alloc_ip_from_pools alloc_ip_from_pool put ip_info_key write_server_response unalloc_fixed_ip
    Etcd.get Etcd.delete update_else_get decode_ip_info encode_ip_info matches mark unalloc_ip
given_back_after_500 = refl

-- A container with the label, on a network of the driver.
abbrev wanted : Fields
wanted =
    field "Labels" (object (field "fixed-ip" (string "1") end))
      (field "HostConfig" (object (field "NetworkMode" (string "net") end)) end)

abbrev creator : Daemon Dockerd
creator = record docker { unmarshal_object = λ text. ok wanted }

-- A daemon that cannot be reached when the container is to be created.
abbrev unreachable : Daemon Dockerd
unreachable = record creator { request = λ req d. (err (other "no daemon"), d) }

abbrev create_req : Request
create_req = record { method = "POST"; path = "/v1.32/containers/create"; body = ok "{}" }

abbrev no_id : String → Result String
no_id text = ok ""

abbrev any_path : String → Bool
any_path path = true

abbrev taken_after : Daemon Dockerd → ℕ → Bool
taken_after d status =
    (handle_create_container clients d "calico" "node" no_id any_path false create_req
        (site status)).1.vessel.ipam
      "10.0.0.9"

abbrev taken : Bool × Bool
taken = (taken_after creator 500, taken_after unreachable 500)

-- The address is given back when the daemon refuses, and stays taken when it is not reached.
taken_after_refusal : taken ≡ (false, true)
unfolding handle_create_container adapt_request_for_cni plan check_and_request_fixed_ip
    request_fixed_ip check_fixed_ip_label_and_network_mode visit_network_config_and_allocate_address
    write_create_response get_pools_by_network_name get_pools_by_cidrs get set keys
    ensure_object_member get_string_member alloc_fixed_ip_from_pools alloc_ip_from_pools
    alloc_ip_from_pool put ip_info_key unalloc_fixed_ip Etcd.get Etcd.delete update_else_get
    decode_ip_info encode_ip_info matches mark unalloc_ip
taken_after_refusal = refl

abbrev delete_req : Request
delete_req = record { method = "DELETE"; path = "/v1.32/containers/c9"; body = ok "{}" }

abbrev disconnect_req : Request
disconnect_req = record { method = "POST"; path = "/v1.32/networks/net/disconnect"; body = ok "{}" }

handlers_release_example :
    Deletes clients client_laws docker found true delete_req
      (site 204)
      (handle_delete_container clients docker found true delete_req)
      (site 204)
    × Disconnects clients client_laws docker "calico" found disconnect_req
        (site 204)
        (handle_disconnect clients docker "calico" found disconnect_req)
        (site 204)
handlers_release_example =
    handlers_release clients client_laws docker "calico" found true delete_req disconnect_req
      (site 204)
