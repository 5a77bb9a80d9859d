-- ===== src/Proxy/Connect.antt =====
-- proxy/docker/netconn.go: a container with a fixed-ip label is connected to a network, with an
-- address of the network's pools where the request names none.
pub mod Pending
pub mod Laws
pub mod Check
use barrel.Prelude.{
  ℕ, String, Bool, true, false, not, ◌&&◌, List, [], ◌∷◌, Option, none, some, nat_eq, string_eq,
  ◌==◌, if◌then◌else◌,
}
use barrel.Types.{Result, ok, err, Error, other, Pool, Ip, IpAddress, unsupervised_network}
use barrel.Json.{Any, string, object, Fields}
use barrel.Json.Object.{get, set}
use barrel.Vessel.World.{Clients, M, pure, fail, catch, log_error, ◌>>=◌, ◌>>◌}
use barrel.Vessel.FixedPool.{alloc_fixed_ip_from_pools, unalloc_fixed_ip}
use barrel.Proxy.Members.{
  fixed_ip_label, is_fixed_ip_enable_by_string_value, member, ensure_object_member,
  get_string_member,
}
use barrel.Proxy.Daemon.{
  Daemon, Site, Request, Response, ContainerInspect, on_vessel, on_daemon, given, inspect,
  get_pools_by_network_name,
}

-- What a handler makes of a request; its error is a response too.
pub data Answer : Type 0 where
  passed_on : Answer
  forwarded : Response → Answer

-- `match`; `find` is the regular expression, with the version and the network of a path.
unfoldable pub match_connect :
    (String → Option (String × String)) → Request → Option (String × String)
match_connect find req = if req.method == "POST" then find req.path else none

abbrev pub label_at : List (String × String) → String → Option String
label_at [] k = none
label_at ((j, v) ∷ ls) k = if j == k then some v else label_at ls k

abbrev pub label_enabled : Option String → Bool
label_enabled none = false
label_enabled (some value) = is_fixed_ip_enable_by_string_value value

-- `isFixedIPLabelEnabled`
unfoldable pub is_fixed_ip_label_enabled : ContainerInspect → Bool
is_fixed_ip_label_enabled info = label_enabled (label_at info.labels fixed_ip_label)

-- The configuration in the body, with the objects that it stands in.
pub record Nested : Type 0 where
  pub ipam : Fields
  pub endpoint : Fields
  pub body : Fields

abbrev pub ipam_in : Fields → Result (Fields × Fields) → Result Nested
ipam_in body (ok (ipam, endpoint)) = ok (record { ipam = ipam; endpoint = endpoint; body = body })
ipam_in body (err e) = err e

abbrev pub endpoint_in : Result (Fields × Fields) → Result Nested
endpoint_in (ok (endpoint, body)) = ipam_in body (ensure_object_member endpoint "IPAMConfig")
endpoint_in (err e) = err e

-- `getIPAMConfig`
unfoldable pub get_ipam_config : Fields → Result Nested
get_ipam_config body = endpoint_in (ensure_object_member body "EndpointConfig")

-- The body after the configuration has changed.
abbrev pub body_with : Nested → Fields → Fields
body_with n ipam = set n.body "EndpointConfig" (object (set n.endpoint "IPAMConfig" (object ipam)))

abbrev pub address_key : IpAddress → String
address_key a = if a.version == 4 then "IPv4Address" else "IPv6Address"

abbrev pub with_address : Fields → IpAddress → Fields
with_address ipam a = set ipam (address_key a) (string a.address)

abbrev pub identifier_in : Option Any → Result String
identifier_in none = err (other "Container identifier isn't provided")
identifier_in (some (string s)) = ok s
identifier_in (some _) = err (other "Parse container identifier error")

abbrev pub is_unsupervised : Error → Bool
is_unsupervised unsupervised_network = true
is_unsupervised _ = false

module _ (net : Clients) {D : Type 0} (docker : Daemon D) where
  abbrev S : Type 0
  S = Site net D

  -- `getContainerInfo`
  unfoldable pub get_container_info : String → Fields → M S ContainerInspect
  get_container_info version body =
      given (identifier_in (member (get body "Container"))) >>= λ identifier.
      inspect net docker identifier version

  -- `releaseReservedAddress`, where an address was allocated.
  abbrev pub release_reserved : Option Ip → M S (Unit {0})
  release_reserved none = pure tt
  release_reserved (some ip) = log_error (on_vessel (unalloc_fixed_ip net ip false))

  -- `writeServerResponse`
  unfoldable pub write_server_response : Option Ip → Response → M S Answer
  write_server_response reserved resp =
      if resp.status == 200
      then pure (forwarded resp)
      else (release_reserved reserved >> pure (forwarded resp))

  abbrev pub release_and_fail : {A : Type 0} → Option Ip → Error → M S A
  release_and_fail reserved e = release_reserved reserved >> fail e

  abbrev pub send : Request → Option Ip × String → M S Answer
  send req (reserved, text) =
      catch (on_daemon (docker.request (record req { body = ok text })))
        (write_server_response reserved) (release_and_fail reserved)

  module _ (hostname : String) (pools : List Pool) where
    abbrev pub request_address : Nested → M S (Option Ip × Fields)
    request_address n = on_vessel (alloc_fixed_ip_from_pools net hostname pools) >>= λ a.
        pure (some a.ip, body_with n (with_address n.ipam a))

    abbrev pub request_unless : Nested → String → String → M S (Option Ip × Fields)
    request_unless n v4 v6 =
        if (v4 == "") && (v6 == "") then request_address n else pure (none, body_with n n.ipam)

    -- `checkOrRequestFixedIP`, with the body after it.
    unfoldable pub check_or_request_fixed_ip : Fields → M S (Option Ip × Fields)
    check_or_request_fixed_ip body = given (get_ipam_config body) >>= λ n.
        given (get_string_member n.ipam "IPv4Address") >>= λ v4.
        given (get_string_member n.ipam "IPv6Address") >>= λ v6. request_unless n v4 v6

    abbrev pub marshalled : Option Ip × Fields → M S (Option Ip × String)
    marshalled (reserved, body) =
        catch (given (docker.marshal body)) (λ text. pure (reserved, text))
          (release_and_fail reserved)

    abbrev pub prepare : ContainerInspect → Fields → String → M S (Option Ip × String)
    prepare info body text =
        if is_fixed_ip_label_enabled info
        then (check_or_request_fixed_ip body >>= marshalled)
        else pure (none, text)

    abbrev pub connect : Request → String → M S Answer
    connect req version = do
      text ← given req.body
      body ← given (docker.unmarshal_object text)
      info ← get_container_info version body
      prepared ← prepare info body text
      send req prepared

  module _ (driver_name hostname : String) where
    abbrev pub connect_matched : Request → Option (String × String) → M S Answer
    connect_matched req none = pure passed_on
    connect_matched req (some (version, network)) =
        catch (get_pools_by_network_name net docker driver_name network)
          (λ pools. connect hostname pools req version)
          (λ e. if is_unsupervised e then pure passed_on else fail e)

    -- `Handle` of `networkConnectHandler`
    unfoldable pub handle_connect : (String → Option (String × String)) → Request → M S Answer
    handle_connect find req = connect_matched req (match_connect find req)
