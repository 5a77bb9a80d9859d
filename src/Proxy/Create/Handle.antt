-- ===== src/Proxy/Create/Handle.antt =====
-- `Handle` of containerCreateHandler: the addresses that it reserves for a new container.
pub mod Reserves
pub mod Tallies
pub mod Laws
use barrel.Prelude.{
  ℕ, String, Bool, true, false, ◌&&◌, List, [], ◌∷◌, ◌++◌, Option, none, some, nat_eq, string_eq,
  ◌==◌, if◌then◌else◌,
}
use barrel.Types.{Result, ok, err, Error, Pool, Ip}
use barrel.Json.{object, Fields}
use barrel.Json.Object.{set, keys}
use barrel.Vessel.World.{Clients, M, pure, fail, catch, log_error, ◌>>=◌, ◌>>◌}
use barrel.Vessel.FixedPool.{alloc_fixed_ip_from_pools}
use barrel.Vessel.Helper.{unalloc_all, init_container_info_record}
use barrel.Proxy.Members.{ensure_object_member, get_string_member}
use barrel.Proxy.Daemon.{
  Daemon, Site, Request, Response, on_vessel, on_daemon, given, get_pools_by_network_name,
}
use barrel.Proxy.Connect.{Answer, passed_on, forwarded, with_address, is_unsupervised}
use barrel.Proxy.Create.{
  Checked, is_custom_network, check_fixed_ip_label_and_network_mode, adapt_request_for_cni,
}

-- The addresses that are reserved so far, which the code also returns together with an error.
pub record Tally (S : Type 0) : Type 0 where
  pub site : S
  pub addresses : List Ip

abbrev pub with_reserved : List Ip → Option Ip → List Ip
with_reserved ips none = ips
with_reserved ips (some ip) = ips ++ ip ∷ []

abbrev pub noted : {S A : Type 0} → List Ip → Result (Option Ip × A) → S → Result A × Tally S
noted ips (ok (o, a)) s = (ok a, record { site = s; addresses = with_reserved ips o })
noted ips (err e) s = (err e, record { site = s; addresses = ips })

-- A step that may reserve an address.
abbrev pub tallied : {S A : Type 0} → M S (Option Ip × A) → M (Tally S) A
tallied m t = let (r, s) = m t.site in noted t.addresses r s

abbrev pub names_or : String → List String → List String
names_or mode [] = mode ∷ []
names_or mode (n ∷ ns) = n ∷ ns

module _ (net : Clients) {D : Type 0} (docker : Daemon D) (driver_name hostname : String) where
  abbrev S : Type 0
  S = Site net D

  abbrev pub request_blank : List Pool → Fields → String → String → M S (Option Ip × Fields)
  request_blank pools ipam v4 v6 =
      if (v4 == "") && (v6 == "")
      then (on_vessel (alloc_fixed_ip_from_pools net hostname pools) >>= λ a.
          pure (some a.ip, with_address ipam a))
      else pure (none, ipam)

  -- `requestFixedIP`, with the configuration after it.
  unfoldable pub request_fixed_ip : List Pool → Fields → M S (Option Ip × Fields)
  request_fixed_ip pools ipam = given (get_string_member ipam "IPv4Address") >>= λ v4.
      given (get_string_member ipam "IPv6Address") >>= λ v6. request_blank pools ipam v4 v6

  abbrev pub endpoint_after : Fields → String → Fields → Option Ip × Fields → Option Ip × Fields
  endpoint_after endpoints name endpoint (o, ipam) =
      (o, set endpoints name (object (set endpoint "IPAMConfig" (object ipam))))

  abbrev pub visit_pools : Fields → String → List Pool → M S (Option Ip × Fields)
  visit_pools endpoints name pools = given (ensure_object_member endpoints name) >>= λ e.
      given (ensure_object_member e.0 "IPAMConfig") >>= λ i.
      request_fixed_ip pools i.0 >>= λ r. pure (endpoint_after e.1 name i.1 r)

  abbrev pub visit_network : Fields → String → M S (Option Ip × Fields)
  visit_network endpoints name =
      if is_custom_network name
      then catch (get_pools_by_network_name net docker driver_name name)
          (visit_pools endpoints name)
          (λ e. if is_unsupervised e then pure (none, endpoints) else fail e)
      else pure (none, endpoints)

  abbrev pub visit_all : List String → Fields → M (Tally S) Fields
  visit_all [] endpoints = pure endpoints
  visit_all (n ∷ ns) endpoints = tallied (visit_network endpoints n) >>= visit_all ns

  abbrev pub known : {A : Type 0} → Result A → M (Tally S) A
  known r t = (r, t)

  -- `visitNetworkConfigAndAllocateAddress`, with the body after it.
  unfoldable pub visit_network_config_and_allocate_address : String → Fields → M (Tally S) Fields
  visit_network_config_and_allocate_address mode body =
      known (ensure_object_member body "NetworkingConfig") >>= λ c.
      known (ensure_object_member c.0 "EndpointsConfig") >>= λ e.
      visit_all (names_or mode (keys e.0)) e.0 >>= λ endpoints.
      pure (set c.1 "NetworkingConfig" (object (set e.1 "EndpointsConfig" (object endpoints))))

  abbrev pub request_checked : Checked → M (Tally S) Fields
  request_checked (err e, body) = fail e
  request_checked (ok (false, mode), body) = pure body
  request_checked (ok (true, mode), body) =
      if is_custom_network mode
      then visit_network_config_and_allocate_address mode body
      else pure body

  -- `checkAndRequestFixedIP`
  unfoldable pub check_and_request_fixed_ip : Fields → M (Tally S) Fields
  check_and_request_fixed_ip body = request_checked (check_fixed_ip_label_and_network_mode body)

  -- `read_id` reads the identifier in the daemon's answer.
  module _ (read_id : String → Result String) where
    abbrev pub keep_record : List Ip → Result String → M S (Unit {0})
    keep_record ips (err e) = pure tt
    keep_record ips (ok id) =
        if id == ""
        then pure tt
        else log_error (
            on_vessel
              (init_container_info_record net (record { id = id; host_name = hostname }) ips))

    abbrev pub id_in : Result String → Result String
    id_in (ok content) = read_id content
    id_in (err e) = err e

    -- `writeServerResponse`
    unfoldable pub write_create_response : List Ip → Response → M S Answer
    write_create_response ips resp =
        if resp.status == 201
        then (keep_record ips (id_in resp.body) >> pure (forwarded resp))
        else (on_vessel (unalloc_all net ips) >> pure (forwarded resp))

    abbrev pub send_create : Request → List Ip → Fields → M S Answer
    send_create req ips body = do
      text ← given (docker.marshal body)
      resp ← on_daemon (docker.request (record req { body = ok text }))
      write_create_response ips resp

    abbrev pub after_request : Request → List Ip → Result Fields → M S Answer
    after_request req ips (ok body) = send_create req ips body
    after_request req ips (err e) = on_vessel (unalloc_all net ips) >> fail e

    abbrev pub reserve_and_send : Request → Fields → M S Answer
    reserve_and_send req body w =
        let (r, t) = check_and_request_fixed_ip body (record { site = w; addresses = [] }) in
        after_request req t.addresses r t.site

    abbrev pub with_body : Result (Unit {0}) → Fields → Result Fields
    with_body (ok _) body = ok body
    with_body (err e) body = err e

    abbrev pub adapt : Bool → Fields → M S Fields
    adapt enabled body w =
        let ((r, body'), v) = adapt_request_for_cni net enabled body w.vessel in
        (with_body r body', record w { vessel = v })

    -- `Handle`; `is_create` is the regular expression.
    unfoldable pub handle_create_container : (String → Bool) → Bool → Request → M S Answer
    handle_create_container is_create enabled req =
        if (req.method == "POST") && is_create req.path
        then (given req.body >>= λ text. given (docker.unmarshal_object text) >>= λ body.
            adapt enabled body >>= reserve_and_send req)
        else pure passed_on
