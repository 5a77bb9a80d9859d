-- ===== src/Proxy/Connect/Laws.antt =====
-- What becomes of the address that networkConnectHandler reserves.
use barrel.Prelude.{
  String, ◌&&◌, List, Option, none, some, inl, inr, Bool-cases, nat_eq, string_eq, ◌==◌,
  if◌then◌else◌,
}
use barrel.Types.{Result, ok, err, Error, Pool, Ip, IpAddress}
use barrel.Json.{Fields}
use barrel.Json.Object.{get}
use barrel.Method.Keeps.{Keeps, Keeps-result, Keeps->>=}
use barrel.Vessel.World.{
  Clients, ClientLaws, WorldOf, M, Ends, returns, fails, >>=-Ends, catch-Ends, pure, fail, catch,
  ◌>>=◌,
}
use barrel.Vessel.FixedPool.Alloc.{Recorded, NotRecorded, alloc_fixed_ip_from_pools-Ends}
use barrel.Proxy.Members.{member, get_string_member}
use barrel.Proxy.Daemon.{Daemon, Site, Request, ContainerInspect, given, get_pools_by_network_name}
use barrel.Proxy.Daemon.Calm.{Calm, Calm-refl, Calm-trans, inspect-Calm, pools-Calm}
use barrel.Proxy.Connect.Pending.{
  Pending, pending, nothing, Connected, NotConnected, unreserved, not_reserved, given_up, sent,
}
use barrel.Proxy.Connect.{
  passed_on, match_connect, is_fixed_ip_label_enabled, Nested, get_ipam_config, body_with,
  with_address, identifier_in, is_unsupervised, get_container_info, release_and_fail, send,
  request_address, request_unless, check_or_request_fixed_ip, marshalled, prepare, connect,
  connect_matched, handle_connect,
}

module _ (net : Clients) (laws : ClientLaws net) {D : Type 0} (docker : Daemon D) where
  abbrev C : Site net D → Site net D → Type 0
  C = Calm net laws

  module _ (hostname : String) (pools : List Pool) where
    -- What has been reserved for a body.
    abbrev Prepares :
        {A : Type 0} → Site net D → M (Site net D) (Option Ip × A) → Site net D → Type 0
    Prepares {A} w m u =
        Ends {A = Option Ip × A} (λ p x. Pending net laws docker w p.0 x)
          (NotConnected net laws docker w) (m u)

    allocated :
        (n : Nested) (w u : Site net D)
        → C w u
        → Prepares w (request_address net docker hostname pools n) u
    allocated n w u q = done (alloc_fixed_ip_from_pools-Ends net laws hostname pools u.vessel)
      where
        done :
            {o : Result IpAddress × WorldOf net}
            → Ends (Recorded net laws u.vessel) (NotRecorded net laws u.vessel) o
            → Ends {A = Option Ip × Fields}
                (λ p x. Pending net laws docker w p.0 x)
                (NotConnected net laws docker w)
                (((λ _. (o.0, record u { vessel = o.1 })) >>= λ a.
                    pure (some a.ip, body_with n (with_address n.ipam a)))
                  u)
        done (returns {a} h) = returns (pending a (u, q, h))
        done (fails h) = fails (not_reserved u q h)

    requested :
        (n : Nested) (v4 v6 : String) (w u : Site net D)
        → C w u
        → Prepares w (request_unless net docker hostname pools n v4 v6) u
    requested n v4 v6 w u q = elim (Bool-cases ((v4 == "") && (v6 == ""))) [
      | inl blank ↦ rw blank (allocated n w u q)
      | inr named ↦ rw named (returns (nothing q))
    ]

    -- A step that only reads, before the rest.
    after :
        {A B : Type 0} {Q : B → Site net D → Type 0} (m : M (Site net D) A)
        (f : A → M (Site net D) B) (w u : Site net D)
        → Keeps C m
        → C w u
        → ((a : A) (x : Site net D) → C w x → Ends Q (NotConnected net laws docker w) (f a x))
        → Ends Q (NotConnected net laws docker w) ((m >>= f) u)
    after m f w u keeps q k =
        >>=-Ends m f u (keeps u) (λ a x p. k a x (Calm-trans net laws w u x q p))
          (λ e x p. unreserved (Calm-trans net laws w u x q p))

    constant : {A : Type 0} (r : Result A) → Keeps C (given r)
    constant r = Keeps-result C (Calm-refl net laws) r

    checked :
        (body : Fields) (w u : Site net D)
        → C w u
        → Prepares w (check_or_request_fixed_ip net docker hostname pools body) u
    unfolding check_or_request_fixed_ip
    checked body w u q =
        after (given (get_ipam_config body)) _ w u (constant (get_ipam_config body)) q (λ n x p.
          after (given (get_string_member n.ipam "IPv4Address")) _ w x
            (constant (get_string_member n.ipam "IPv4Address")) p
            (λ v4 y p'.
              after (given (get_string_member n.ipam "IPv6Address")) _ w y
                (constant (get_string_member n.ipam "IPv6Address")) p'
                (λ v6 z p''. requested n v4 v6 w z p'')))

    written_out :
        (p : Option Ip × Fields) (w u : Site net D)
        → Pending net laws docker w p.0 u
        → Prepares w (marshalled net docker hostname pools p) u
    written_out (r, body) w u h = made (docker.marshal body)
      where
        made :
            (o : Result String)
            → Prepares w
                (catch (given o) (λ text. pure (r, text)) (release_and_fail net docker r))
                u
        made (ok text) = returns h
        made (err e) = given_up net laws docker w u e h

    prepared :
        (info : ContainerInspect) (body : Fields) (text : String) (w u : Site net D)
        → C w u
        → Prepares w (prepare net docker hostname pools info body text) u
    prepared info body text w u q = elim (Bool-cases (is_fixed_ip_label_enabled info)) [
      | inl on ↦ rw on (
          >>=-Ends (check_or_request_fixed_ip net docker hostname pools body)
            (marshalled net docker hostname pools) u (checked body w u q)
            (λ p x h. written_out p w x h) (λ e x h. h))
      | inr off ↦ rw off (returns (nothing q))
    ]

    get_container_info-Keeps :
        (version : String) (body : Fields) → Keeps C (get_container_info net docker version body)
    unfolding get_container_info
    get_container_info-Keeps version body =
        Keeps->>= C (Calm-trans net laws) (given (identifier_in (member (get body "Container")))) _
          (constant (identifier_in (member (get body "Container"))))
          (λ identifier. inspect-Calm net laws docker identifier version)

    connected :
        (req : Request) (version : String) (w u : Site net D)
        → C w u
        → Ends
            (Connected net laws docker w)
            (NotConnected net laws docker w)
            (connect net docker hostname pools req version u)
    connected req version w u q = after (given req.body) _ w u (constant req.body) q (λ text x p.
        after (given (docker.unmarshal_object text)) _ w x (constant (docker.unmarshal_object text))
          p
          (λ body y p'.
            after (get_container_info net docker version body) _ w y
              (get_container_info-Keeps version body) p'
              (λ info z p''.
                >>=-Ends (prepare net docker hostname pools info body text) (send net docker req) z
                  (prepared info body text w z p'')
                  (λ r v h. sent net laws docker r.0 r.1 req w v h) (λ e v h. h))))

  module _ (driver_name hostname : String) (find : String → Option (String × String)) where
    not_found :
        (e : Error) (w u : Site net D)
        → C w u
        → Ends
            (Connected net laws docker w)
            (NotConnected net laws docker w)
            ((if is_unsupervised e then pure passed_on else fail e) u)
    not_found e w u q = elim (Bool-cases (is_unsupervised e)) [
      | inl t ↦ rw t (returns (unreserved q))
      | inr f ↦ rw f (fails (unreserved q))
    ]

    matched :
        (req : Request) (m : Option (String × String)) (w : Site net D)
        → Ends
            (Connected net laws docker w)
            (NotConnected net laws docker w)
            (connect_matched net docker driver_name hostname req m w)
    matched req none w = returns (unreserved (Calm-refl net laws w))
    matched req (some (version, network)) w =
        catch-Ends (get_pools_by_network_name net docker driver_name network)
          (λ pools. connect net docker hostname pools req version)
          (λ e. if is_unsupervised e then pure passed_on else fail e) w
          (pools-Calm net laws docker driver_name network w)
          (λ pools u q. connected hostname pools req version w u q) (λ e u q. not_found e w u q)

    -- After a request to connect a container, either the vessel is as it was but for what Calico
    -- keeps besides its addresses; or an address that was free has been reserved with a record,
    -- and it stays so where the daemon's answer is 200, while after an error, or any other answer,
    -- the vessel is what `UnallocFixedIP` of that address made of it; or there is an error since
    -- the allocator could not reserve one.
    pub handle_connect-Ends :
        (req : Request) (w : Site net D)
        → Ends
            (Connected net laws docker w)
            (NotConnected net laws docker w)
            (handle_connect net docker driver_name hostname find req w)
    unfolding handle_connect
    handle_connect-Ends req w = matched req (match_connect find req) w
