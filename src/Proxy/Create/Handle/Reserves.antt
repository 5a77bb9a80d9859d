-- ===== src/Proxy/Create/Handle/Reserves.antt =====
-- The addresses that a request to create a container reserves, one after the other.
use barrel.Prelude.{
  String, ◌&&◌, List, [], ◌∷◌, ◌++◌, Option, none, some, inl, inr, Bool-cases, string_eq, ◌==◌,
  if◌then◌else◌,
}
use barrel.Types.{Result, Error, Pool, Ip, IpAddress}
use barrel.Json.{Fields}
use barrel.Method.Keeps.{Keeps, Keeps-result}
use barrel.Vessel.World.{
  Clients, ClientLaws, WorldOf, M, Ends, returns, fails, >>=-Ends, catch-Ends, pure, fail, ◌>>=◌,
}
use barrel.Vessel.FixedPool.Alloc.{Recorded, NotRecorded, alloc_fixed_ip_from_pools-Ends}
use barrel.Proxy.Members.{ensure_object_member, get_string_member}
use barrel.Proxy.Daemon.{Daemon, Site, given, get_pools_by_network_name}
use barrel.Proxy.Daemon.Calm.{Calm, Calm-refl, pools-Calm}
use barrel.Proxy.Connect.{with_address, is_unsupervised}
use barrel.Proxy.Create.{is_custom_network}
use barrel.Proxy.Create.Handle.{
  with_reserved, request_blank, request_fixed_ip, endpoint_after, visit_pools, visit_network,
}

module _ (net : Clients) (laws : ClientLaws net) {D : Type 0} where
  -- Each address was free in its turn and has been reserved with a record, and nothing else has been
  -- done.
  pub data Reserves (w : Site net D) : List Ip → Site net D → Type 0 where
    start : Reserves w [] w
    calm :
        {ips : List Ip} {u x : Site net D} → Reserves w ips u → Calm net laws u x → Reserves w ips x
    took :
        {ips : List Ip} {u x : Site net D}
        → Reserves w ips u
        → (a : IpAddress) → Recorded net laws u.vessel a x.vessel
        → Reserves w (ips ++ a.ip ∷ []) x

  -- What stands reserved after an error.
  pub data Stuck (w : Site net D) (e : Error) (ips : List Ip) (x : Site net D) : Type 0 where
    whole : Reserves w ips x → Stuck w e ips x
    unserved :
        (u : Site net D)
        → Reserves w ips u
        → NotRecorded net laws u.vessel e x.vessel
        → Stuck w e ips x

  module _ (docker : Daemon D) (driver_name hostname : String) (w : Site net D)
      (ips : List Ip) where
    -- A step that may reserve one more address.
    abbrev pub Adds : {A : Type 0} → M (Site net D) (Option Ip × A) → Site net D → Type 0
    Adds {A} m u =
        Ends {A = Option Ip × A} (λ p x. Reserves w (with_reserved ips p.0) x)
          (λ e x. Stuck w e ips x) (m u)

    after :
        {A B : Type 0} (m : M (Site net D) A) (f : A → M (Site net D) (Option Ip × B))
        (u : Site net D)
        → Keeps (Calm net laws) m
        → Reserves w ips u
        → ((a : A) (x : Site net D) → Reserves w ips x → Adds (f a) x)
        → Adds (m >>= f) u
    after m f u keeps q k =
        >>=-Ends m f u (keeps u) (λ a x p. k a x (calm q p)) (λ e x p. whole (calm q p))

    constant : {A : Type 0} (r : Result A) → Keeps (Calm net laws {D = D}) (given r)
    constant r = Keeps-result (Calm net laws) (Calm-refl net laws) r

    blank :
        (pools : List Pool) (ipam : Fields) (v4 v6 : String) (u : Site net D)
        → Reserves w ips u
        → Adds (request_blank net docker driver_name hostname pools ipam v4 v6) u
    blank pools ipam v4 v6 u q = elim (Bool-cases ((v4 == "") && (v6 == ""))) [
      | inl t ↦ rw t (served (alloc_fixed_ip_from_pools-Ends net laws hostname pools u.vessel))
      | inr f ↦ rw f (returns q)
    ]
      where
        served :
            {o : Result IpAddress × WorldOf net}
            → Ends (Recorded net laws u.vessel) (NotRecorded net laws u.vessel) o
            → Adds
                ((λ _. (o.0, record u { vessel = o.1 })) >>= λ a.
                  pure (some a.ip, with_address ipam a))
                u
        served (returns {a} h) = returns (took q a h)
        served (fails h) = fails (unserved u q h)

    requested :
        (pools : List Pool) (ipam : Fields) (u : Site net D)
        → Reserves w ips u
        → Adds (request_fixed_ip net docker driver_name hostname pools ipam) u
    unfolding request_fixed_ip
    requested pools ipam u q =
        after (given (get_string_member ipam "IPv4Address")) _ u
          (constant (get_string_member ipam "IPv4Address")) q
          (λ v4 x p.
            after (given (get_string_member ipam "IPv6Address")) _ x
              (constant (get_string_member ipam "IPv6Address")) p
              (λ v6 y p'. blank pools ipam v4 v6 y p'))

    in_pools :
        (endpoints : Fields) (name : String) (pools : List Pool) (u : Site net D)
        → Reserves w ips u
        → Adds (visit_pools net docker driver_name hostname endpoints name pools) u
    in_pools endpoints name pools u q =
        after (given (ensure_object_member endpoints name)) _ u
          (constant (ensure_object_member endpoints name)) q
          (λ e x p.
            after (given (ensure_object_member e.0 "IPAMConfig")) _ x
              (constant (ensure_object_member e.0 "IPAMConfig")) p
              (λ i y p'.
                >>=-Ends (request_fixed_ip net docker driver_name hostname pools i.0)
                  (λ r. pure (endpoint_after net docker driver_name hostname e.1 name i.1 r)) y
                  (requested pools i.0 y p') (λ r z h. returns h) (λ d z h. h)))

    unsupervised :
        (e : Error) (endpoints : Fields) (u : Site net D)
        → Reserves w ips u
        → Adds (if is_unsupervised e then pure (none, endpoints) else fail e) u
    unsupervised e endpoints u q = elim (Bool-cases (is_unsupervised e)) [
      | inl t ↦ rw t (returns q)
      | inr f ↦ rw f (fails (whole q))
    ]

    pub visit_network-Adds :
        (endpoints : Fields) (name : String) (u : Site net D)
        → Reserves w ips u
        → Adds (visit_network net docker driver_name hostname endpoints name) u
    visit_network-Adds endpoints name u q = elim (Bool-cases (is_custom_network name)) [
      | inr f ↦ rw f (returns q)
      | inl t ↦ rw t (
          catch-Ends (get_pools_by_network_name net docker driver_name name)
            (visit_pools net docker driver_name hostname endpoints name)
            (λ e. if is_unsupervised e then pure (none, endpoints) else fail e) u
            (pools-Calm net laws docker driver_name name u)
            (λ pools x p. in_pools endpoints name pools x (calm q p))
            (λ e x p. unsupervised e endpoints x (calm q p)))
    ]
