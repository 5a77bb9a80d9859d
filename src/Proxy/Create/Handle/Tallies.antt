-- ===== src/Proxy/Create/Handle/Tallies.antt =====
-- `checkAndRequestFixedIP`, with the addresses that it returns together with an error.
use barrel.Prelude.{
  String, true, false, List, [], ◌∷◌, Option, inl, inr, Bool-cases, nat_eq, string_eq,
}
use barrel.Types.{Result, ok, err, Ip}
use barrel.Json.{object, Fields}
use barrel.Json.Object.{set, keys}
use barrel.Vessel.World.{Clients, ClientLaws, M, Ends, returns, fails, >>=-Ends, pure, ◌>>=◌}
use barrel.Proxy.Members.{ensure_object_member}
use barrel.Proxy.Daemon.{Daemon, Site}
use barrel.Proxy.Create.{Checked, is_custom_network, check_fixed_ip_label_and_network_mode}
use barrel.Proxy.Create.Handle.{
  Tally, noted, tallied, with_reserved, names_or, visit_network, visit_all, known,
  visit_network_config_and_allocate_address, request_checked, check_and_request_fixed_ip,
}
use barrel.Proxy.Create.Handle.Reserves.{Reserves, start, Stuck, whole, visit_network-Adds}

module _ (net : Clients) (laws : ClientLaws net) {D : Type 0} (docker : Daemon D)
    (driver_name hostname : String) where
  abbrev Holds : Site net D → Tally (Site net D) → Type 0
  Holds w t = Reserves net laws w t.addresses t.site

  -- The addresses of a tally stand reserved, whatever the end.
  abbrev Tallies :
      {A : Type 0} → Site net D → M (Tally (Site net D)) A → Tally (Site net D) → Type 0
  Tallies w m t = Ends (λ _ u. Holds w u) (λ e u. Stuck net laws w e u.addresses u.site) (m t)

  tallied-Tallies :
      {A : Type 0} (w : Site net D) (ips : List Ip) {r : Result (Option Ip × A) × Site net D}
      → Ends {A = Option Ip × A}
          (λ p x. Reserves net laws w (with_reserved ips p.0) x)
          (λ e x. Stuck net laws w e ips x)
          r
      → Tallies w (λ _. noted ips r.0 r.1) (record { site = r.1; addresses = ips })
  tallied-Tallies w ips (returns h) = returns h
  tallied-Tallies w ips (fails h) = fails h

  visit_all-Tallies :
      (names : List String) (endpoints : Fields) (w : Site net D) (t : Tally (Site net D))
      → Holds w t
      → Tallies w (visit_all net docker driver_name hostname names endpoints) t
  visit_all-Tallies [] endpoints w t q = returns q
  visit_all-Tallies (n ∷ ns) endpoints w t q =
      >>=-Ends (tallied (visit_network net docker driver_name hostname endpoints n))
        (visit_all net docker driver_name hostname ns) t
        (tallied-Tallies w t.addresses (
          visit_network-Adds net laws docker driver_name hostname w t.addresses endpoints n t.site
            q))
        (λ e u h. visit_all-Tallies ns e w u h) (λ e u h. h)

  known-Tallies :
      {A B : Type 0} (r : Result A) (f : A → M (Tally (Site net D)) B) (w : Site net D)
      (t : Tally (Site net D))
      → Holds w t
      → ((a : A) (u : Tally (Site net D)) → Holds w u → Tallies w (f a) u)
      → Tallies w (known net docker driver_name hostname r >>= f) t
  known-Tallies (ok a) f w t q k = k a t q
  known-Tallies (err e) f w t q k = fails (whole q)

  visited :
      (mode : String) (body : Fields) (w : Site net D) (t : Tally (Site net D))
      → Holds w t
      → Tallies w
          (visit_network_config_and_allocate_address net docker driver_name hostname mode body)
          t
  unfolding visit_network_config_and_allocate_address
  visited mode body w t q =
      known-Tallies (ensure_object_member body "NetworkingConfig") _ w t q (λ c x p.
        known-Tallies (ensure_object_member c.0 "EndpointsConfig") _ w x p (λ e y p'.
          >>=-Ends (visit_all net docker driver_name hostname (names_or mode (keys e.0)) e.0)
            (λ endpoints.
              pure (
                set c.1 "NetworkingConfig" (object (set e.1 "EndpointsConfig" (object endpoints)))))
            y (visit_all-Tallies (names_or mode (keys e.0)) e.0 w y p') (λ endpoints u h. returns h)
            (λ d u h. h)))

  checked :
      (c : Checked) (w : Site net D) (t : Tally (Site net D))
      → Holds w t
      → Tallies w (request_checked net docker driver_name hostname c) t
  checked (err e, body) w t q = fails (whole q)
  checked (ok (false, mode), body) w t q = returns q
  checked (ok (true, mode), body) w t q = elim (Bool-cases (is_custom_network mode)) [
    | inl y ↦ rw y (visited mode body w t q)
    | inr n ↦ rw n (returns q)
  ]

  pub check_and_request_fixed_ip-Tallies :
      (body : Fields) (w : Site net D)
      → Tallies w
          (check_and_request_fixed_ip net docker driver_name hostname body)
          (record { site = w; addresses = [] })
  unfolding check_and_request_fixed_ip
  check_and_request_fixed_ip-Tallies body w =
      checked (check_fixed_ip_label_and_network_mode body) w (record { site = w; addresses = [] })
        start
