-- ===== src/Driver/CalicoIpam/Laws.antt =====
-- What the address requests of driver/calico/ipam.go take in Calico and give back.
use barrel.Prelude.{String, Bool, true, false, ◌≡◌, refl, inl, inr, Bool-cases, string_eq, ◌==◌}
use barrel.Types.{Result, ok, err, Error, IsForeign, Ip, IpAddress}
use barrel.Vessel.World.{Clients, ClientLaws, WorldOf, M, Ends, returns, fails, >>=-Ends, >>-Ends}
use barrel.Vessel.CalicoClient.{assign, Assigns, Releases, Elsewhere}
use barrel.Vessel.CalicoPool.{alloc_ip, unalloc_ip, alloc_ip_from_pool}
use barrel.Vessel.CalicoPool.Alloc.{free_or, Took, Untouched, alloc_ip_from_pool-Ends}
use barrel.Driver.CalicoIpam.{
  RequestAddressRequest, check_options, no_gateway, ip_address_to_cidr, requested, any_address,
  that_address, request_address,
}

module _ (net : Clients) (laws : ClientLaws net) where
  open net use {cal}

  -- One address was free, and Calico has assigned it; the cluster is not touched.
  abbrev pub Assigned : String → WorldOf net → WorldOf net → Type 0
  Assigned a w w' =
      (free_or net laws w a ≡ false)
      × (free_or net laws w' ≡ assign (free_or net laws w) a true)
      × (w'.shared ≡ w.shared)

  -- Nothing has changed in the cluster, nor in what Calico has assigned but for one address.
  abbrev pub Unmoved : String → WorldOf net → Error → WorldOf net → Type 0
  Unmoved a w e w' = Elsewhere (free_or net laws w) a (free_or net laws w') × (w'.shared ≡ w.shared)

  allocated :
      (ip : Ip) (w : WorldOf net) (r : Result (Unit {0})) (s : cal.State)
      → Assigns (free_or net laws w) ip.address r (cal.assigned s)
      → Ends
          (λ _ w'. Assigned ip.address w w')
          (λ e w'. IsForeign e × Unmoved ip.address w e w')
          (r, record w { ipam = s })
  allocated ip w (ok u) s h = returns (h.0, h.1, refl)
  allocated ip w (err e) s h = fails (h.0, (h.1, refl))

  pub alloc_ip-Ends :
      (hostname : String) (ip : Ip) (w : WorldOf net)
      → Ends
          (λ _ w'. Assigned ip.address w w')
          (λ e w'. IsForeign e × Unmoved ip.address w e w')
          (alloc_ip net hostname ip w)
  unfolding alloc_ip
  alloc_ip-Ends hostname ip w =
      let t = cal.assign_ip hostname ip.address w.ipam in
      allocated ip w t.0 t.1 (laws.cal_laws.assign_ip_Assigns hostname ip.address w.ipam)

  freed :
      (ip : Ip) (w : WorldOf net) (r : Result (Unit {0})) (s : cal.State)
      → Releases (free_or net laws w) ip.address r (cal.assigned s)
      → Ends
          (λ _ w'.
            (free_or net laws w' ≡ assign (free_or net laws w) ip.address false)
            × (w'.shared ≡ w.shared))
          (λ e w'. IsForeign e × Unmoved ip.address w e w')
          (r, record w { ipam = s })
  freed ip w (ok u) s h = returns (h, refl)
  freed ip w (err e) s h = fails (h.0, (h.1, refl))

  pub unalloc_ip-Ends :
      (ip : Ip) (w : WorldOf net)
      → Ends
          (λ _ w'.
            (free_or net laws w' ≡ assign (free_or net laws w) ip.address false)
            × (w'.shared ≡ w.shared))
          (λ e w'. IsForeign e × Unmoved ip.address w e w')
          (unalloc_ip net ip w)
  unfolding unalloc_ip
  unalloc_ip-Ends ip w =
      let t = cal.release_ip ip.address w.ipam in
      freed ip w t.0 t.1 (laws.cal_laws.release_ip_Releases ip.address w.ipam)

  module _ (is_v4 : String → Bool) (hostname : String) where
    -- The address that is answered with was free: any one that Calico picked, or the one asked for.
    pub data Answered (r : RequestAddressRequest) (w : WorldOf net) (a : String) (w' : WorldOf net)
        : Type 0 where
      picked :
          (ip : IpAddress)
          → (r.address == "") ≡ true
          → Took net laws w ip w'
          → a ≡ ip_address_to_cidr is_v4 ip.address
          → Answered r w a w'
      given :
          (r.address == "") ≡ false
          → Assigned r.address w w'
          → a ≡ ip_address_to_cidr is_v4 r.address
          → Answered r w a w'

    -- A gateway is refused before anything is done; no other error touches the cluster.
    pub data Denied (r : RequestAddressRequest) (w : WorldOf net) (e : Error) (w' : WorldOf net)
        : Type 0 where
      gateway : check_options r.options ≡ false → e ≡ no_gateway → w' ≡ w → Denied r w e w'
      unpicked :
          check_options r.options ≡ true
          → (r.address == "") ≡ true
          → Untouched net laws w e w'
          → Denied r w e w'
      failed :
          check_options r.options ≡ true
          → (r.address == "") ≡ false
          → Unmoved r.address w e w'
          → Denied r w e w'

    module _ (r : RequestAddressRequest) (w : WorldOf net) where
      abbrev Requests : M (WorldOf net) String → Type 0
      Requests m = Ends (Answered r w) (Denied r w) (m w)

      any :
          check_options r.options ≡ true
          → (r.address == "") ≡ true
          → Requests (any_address net is_v4 hostname r)
      any fine empty =
          >>=-Ends (alloc_ip_from_pool net hostname r.pool_id) _ w
            (alloc_ip_from_pool-Ends net laws hostname r.pool_id w)
            (λ ip w' t. returns (picked ip empty t refl)) (λ e w' same. unpicked fine empty same)

      that :
          check_options r.options ≡ true
          → (r.address == "") ≡ false
          → Requests (that_address net is_v4 hostname r)
      that fine named =
          >>-Ends (alloc_ip net hostname (requested r)) _ w (alloc_ip-Ends hostname (requested r) w)
            (λ w' t. returns {a = ip_address_to_cidr is_v4 r.address} {w = w'} (given named t refl))
            (λ e w' (f, same). failed fine named same)

      pub request_address-Ends : Requests (request_address net is_v4 hostname r)
      unfolding request_address
      request_address-Ends = elim (Bool-cases (check_options r.options)) [
        | inr wrong ↦ rw wrong (fails (gateway wrong refl refl))
        | inl fine ↦ elim (Bool-cases (r.address == "")) [
          | inl empty ↦ rw (fine, empty) (any fine empty)
          | inr named ↦ rw (fine, named) (that fine named)
        ]
      ]
