-- ===== src/Driver/FixedIpam/Laws.antt =====
-- Where the addresses of driver/fixedip/ipam.go come from and go to.
use barrel.Prelude.{
  String, Bool, true, false, none, ◌≡◌, refl, inl, inr, Bool-cases, string_eq, ◌==◌, if◌then◌else◌,
}
use barrel.Types.{Error, IsForeign, other, fixed_ip_not_allocated, Ip}
use barrel.Vessel.World.{
  Clients, ClientLaws, WorldOf, M, Ends, returns, fails, catch-Ends, Ends-mono, Ends-both, pure,
  fail,
}
use barrel.Vessel.CalicoClient.{assign, Elsewhere}
use barrel.Vessel.CalicoPool.Alloc.{free_or}
use barrel.Vessel.FixedPool.{assign_fixed_ip, unassign_fixed_ip}
use barrel.Vessel.FixedPool.Apart.{assign_fixed_ip-Apart, unassign_fixed_ip-Apart}
use barrel.Vessel.FixedPool.Steps.{V, key_of, IsOwn}
use barrel.Vessel.FixedPool.Assign.{
  Takes, GivesBack, Refused, client_failed, gone_meanwhile, not_allocated, held, overtaken,
  assign_fixed_ip-Ends, unassign_fixed_ip-Ends,
}
use barrel.Driver.CalicoIpam
use barrel.Driver.CalicoIpam.{
  RequestAddressRequest, ReleaseAddressRequest, check_options, no_gateway, ip_address_to_cidr,
  requested, released,
}
use barrel.Driver.CalicoIpam.Laws.{
  Answered, Denied, Assigned, picked, given, gateway, unpicked, failed, unalloc_ip-Ends,
  request_address-Ends,
}
use barrel.Driver.FixedIpam.{is_not_allocated, request_address, release_address}

foreign_elsewhere : (e : Error) → IsForeign e → is_not_allocated e ≡ true → ⊥
foreign_elsewhere (other s) f t = cc
foreign_elsewhere fixed_ip_not_allocated f t = f
foreign_elsewhere _ f t = cc

module _ (net : Clients) (laws : ClientLaws net) (is_v4 : String → Bool) (hostname : String) where
  open net use {kv}

  -- No fixed address has the key, and neither the cluster's contents nor Calico have changed.
  abbrev Absent : Ip → WorldOf net → WorldOf net → Type 0
  Absent ip w u =
      (V net laws.kv_laws w (key_of ip) ≡ none)
      × (kv.view u.shared.store ≡ V net laws.kv_laws w)
      × (u.ipam ≡ w.ipam)

  Refused-Absent :
      (ip : Ip) (w u : WorldOf net) (e : Error)
      → is_not_allocated e ≡ true
      → Refused net laws.kv_laws ip w e u
      → u.ipam ≡ w.ipam
      → Absent ip w u
  Refused-Absent ip w u e t (client_failed f) a = absurd (foreign_elsewhere e f t)
  Refused-Absent ip w u e t (gone_meanwhile s) a = absurd (cc)
  Refused-Absent ip w u e t (not_allocated s n k) a = (n, k, a)
  Refused-Absent ip w u e t (held i n s st b k) a = absurd (cc)
  Refused-Absent ip w u e t (overtaken s l) a = absurd (cc)

  -- The address that is answered with is Calico's choice, or a fixed address that was not in use
  -- and is marked, or one that is no fixed address and was free in Calico.
  pub data Granted (r : RequestAddressRequest) (w : WorldOf net) (a : String) (w' : WorldOf net)
      : Type 0 where
    chosen : (r.address == "") ≡ true → Answered net laws is_v4 hostname r w a w' → Granted r w a w'
    fixed :
        Takes net laws.kv_laws (requested r) w tt w'
        → w'.ipam ≡ w.ipam
        → a ≡ ip_address_to_cidr is_v4 r.address
        → Granted r w a w'
    plain :
        (u : WorldOf net)
        → Absent (requested r) w u
        → Assigned net laws r.address u w'
        → a ≡ ip_address_to_cidr is_v4 r.address
        → Granted r w a w'

  pub data Withheld (r : RequestAddressRequest) (w : WorldOf net) (e : Error) (w' : WorldOf net)
      : Type 0 where
    calico : Denied net laws is_v4 hostname r w e w' → Withheld r w e w'
    refused :
        is_not_allocated e ≡ false
        → Refused net laws.kv_laws (requested r) w e w'
        → w'.ipam ≡ w.ipam
        → Withheld r w e w'
    taken :
        (u : WorldOf net)
        → Absent (requested r) w u
        → Elsewhere (free_or net laws u) r.address (free_or net laws w')
        → w'.shared ≡ u.shared
        → Withheld r w e w'

  module _ (r : RequestAddressRequest) (w : WorldOf net) where
    abbrev Grants : M (WorldOf net) String → WorldOf net → Type 0
    Grants m u = Ends (Granted r w) (Withheld r w) (m u)

    asked :
        (u : WorldOf net)
        → (r.address == "") ≡ false
        → Absent (requested r) w u
        → check_options r.options ≡ true
        → Grants (CalicoIpam.request_address net is_v4 hostname r) u
    asked u named gone fine =
        Ends-mono (request_address-Ends net laws is_v4 hostname r u) (λ a w' h. of_answer h)
          (λ e w' h. of_denial h)
      where
        of_answer :
            {a : String} {w' : WorldOf net}
            → Answered net laws is_v4 hostname r u a w'
            → Granted r w a w'
        of_answer (picked ip empty t e) = absurd (cc)
        of_answer (given n t e) = plain u gone t e

        of_denial :
            {e : Error} {w' : WorldOf net}
            → Denied net laws is_v4 hostname r u e w'
            → Withheld r w e w'
        of_denial (gateway wrong e s) = absurd (cc)
        of_denial (unpicked f e s) = absurd (cc)
        of_denial (failed f n s) = taken u gone s.0 s.1

    fallen_back :
        (e : Error) (u : WorldOf net)
        → (r.address == "") ≡ false
        → check_options r.options ≡ true
        → Refused net laws.kv_laws (requested r) w e u
        → u.ipam ≡ w.ipam
        → Grants
            (λ v.
              (if is_not_allocated e
                  then CalicoIpam.request_address net is_v4 hostname r
                  else fail e)
                v)
            u
    fallen_back e u named fine h a = elim (Bool-cases (is_not_allocated e)) [
      | inl gone ↦ rw gone (asked u named (Refused-Absent (requested r) w u e gone h a) fine)
      | inr kept ↦ rw kept (fails (refused kept h a))
    ]

    -- Where the key of the address holds a record of it or nothing, `RequestAddress` answers with
    -- an address that Calico chose where none is asked for, with the fixed address once it has
    -- marked a record that was not in use, with nothing done in Calico, or, where the address has
    -- no record, once Calico has assigned it; an error other than an absent record of the fixed
    -- address is passed on with nothing done in Calico, and an error of Calico for a given address
    -- touches neither the cluster nor another address.
    pub fixed_request_address-Ends :
        IsOwn (V net laws.kv_laws w) (requested r) → Grants (request_address net is_v4 hostname r) w
    unfolding request_address
    fixed_request_address-Ends own = elim (Bool-cases (check_options r.options)) [
      | inr wrong ↦ rw wrong (fails (calico (gateway wrong refl refl)))
      | inl fine ↦ elim (Bool-cases (r.address == "")) [
        | inl empty ↦
            rw (fine, empty)
              (Ends-mono (request_address-Ends net laws is_v4 hostname r w)
                (λ a w' h. chosen empty h) (λ e w' h. calico h))
        | inr named ↦
            rw (fine, named)
              (catch-Ends (assign_fixed_ip net (requested r))
                (λ _. pure (ip_address_to_cidr is_v4 r.address))
                (λ e.
                  if is_not_allocated e
                  then CalicoIpam.request_address net is_v4 hostname r
                  else fail e)
                w
                (Ends-both (assign_fixed_ip-Ends net laws.kv_laws (requested r) w own)
                  (assign_fixed_ip-Apart net (requested r) w))
                (λ u w' (t, q).
                  returns {a = ip_address_to_cidr is_v4 r.address} {w = w'} (fixed t q refl))
                (λ e u (h, q). fallen_back e u named fine h q))
      ]
    ]

  -- A fixed address is given back in the cluster alone, and any other address in Calico.
  pub data Returned (r : ReleaseAddressRequest) (w : WorldOf net) (w' : WorldOf net) : Type 0 where
    fixed_back :
        GivesBack net laws.kv_laws (released r) w tt w' → w'.ipam ≡ w.ipam → Returned r w w'
    plain_back :
        (u : WorldOf net)
        → Absent (released r) w u
        → free_or net laws w' ≡ assign (free_or net laws u) r.address false
        → w'.shared ≡ u.shared
        → Returned r w w'

  pub data Retained (r : ReleaseAddressRequest) (w : WorldOf net) (e : Error) (w' : WorldOf net)
      : Type 0 where
    refused_back :
        is_not_allocated e ≡ false
        → Refused net laws.kv_laws (released r) w e w'
        → w'.ipam ≡ w.ipam
        → Retained r w e w'
    plain_kept :
        (u : WorldOf net)
        → Absent (released r) w u
        → Elsewhere (free_or net laws u) r.address (free_or net laws w')
        → w'.shared ≡ u.shared
        → Retained r w e w'

  module _ (r : ReleaseAddressRequest) (w : WorldOf net) where
    abbrev GivesUp : M (WorldOf net) (Unit {0}) → WorldOf net → Type 0
    GivesUp m u = Ends (λ _ w'. Returned r w w') (Retained r w) (m u)

    released_plain :
        (u : WorldOf net)
        → Absent (released r) w u
        → GivesUp (CalicoIpam.release_address net is_v4 hostname r) u
    unfolding CalicoIpam.release_address
    released_plain u gone =
        Ends-mono (unalloc_ip-Ends net laws (released r) u) (λ _ w' h. plain_back u gone h.0 h.1)
          (λ e w' (f, h). plain_kept u gone h.0 h.1)

    passed_on :
        (e : Error) (u : WorldOf net)
        → Refused net laws.kv_laws (released r) w e u
        → u.ipam ≡ w.ipam
        → GivesUp
            (λ v.
              (if is_not_allocated e
                  then CalicoIpam.release_address net is_v4 hostname r
                  else fail e)
                v)
            u
    passed_on e u h a = elim (Bool-cases (is_not_allocated e)) [
      | inl gone ↦ rw gone (released_plain u (Refused-Absent (released r) w u e gone h a))
      | inr kept ↦ rw kept (fails (refused_back kept h a))
    ]

    -- Where the key of the address holds a record of it or nothing, `ReleaseAddress` succeeds once
    -- it has cleared the mark of the record, or has found it cleared, with nothing done in Calico,
    -- or, where there is no record, once Calico has released the address; an error other than an
    -- absent record is passed on with nothing done in Calico, and an error of Calico changes
    -- nothing in the cluster and no other address.
    pub fixed_release_address-Ends :
        IsOwn (V net laws.kv_laws w) (released r) → GivesUp (release_address net is_v4 hostname r) w
    unfolding release_address
    fixed_release_address-Ends own =
        catch-Ends (unassign_fixed_ip net (released r)) pure
          (λ e.
            if is_not_allocated e then CalicoIpam.release_address net is_v4 hostname r else fail e)
          w
          (Ends-both (unassign_fixed_ip-Ends net laws.kv_laws (released r) w own)
            (unassign_fixed_ip-Apart net (released r) w))
          (λ u w' (t, q). returns (fixed_back t q)) (λ e u (h, q). passed_on e u h q)
