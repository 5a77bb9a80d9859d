-- ===== src/Proxy/Connect/Check.antt =====
-- `checkOrRequestFixedIP`: when an address is reserved, and where the request then names it.
use barrel.Prelude.{
  String, true, false, ◌&&◌, List, Option, none, some, ◌≡◌, refl, inl, inr, Bool-cases, string_eq,
  ◌==◌, beq_iff, arith,
}
use barrel.Types.{Result, ok, err, Error, Pool, Ip, IpAddress}
use barrel.Json.{Any, string, object, Fields}
use barrel.Json.Object.{get, set, get-set_self}
use barrel.Vessel.World.{Clients, ClientLaws, WorldOf, M, Ends, returns, fails, pure, ◌>>=◌}
use barrel.Vessel.FixedPool.Alloc.{Recorded, NotRecorded, alloc_fixed_ip_from_pools-Ends}
use barrel.Proxy.Members.{ensure_object_member, get_string_member}
use barrel.Proxy.Daemon.{Daemon, Site, given}
use barrel.Proxy.Connect.{
  Nested, get_ipam_config, body_with, address_key, with_address, request_address, request_unless,
  check_or_request_fixed_ip,
}

-- The member of the configuration in a body.
pub data Names (body : Fields) (key : String) (v : Any) : Type 0 where
  names : (n : Nested) → get_ipam_config body ≡ ok n → get n.ipam key ≡ some v → Names body key v

get_ipam_config-body_with :
    (n : Nested) (ipam : Fields)
    → get_ipam_config (body_with n ipam)
      ≡ ok (record {
        ipam = ipam;
        endpoint = set n.endpoint "IPAMConfig" (object ipam);
        body = body_with n ipam;
      })
unfolding get_ipam_config ensure_object_member
get_ipam_config-body_with n ipam =
    rw
      (
        get-set_self n.body "EndpointConfig" (object (set n.endpoint "IPAMConfig" (object ipam))),
        get-set_self n.endpoint "IPAMConfig" (object ipam),
      )
      refl

with_address-Names :
    (n : Nested) (a : IpAddress)
    → Names (body_with n (with_address n.ipam a)) (address_key a) (string a.address)
with_address-Names n a =
    names _ (get_ipam_config-body_with n (with_address n.ipam a))
      (get-set_self n.ipam (address_key a) (string a.address))

blank_texts :
    (n : Nested) (v4 v6 : String)
    → ((v4 == "") && (v6 == "")) ≡ true
    → get_string_member n.ipam "IPv4Address" ≡ ok v4
    → get_string_member n.ipam "IPv6Address" ≡ ok v6
    → (get_string_member n.ipam "IPv4Address" ≡ ok "")
      × (get_string_member n.ipam "IPv6Address" ≡ ok "")
blank_texts n v4 v6 blank four six = ground (arith, beq_iff v4 "", beq_iff v6 "")

module _ (net : Clients) (laws : ClientLaws net) {D : Type 0} (docker : Daemon D) where
  -- Of a configuration without an address, the request gets one that was free and is recorded; of any
  -- other the request is left.
  pub data Requested (body : Fields) (w : Site net D)
      : Option Ip × Fields → Site net D → Type 0 where
    asked :
        {w' : Site net D}
        → (n : Nested) (a : IpAddress) (body' : Fields) → get_ipam_config body ≡ ok n
        → (get_string_member n.ipam "IPv4Address" ≡ ok "")
          × (get_string_member n.ipam "IPv6Address" ≡ ok "")
        → Recorded net laws w.vessel a w'.vessel
        → Names body' (address_key a) (string a.address)
        → Requested body w (some a.ip, body') w'
    named :
        (n : Nested) (v4 v6 : String)
        → get_ipam_config body ≡ ok n
        → (get_string_member n.ipam "IPv4Address" ≡ ok v4)
          × (get_string_member n.ipam "IPv6Address" ≡ ok v6)
        → ((v4 == "") && (v6 == "")) ≡ false
        → Requested body w (none, body_with n n.ipam) w

  pub data NotRequested (body : Fields) (w : Site net D) (e : Error) (w' : Site net D)
      : Type 0 where
    malformed : w' ≡ w → NotRequested body w e w'
    unserved : NotRecorded net laws w.vessel e w'.vessel → NotRequested body w e w'

  module _ (hostname : String) (pools : List Pool) (body : Fields) (w : Site net D) where
    abbrev Checks : M (Site net D) (Option Ip × Fields) → Type 0
    Checks m = Ends (Requested body w) (NotRequested body w) (m w)

    served :
        (n : Nested)
        → get_ipam_config body ≡ ok n
        → (get_string_member n.ipam "IPv4Address" ≡ ok "")
          × (get_string_member n.ipam "IPv6Address" ≡ ok "")
        → Checks (request_address net docker hostname pools n)
    served n here blank = done (alloc_fixed_ip_from_pools-Ends net laws hostname pools w.vessel)
      where
        done :
            {o : Result IpAddress × WorldOf net}
            → Ends (Recorded net laws w.vessel) (NotRecorded net laws w.vessel) o
            → Ends (Requested body w) (NotRequested body w) (
                ((λ _. (o.0, record w { vessel = o.1 })) >>= λ a.
                pure (some a.ip, body_with n (with_address n.ipam a)))
                  w)
        done (returns {a} h) =
            returns (
              asked n a (body_with n (with_address n.ipam a)) here blank h (with_address-Names n a))
        done (fails h) = fails (unserved h)

    decided :
        (n : Nested) (v4 v6 : String)
        → get_ipam_config body ≡ ok n
        → get_string_member n.ipam "IPv4Address" ≡ ok v4
        → get_string_member n.ipam "IPv6Address" ≡ ok v6
        → Checks (request_unless net docker hostname pools n v4 v6)
    decided n v4 v6 here four six = elim (Bool-cases ((v4 == "") && (v6 == ""))) [
      | inl blank ↦ rw blank (served n here (blank_texts n v4 v6 blank four six))
      | inr full ↦ rw full (returns (named n v4 v6 here (four, six) full))
    ]

    checked_by :
        (n : Nested) (r4 r6 : Result String)
        → get_ipam_config body ≡ ok n
        → get_string_member n.ipam "IPv4Address" ≡ r4
        → get_string_member n.ipam "IPv6Address" ≡ r6
        → Checks
            (given r4 >>= λ v4. given r6 >>= λ v6. request_unless net docker hostname pools n v4 v6)
    checked_by n (err e) r6 here four six = fails (malformed refl)
    checked_by n (ok v4) (err e) here four six = fails (malformed refl)
    checked_by n (ok v4) (ok v6) here four six = decided n v4 v6 here four six

    checked_in :
        (c : Result Nested)
        → get_ipam_config body ≡ c
        → Checks (
            given c >>= λ n. given (get_string_member n.ipam "IPv4Address") >>= λ v4.
            given (get_string_member n.ipam "IPv6Address") >>= λ v6.
            request_unless net docker hostname pools n v4 v6)
    checked_in (err e) here = fails (malformed refl)
    checked_in (ok n) here = checked_by n _ _ here refl refl

    -- Where neither address of the configuration in the body is named, `checkOrRequestFixedIP`
    -- reserves one that was free when it was called, and the configuration in the new body names
    -- it; where one is named nothing is reserved and the configuration stays; an error comes
    -- before anything is done, or from the allocator.
    pub check_or_request_fixed_ip-Ends :
        Checks (check_or_request_fixed_ip net docker hostname pools body)
    unfolding check_or_request_fixed_ip
    check_or_request_fixed_ip-Ends = checked_in (get_ipam_config body) refl
