-- ===== src/Driver/FixedIpam.antt =====
-- driver/fixedip/ipam.go: fixed addresses first, and Calico's for the rest.
pub mod Laws
use barrel.Prelude.{String, Bool, true, false, not, ◌==◌, string_eq, if◌then◌else◌}
use barrel.Types.{Error, fixed_ip_not_allocated}
use barrel.Vessel.World.{Clients, WorldOf, M, pure, fail, fail_if, catch, ◌>>◌}
use barrel.Vessel.FixedPool.{assign_fixed_ip, unassign_fixed_ip}
use barrel.Driver.CalicoIpam.{
  RequestAddressRequest, ReleaseAddressRequest, check_options, no_gateway, ip_address_to_cidr,
  requested, released,
}
use barrel.Driver.CalicoIpam

abbrev pub is_not_allocated : Error → Bool
is_not_allocated fixed_ip_not_allocated = true
is_not_allocated _ = false

module _ (net : Clients) (is_v4 : String → Bool) (hostname : String) where
  abbrev W : Type 0
  W = WorldOf net

  abbrev pub request_fixed : RequestAddressRequest → M W String
  request_fixed r =
      catch (assign_fixed_ip net (requested r)) (λ _. pure (ip_address_to_cidr is_v4 r.address))
        (λ e.
          if is_not_allocated e then CalicoIpam.request_address net is_v4 hostname r else fail e)

  -- `RequestAddress`
  unfoldable pub request_address : RequestAddressRequest → M W String
  request_address r =
      fail_if (not (check_options r.options)) no_gateway
      >> (if r.address == ""
          then CalicoIpam.request_address net is_v4 hostname r
          else request_fixed r)

  -- `ReleaseAddress`
  unfoldable pub release_address : ReleaseAddressRequest → M W (Unit {0})
  release_address r =
      catch (unassign_fixed_ip net (released r)) pure (λ e.
        if is_not_allocated e then CalicoIpam.release_address net is_v4 hostname r else fail e)
