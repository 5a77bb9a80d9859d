-- ===== src/Driver/CalicoIpam.antt =====
-- driver/calico/ipam.go, on the allocator of vessel/calicoippool.go.
pub mod Laws
use barrel.Prelude.{
  String, Bool, true, false, not, List, [], ◌∷◌, ◌==◌, string_eq, if◌then◌else◌, concat,
}
use barrel.Types.{Error, other, Pool, Ip, IpAddress}
use barrel.Vessel.World.{Clients, WorldOf, M, pure, fail, fail_if, ◌>>=◌, ◌>>◌}
use barrel.Vessel.CalicoPool.{
  alloc_ip, unalloc_ip, alloc_ip_from_pool, get_pool_by_cidr, get_default_pool,
}

-- A `map[string]string`: its pairs, the first of a name counts.
abbrev pub Options : Type 0
Options = List (String × String)

abbrev pub option_at : Options → String → String
option_at [] k = ""
option_at ((j, v) ∷ os) k = if j == k then v else option_at os k

-- The requests and answers of `go-plugins-helpers/ipam`, less the fields that are not read.
pub record RequestPoolRequest : Type 0 where
  pub pool : String
  pub sub_pool : String
  pub options : Options
  pub v6 : Bool

pub record RequestPoolResponse : Type 0 where
  pub pool_id : String
  pub pool : String
  pub gateway : String

pub record RequestAddressRequest : Type 0 where
  pub pool_id : String
  pub address : String
  pub options : Options

pub record ReleaseAddressRequest : Type 0 where
  pub pool_id : String
  pub address : String

abbrev pub requested : RequestAddressRequest → Ip
requested r = record { pool_id = r.pool_id; address = r.address }

abbrev pub released : ReleaseAddressRequest → Ip
released r = record { pool_id = r.pool_id; address = r.address }

unfoldable pub check_options : Options → Bool
check_options options = not (option_at options "RequestAddressType" == "com.docker.network.gateway")

abbrev pub no_gateway : Error
no_gateway = other "Calico IPAM does not support specifying a gateway"

abbrev pub ipv4_to_cidr : String → String
ipv4_to_cidr ip = concat (ip ∷ "/" ∷ "32" ∷ [])

abbrev pub ipv6_to_cidr : String → String
ipv6_to_cidr ip = concat (ip ∷ "/" ∷ "128" ∷ [])

abbrev pub is_empty : Options → Bool
is_empty [] = true
is_empty (o ∷ os) = false

-- `is_v4` tells what `net.ParseIP` reads as an IPv4 address.
module _ (is_v4 : String → Bool) where
  unfoldable pub ip_address_to_cidr : String → String
  ip_address_to_cidr ip = if is_v4 ip then ipv4_to_cidr ip else ipv6_to_cidr ip

module _ (net : Clients) where
  abbrev W : Type 0
  W = WorldOf net

  abbrev response_of : Pool → RequestPoolResponse
  response_of p = record { pool_id = p.name; pool = p.cidr; gateway = p.gateway }

  abbrev pool_for : RequestPoolRequest → M W Pool
  pool_for r = if r.pool == "" then pure (get_default_pool r.v6) else get_pool_by_cidr net r.pool

  unfoldable pub request_pool : RequestPoolRequest → M W RequestPoolResponse
  request_pool r = do
    fail_if (not (r.sub_pool == "")) (other "Calico IPAM does not support sub pool configuration")
    fail_if (not (is_empty r.options)) (other "Arbitrary options are not supported")
    p ← pool_for r
    pure (response_of p)

  module _ (is_v4 : String → Bool) (hostname : String) where
    abbrev pub any_address : RequestAddressRequest → M W String
    any_address r =
        alloc_ip_from_pool net hostname r.pool_id >>= λ a. pure (ip_address_to_cidr is_v4 a.address)

    abbrev pub that_address : RequestAddressRequest → M W String
    that_address r =
        alloc_ip net hostname (requested r) >> pure (ip_address_to_cidr is_v4 r.address)

    -- `RequestAddress`; the answer is its one field.
    unfoldable pub request_address : RequestAddressRequest → M W String
    unfolding check_options
    request_address r =
        fail_if (not (check_options r.options)) no_gateway
        >> (if r.address == "" then any_address r else that_address r)

    -- `ReleaseAddress`
    unfoldable pub release_address : ReleaseAddressRequest → M W (Unit {0})
    release_address r = unalloc_ip net (released r)
