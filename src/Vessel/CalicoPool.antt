-- ===== src/Vessel/CalicoPool.antt =====
-- `calicoIPPoolmanager` and `calicoIPAllocator` of vessel/calicoippool.go, over the Calico client.
pub mod Alloc
pub mod Subnets
use barrel.Prelude.{
  String, Bool, true, false, List, [], ◌∷◌, ◌++◌, Option, none, some, ◌==◌, string_eq, nat_eq,
  if◌then◌else◌, any,
}
use barrel.Types.{other, Pool, Ip, IpAddress}
use barrel.Vessel.World.{Clients, WorldOf, M, pure, fail, ◌>>=◌, catch, on_ipam}
use barrel.Vessel.CalicoClient.{IpNet, IpPool, AutoAssignArgs}

abbrev pub pool_id_v4 : String
pool_id_v4 = "CalicoPoolIPv4"

abbrev pub pool_id_v6 : String
pool_id_v6 = "CalicoPoolIPv6"

abbrev pub default_address : String
default_address = "0.0.0.0/0"

abbrev pub address_any : String
address_any = "::/0"

-- `included`
unfoldable pub included : List Pool → String → Bool
included pools pool_id = any (λ (pool : Pool). pool.name == pool_id) pools

-- `GetDefaultPool`
unfoldable pub get_default_pool : Bool → Pool
get_default_pool true = record { name = pool_id_v6; cidr = address_any; gateway = address_any }
get_default_pool false = record {
  name = pool_id_v4;
  cidr = default_address;
  gateway = default_address;
}

abbrev gateway_of : IpNet → String
gateway_of net = if net.version == 4 then default_address else address_any

abbrev pool_of : IpPool → IpNet → Pool
pool_of p net = record { cidr = p.cidr; name = p.name; gateway = gateway_of net }

module _ (net : Clients) where
  open net use {cal}

  abbrev W : Type 0
  W = WorldOf net

  abbrev pub parsed : String → M W IpNet
  parsed cidr w = (cal.parse_cidr cidr, w)

  -- `AllocIP`
  unfoldable pub alloc_ip : String → Ip → M W (Unit {0})
  alloc_ip hostname ip = on_ipam (cal.assign_ip hostname ip.address)

  -- `UnallocIP`
  unfoldable pub unalloc_ip : Ip → M W (Unit {0})
  unalloc_ip ip = on_ipam (cal.release_ip ip.address)

  abbrev pub args_of : String → IpNet → AutoAssignArgs
  args_of hostname n = record {
    num4 = if n.version == 4 then 1 else 0;
    num6 = if n.version == 4 then 0 else if n.version == 6 then 1 else 0;
    hostname = hostname;
    ipv4_pools = if n.version == 4 then n ∷ [] else [];
    ipv6_pools = if n.version == 4 then [] else if n.version == 6 then n ∷ [] else [];
  }

  -- The switch on the pool's name.
  abbrev pub assign_args : String → String → M W AutoAssignArgs
  assign_args hostname pool_id =
      if pool_id == pool_id_v4
      then pure
          (record { num4 = 1; num6 = 0; hostname = hostname; ipv4_pools = []; ipv6_pools = [] })
      else if pool_id == pool_id_v6
      then pure
          (record { num4 = 0; num6 = 1; hostname = hostname; ipv4_pools = []; ipv6_pools = [] })
      else (on_ipam (cal.get_pool pool_id) >>= λ p.
          parsed p.cidr >>= λ n. pure (args_of hostname n))

  abbrev pub single : String → List IpNet → M W IpAddress
  single pool_id (n ∷ []) =
      pure (record { ip = record { pool_id = pool_id; address = n.address }; version = n.version })
  single pool_id _ = fail (other "Unexpected number of assigned IP addresses")

  -- `AllocIPFromPool`
  unfoldable pub alloc_ip_from_pool : String → String → M W IpAddress
  alloc_ip_from_pool hostname pool_id = do
    args ← assign_args hostname pool_id
    ips ← on_ipam (cal.auto_assign args)
    single pool_id (ips.0 ++ ips.1)

  -- The loop over several pools: the first that has an address serves it.
  unfoldable pub alloc_first : String → List Pool → M W IpAddress
  unfolding alloc_ip_from_pool
  alloc_first hostname [] = fail (other "AutoAssign failed")
  alloc_first hostname (p ∷ pools) =
      catch (alloc_ip_from_pool hostname p.name) pure (λ _. alloc_first hostname pools)

  -- `AllocIPFromPools`
  unfoldable pub alloc_ip_from_pools : String → List Pool → M W IpAddress
  unfolding alloc_first
  alloc_ip_from_pools hostname (p ∷ []) = alloc_ip_from_pool hostname p.name
  alloc_ip_from_pools hostname pools = alloc_first hostname pools

  -- `GetPoolByID`
  unfoldable pub get_pool_by_id : String → M W Pool
  get_pool_by_id pool_id = do
    p ← on_ipam (cal.get_pool pool_id)
    n ← parsed p.cidr
    pure (pool_of p n)

  abbrev find_pool : IpNet → List IpPool → M W Pool
  find_pool n [] =
      fail (other "The requested subnet didn't match any CIDR of a configured Calico IP Pool.")
  find_pool n (p ∷ ps) =
      let later = find_pool n ps in if p.cidr == n.text then pure (pool_of p n) else later

  -- `GetPoolByCIDR`
  unfoldable pub get_pool_by_cidr : String → M W Pool
  get_pool_by_cidr cidr = do n ← parsed cidr; pools ← on_ipam cal.list_pools; find_pool n pools

  abbrev pub parse_all : List String → M W (List IpNet)
  parse_all [] = pure []
  parse_all (c ∷ cs) = parsed c >>= λ n. parse_all cs >>= λ nets. pure (n ∷ nets)

  -- The map from the text of a network to the network: of two with one text the later stays.
  abbrev lookup_net : String → List IpNet → Option IpNet
  lookup_net text [] = none
  lookup_net text (n ∷ ns) = elim (lookup_net text ns) [
    | some m ↦ some m
    | none ↦ if n.text == text then some n else none
  ]

  abbrev pub matching : List IpNet → List IpPool → List Pool
  matching nets [] = []
  matching nets (p ∷ ps) =
      let later = matching nets ps in
      elim (lookup_net p.cidr nets) [ some n ↦ pool_of p n ∷ later | none ↦ later ]

  abbrev pub nonempty : List Pool → M W (List Pool)
  nonempty [] =
      fail (other "The requested subnets didn't match any CIDR of a configured Calico IP Pool.")
  nonempty (p ∷ ps) = pure (p ∷ ps)

  -- `GetPoolsByCIDRS`
  unfoldable pub get_pools_by_cidrs : List String → M W (List Pool)
  get_pools_by_cidrs cidrs = do
    nets ← parse_all cidrs
    pools ← on_ipam cal.list_pools
    nonempty (matching nets pools)
