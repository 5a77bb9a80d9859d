-- ===== src/Proxy/Daemon.antt =====
-- The docker daemon behind the proxy, and what proxy/docker/inspect.go and vessel/docker_network.go
-- ask it.
pub mod Calm
use barrel.Prelude.{
  ℕ, String, Bool, true, false, not, List, [], ◌∷◌, map, Option, none, some, nat_eq, string_eq,
  ◌==◌, if◌then◌else◌, concat, ◌&&◌,
}
use barrel.Types.{
  Result, ok, err, Error, other, Pool, no_container_ident, wrong_api_version, container_not_exists,
  unsupervised_network, configured_pool_unfound,
}
use barrel.Json.{Fields}
use barrel.Vessel.World.{Clients, WorldOf, M, pure, fail, fail_if, ◌>>=◌, ◌>>◌}
use barrel.Vessel.CalicoPool.{get_pools_by_cidrs}

-- What is read of a request: the method, the path and the body.
pub record Request : Type 0 where
  pub method : String
  pub path : String
  pub body : Result String

pub record Response : Type 0 where
  pub status : ℕ
  pub body : Result String

-- Of `dockerTypes.NetworkResource` the driver and the subnets of its address management.
pub record NetworkResource : Type 0 where
  pub driver : String
  pub subnets : List String

-- `containerInspectResult`
pub record ContainerInspect : Type 0 where
  pub id : String
  pub runtime : String
  pub labels : List (String × String)
  pub env : List String
  pub sources : List String

-- The daemon's answers, and the texts of documents as encoding/json reads and writes them.
pub record Daemon (D : Type 0) : Type 0 where
  pub inspect_network : String → M D NetworkResource
  pub request : Request → M D Response
  pub read_container : String → Result ContainerInspect
  pub unmarshal_object : String → Result Fields
  pub marshal : Fields → Result String

pub record Site (net : Clients) (D : Type 0) : Type 0 where
  pub vessel : WorldOf net
  pub daemon : D

module _ {net : Clients} {D A : Type 0} where
  abbrev pub on_vessel : M (WorldOf net) A → M (Site net D) A
  on_vessel m w = let (r, v) = m w.vessel in (r, record w { vessel = v })

  abbrev pub on_daemon : M D A → M (Site net D) A
  on_daemon m w = let (r, d) = m w.daemon in (r, record w { daemon = d })

  abbrev pub given : Result A → M (Site net D) A
  given r w = (r, w)

abbrev pub is_nil : List String → Bool
is_nil [] = true
is_nil (s ∷ ss) = false

module _ (net : Clients) {D : Type 0} (docker : Daemon D) where
  -- `GetPoolsByNetworkName`
  unfoldable pub get_pools_by_network_name : String → String → M (Site net D) (List Pool)
  get_pools_by_network_name driver_name name = do
    network ← on_daemon (docker.inspect_network name)
    fail_if (not (network.driver == driver_name)) unsupervised_network
    fail_if (is_nil network.subnets) configured_pool_unfound
    on_vessel (get_pools_by_cidrs net network.subnets)

  abbrev pub inspect_request : String → String → Request
  inspect_request identifier version = record {
    method = "GET";
    path = concat ("/" ∷ version ∷ "/containers/" ∷ identifier ∷ "/json" ∷ []);
    body = ok "";
  }

  abbrev pub inspect_failed : String → Error
  inspect_failed text =
      if text == "" then other "Container not found" else other "Inspect container error"

  abbrev pub read_inspect : ℕ → String → M (Site net D) ContainerInspect
  read_inspect status text =
      if status == 200 then given (docker.read_container text) else fail (inspect_failed text)

  abbrev pub inspected : Response → M (Site net D) ContainerInspect
  inspected resp = do
    fail_if (resp.status == 404) container_not_exists
    text ← given resp.body
    read_inspect resp.status text

  -- `Inspect` of `containerInspectAgent`
  unfoldable pub inspect : String → String → M (Site net D) ContainerInspect
  inspect identifier version = do
    fail_if (identifier == "") no_container_ident
    fail_if (version == "") wrong_api_version
    resp ← on_daemon (docker.request (inspect_request identifier version))
    inspected resp
