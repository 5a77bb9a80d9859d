-- ===== src/Driver/FixedNetwork.antt =====
-- driver/fixedip/network.go: the agent is told of the endpoints that the Calico driver has made and
-- removed.
use barrel.Prelude.{ℕ, String, Option, none, some, ◌≡◌, refl, ap}
use barrel.Types.{Result, ok, err, Error}
use barrel.Method.{M, Ends, returns, fails, >>-Ends, Ends-mono, ◌>>◌, ◌>>=◌}
use barrel.Vessel.Agent.Loop.{Agent, notify_endpoint_created, notify_endpoint_removed}
use barrel.Driver.Cluster.{Cluster, ClusterLaws, put_endpoint}
use barrel.Driver.Network.{generate_endpoint_name}
use barrel.Driver.Requests.{Settings, Readers, CreateEndpointRequest, result}
use barrel.Driver.Network
use barrel.Driver.Network.Endpoints.{Created, NotCreated, create_endpoint-Ends}

-- The Calico side, and the agent where there is one.
pub record Node (H : Type 0) : Type 0 where
  pub host : H
  pub agent : Option Agent

abbrev pub on_host : {H A : Type 0} → M H A → M (Node H) A
on_host m w = let (r, h) = m w.host in (r, record w { host = h })

abbrev pub created : String → String → ℕ → Option Agent → Option Agent
created network endpoint now none = none
created network endpoint now (some a) = some (notify_endpoint_created network endpoint now a).0

abbrev pub removed : String → String → ℕ → Option Agent → Option Agent
removed network endpoint now none = none
removed network endpoint now (some a) = some (notify_endpoint_removed network endpoint now a).0

abbrev pub tell : {H : Type 0} → (Option Agent → Option Agent) → M (Node H) (Unit {0})
tell f w = (ok tt, record w { agent = f w.agent })

module _ (driver : Settings) (readers : Readers) {H : Type 0} (cluster : Cluster H) (now : ℕ) where
  -- `CreateEndpoint`
  unfoldable pub create_endpoint : CreateEndpointRequest → M (Node H) (Unit {0})
  create_endpoint r =
      on_host (Network.create_endpoint driver readers cluster r)
      >> tell (created r.network_id r.endpoint_id now)

  -- `DeleteEndpoint`
  unfoldable pub delete_endpoint : String → String → M (Node H) (Unit {0})
  delete_endpoint network id =
      on_host (Network.delete_endpoint driver readers cluster id) >> tell (removed network id now)

  module _ (laws : ClusterLaws cluster) (w : Node H) where
    open laws use {view}

    on_host-Ends :
        {A : Type 0} {Q : A → H → Type 0} {E : Error → H → Type 0} {r : Result A × H}
        → Ends Q E r
        → Ends
            (λ a (u : Node H). Q a u.host × (u.agent ≡ w.agent))
            (λ e u. E e u.host × (u.agent ≡ w.agent))
            (r.0, record w { host = r.1 })
    on_host-Ends (returns h) = returns (h, refl)
    on_host-Ends (fails h) = fails (h, refl)

    told :
        (f : Option Agent → Option Agent) {Q : H → Type 0} {E : Error → H → Type 0}
        (m : M H (Unit {0}))
        → Ends (λ _ h. Q h) E (m w.host)
        → Ends
            (λ _ (u : Node H). Q u.host × (u.agent ≡ f w.agent))
            (λ e u. E e u.host × (u.agent ≡ w.agent))
            ((on_host m >> tell f) w)
    told f m h =
        >>-Ends (on_host m) (tell f) w (on_host-Ends h) (λ u (q, s). returns (q, ap f s))
          (λ e u q. q)

    -- The endpoint's name, and what has become of the endpoint.
    pub data Deleted (id : String) (h h' : H) : Type 0 where
      deleted :
          (name : String)
          → generate_endpoint_name driver readers cluster id ≡ ok name
          → view h' ≡ put_endpoint driver.namespace name none (view h)
          → Deleted id h h'

    delete_endpoint-Ends :
        (id : String) (h : H)
        → Ends
            (λ _ h'. Deleted id h h')
            (λ e h'. Unit)
            (Network.delete_endpoint driver readers cluster id h)
    unfolding Network.delete_endpoint
    delete_endpoint-Ends id h = named (generate_endpoint_name driver readers cluster id) refl
      where
        named :
            (o : Result String)
            → generate_endpoint_name driver readers cluster id ≡ o
            → Ends
                (λ _ h'. Deleted id h h')
                (λ e h'. Unit)
                ((result o >>= λ name. cluster.delete_endpoint driver.namespace name) h)
        named (err e) n = fails tt
        named (ok name) n =
            Ends-mono (laws.delete_endpoint_Ends driver.namespace name h)
              (λ _ h' s. deleted name n s) (λ e h' q. tt)

    -- On a cluster with the laws of `ClusterLaws`, `CreateEndpoint` of the fixed-IP driver
    -- succeeds once an endpoint with the networks, the MAC, the name, the interface and the node
    -- that the request and the driver say has been put, in the profile of the pool that is
    -- annotated with its network where profiles are made, which then is there and is the only
    -- other change, and then the agent has been told. On an error the agent stands as it was; the
    -- request was no fit one, no pool has its network, a call before the last failed, and then no
    -- endpoint has been put, or the call that puts the endpoint has failed.
    pub fixed_create_endpoint-Ends :
        (r : CreateEndpointRequest)
        → Ends
            (λ _ (u : Node H).
              Created driver readers cluster laws r w.host u.host
              × (u.agent ≡ created r.network_id r.endpoint_id now w.agent))
            (λ e u. NotCreated driver readers cluster laws r w.host e u.host × (u.agent ≡ w.agent))
            (create_endpoint r w)
    unfolding create_endpoint
    fixed_create_endpoint-Ends r =
        told (created r.network_id r.endpoint_id now)
          (Network.create_endpoint driver readers cluster r)
          (create_endpoint-Ends driver readers cluster laws r w.host)

    pub fixed_delete_endpoint-Ends :
        (network id : String)
        → Ends
            (λ _ (u : Node H).
              Deleted id w.host u.host × (u.agent ≡ removed network id now w.agent))
            (λ e u. Unit × (u.agent ≡ w.agent))
            (delete_endpoint network id w)
    unfolding delete_endpoint
    fixed_delete_endpoint-Ends network id =
        told (removed network id now) (Network.delete_endpoint driver readers cluster id)
          (delete_endpoint-Ends id w.host)
