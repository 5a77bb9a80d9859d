-- ===== src/Proxy/Daemon/Calm.antt =====
-- What the questions to the docker daemon leave alone in the vessel.
use barrel.Prelude.{ℕ, String, not, inl, inr, Bool-cases, nat_eq, string_eq, ◌==◌}
use barrel.Types.{
  Result, ok, err, no_container_ident, wrong_api_version, container_not_exists,
  unsupervised_network, configured_pool_unfound,
}
use barrel.Method.Keeps.{Keeps, Keeps-result, Keeps-fail, Keeps-fail_if, Keeps->>=, Keeps->>}
use barrel.Vessel.World.{Clients, ClientLaws, WorldOf, M, Ends, returns, fails, fail_if}
use barrel.Vessel.CalicoPool.{get_pools_by_cidrs}
use barrel.Vessel.CalicoPool.Alloc.{Quiet}
use barrel.Vessel.CalicoPool.Subnets.{Quiet-refl, Quiet-trans, get_pools_by_cidrs-Keeps}
use barrel.Proxy.Daemon.{
  Daemon, Site, Response, on_vessel, on_daemon, given, is_nil, inspect_request, inspect_failed,
  read_inspect, inspected, inspect, get_pools_by_network_name,
}

module _ (net : Clients) (laws : ClientLaws net) {D : Type 0} where
  -- Calico hands out what it handed out before, and the cluster is not touched.
  abbrev pub Calm : Site net D → Site net D → Type 0
  Calm w u = Quiet net laws w.vessel u.vessel

  pub Calm-refl : (w : Site net D) → Calm w w
  Calm-refl w = Quiet-refl net laws w.vessel

  pub Calm-trans : (u v w : Site net D) → Calm u v → Calm v w → Calm u w
  Calm-trans u v w p q = Quiet-trans net laws u.vessel v.vessel w.vessel p q

  pub daemon-Calm : {A : Type 0} (m : M D A) → Keeps Calm (on_daemon m)
  daemon-Calm {A} m w = asked (m w.daemon).0 (m w.daemon).1
    where
      asked :
          (r : Result A) (d : D)
          → Ends (λ _ u. Calm w u) (λ _ u. Calm w u) (r, record w { daemon = d })
      asked (ok a) d = returns (Calm-refl w)
      asked (err e) d = fails (Calm-refl w)

  pub vessel-Calm :
      {A : Type 0} (m : M (WorldOf net) A) → Keeps (Quiet net laws) m → Keeps Calm (on_vessel m)
  vessel-Calm {A} m h w = lifted (h w.vessel)
    where
      lifted :
          {r : Result A × WorldOf net}
          → Ends (λ _ v. Quiet net laws w.vessel v) (λ _ v. Quiet net laws w.vessel v) r
          → Ends (λ _ u. Calm w u) (λ _ u. Calm w u) (r.0, record w { vessel = r.1 })
      lifted (returns q) = returns q
      lifted (fails q) = fails q

  module _ (docker : Daemon D) where
    read-Calm : (status : ℕ) (text : String) → Keeps Calm (read_inspect net docker status text)
    read-Calm status text w = elim (Bool-cases (status == 200)) [
      | inl fine ↦ rw fine (Keeps-result Calm Calm-refl (docker.read_container text) w)
      | inr bad ↦ rw bad (Keeps-fail Calm Calm-refl (inspect_failed net docker text) w)
    ]

    inspected-Calm : (resp : Response) → Keeps Calm (inspected net docker resp)
    inspected-Calm resp =
        Keeps->> Calm Calm-trans (fail_if (resp.status == 404) container_not_exists) _
          (Keeps-fail_if Calm Calm-refl (resp.status == 404) container_not_exists)
          (Keeps->>= Calm Calm-trans (given resp.body) _ (Keeps-result Calm Calm-refl resp.body)
            (λ text. read-Calm resp.status text))

    pub inspect-Calm :
        (identifier version : String) → Keeps Calm (inspect net docker identifier version)
    unfolding inspect
    inspect-Calm identifier version =
        Keeps->> Calm Calm-trans (fail_if (identifier == "") no_container_ident) _
          (Keeps-fail_if Calm Calm-refl (identifier == "") no_container_ident)
          (Keeps->> Calm Calm-trans (fail_if (version == "") wrong_api_version) _
            (Keeps-fail_if Calm Calm-refl (version == "") wrong_api_version)
            (Keeps->>= Calm Calm-trans
              (on_daemon (docker.request (inspect_request net docker identifier version))) _
              (daemon-Calm (docker.request (inspect_request net docker identifier version)))
              inspected-Calm))

    pub pools-Calm :
        (driver_name name : String)
        → Keeps Calm (get_pools_by_network_name net docker driver_name name)
    unfolding get_pools_by_network_name
    pools-Calm driver_name name =
        Keeps->>= Calm Calm-trans (on_daemon (docker.inspect_network name)) _
          (daemon-Calm (docker.inspect_network name))
          (λ network.
            Keeps->> Calm Calm-trans
              (fail_if (not (network.driver == driver_name)) unsupervised_network) _
              (Keeps-fail_if Calm Calm-refl (not (network.driver == driver_name))
                unsupervised_network)
              (Keeps->> Calm Calm-trans (fail_if (is_nil network.subnets) configured_pool_unfound) _
                (Keeps-fail_if Calm Calm-refl (is_nil network.subnets) configured_pool_unfound)
                (vessel-Calm (get_pools_by_cidrs net network.subnets)
                  (get_pools_by_cidrs-Keeps net laws network.subnets))))
