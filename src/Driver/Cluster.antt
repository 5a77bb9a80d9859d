-- ===== src/Driver/Cluster.antt =====
-- What driver/calico/network.go calls: the Calico datastore, and the links of the host. Neither is in the
-- repository, so both are a parameter, with the hypotheses of `ClusterLaws`.
use barrel.Prelude.{
  String, Bool, true, false, ◌&&◌, List, [], ◌∷◌, Option, none, some, ◌≡◌, ◌⊎◌, string_eq, ◌==◌,
  if◌then◌else◌,
}
use barrel.Types.{Error, IsForeign}
use barrel.Method.{M, Ends}

-- `api.IPPool`: what is read of it and its annotations.
pub record PoolObject : Type 0 where
  pub name : String
  pub cidr : String
  pub annotations : List (String × String)

-- `api.WorkloadEndpoint`
pub record WorkloadEndpoint : Type 0 where
  pub name : String
  pub namespace : String
  pub endpoint : String
  pub node : String
  pub orchestrator : String
  pub workload : String
  pub interface_name : String
  pub mac : String
  pub ip_networks : List String
  pub profiles : List String
  pub labels : List (String × String)

-- `api.Profile`: egress is allowed, and ingress from what the selector chooses.
pub record Profile : Type 0 where
  pub name : String
  pub selector : String

-- What Calico answers when a profile is to be made.
pub data Creation : Type 0 where
  made already_exists : Creation
  refused : Error → Creation

pub record Cluster (H : Type 0) : Type 0 where
  pub list_pools : M H (List PoolObject)
  pub update_pool : PoolObject → M H (Unit {0})
  pub get_profile : String → M H (Unit {0})
  pub create_profile : Profile → H → Creation × H
  pub create_endpoint : WorkloadEndpoint → M H (Unit {0})
  pub get_endpoint : String → String → M H WorkloadEndpoint
  pub update_endpoint : WorkloadEndpoint → M H (Unit {0})
  pub delete_endpoint : String → String → M H (Unit {0})
  pub create_veth : String → String → M H (Unit {0})
  pub remove_veth : String → M H (Unit {0})
  pub link_mac : String → M H String
  pub link_local : String → H → Option String

-- What the datastore and the host hold.
pub record View : Type 0 where
  pub pools : List PoolObject
  pub endpoints : String → String → Option WorkloadEndpoint
  pub profiles : String → Bool
  pub links : String → Bool

abbrev pub put_endpoint : String → String → Option WorkloadEndpoint → View → View
put_endpoint space name e v = record v {
  endpoints = λ n k. if (space == n) && (name == k) then e else v.endpoints n k;
}

abbrev pub with_endpoint : WorkloadEndpoint → View → View
with_endpoint e v = put_endpoint e.namespace e.name (some e) v

abbrev pub with_profile : String → View → View
with_profile name v = record v { profiles = λ k. if name == k then true else v.profiles k }

abbrev pub with_link : String → Bool → View → View
with_link name b v = record v { links = λ k. if name == k then b else v.links k }

abbrev replaced : PoolObject → PoolObject → PoolObject
replaced p q = if q.name == p.name then p else q

abbrev pub replace_pool : PoolObject → List PoolObject → List PoolObject
replace_pool p [] = []
replace_pool p (q ∷ qs) = replaced p q ∷ replace_pool p qs

-- What a write that fails leaves of `v`, where `done` is what it would make of it.
abbrev pub Perhaps : View → View → View → Type 0
Perhaps v done v' = (v' ≡ v) ⊎ (v' ≡ done)

abbrev pub Creates : View → Profile → Creation → View → Type 0
Creates v p made v' = v' ≡ with_profile p.name v
Creates v p already_exists v' = (v.profiles p.name ≡ true) × (v' ≡ v)
Creates v p (refused e) v' = IsForeign e × Perhaps v (with_profile p.name v) v'

-- An object that is updated takes the place of the object of its name. A write that fails, as when its
-- time is over, has been made or not. No error is one of the repository's own.
pub record ClusterLaws {H : Type 0} (cluster : Cluster H) : Type 0 where
  pub view : H → View
  pub list_pools_Ends :
      (h : H)
      → Ends
          (λ ps h'. (ps ≡ (view h).pools) × (view h' ≡ view h))
          (λ e h'. IsForeign e × (view h' ≡ view h))
          (cluster.list_pools h)
  pub update_pool_Ends :
      (p : PoolObject) (h : H)
      → Ends
          (λ _ h'. view h' ≡ record (view h) { pools = replace_pool p (view h).pools })
          (λ e h'.
            IsForeign e
            × Perhaps
                (view h)
                (record (view h) { pools = replace_pool p (view h).pools })
                (view h'))
          (cluster.update_pool p h)
  pub get_profile_Ends :
      (name : String) (h : H)
      → Ends
          (λ _ h'. ((view h).profiles name ≡ true) × (view h' ≡ view h))
          (λ e h'. IsForeign e × (view h' ≡ view h))
          (cluster.get_profile name h)
  pub create_profile_made :
      (p : Profile) (h : H)
      → Creates (view h) p (cluster.create_profile p h).0 (view (cluster.create_profile p h).1)
  pub create_endpoint_Ends :
      (e : WorkloadEndpoint) (h : H)
      → Ends
          (λ _ h'. view h' ≡ with_endpoint e (view h))
          (λ d h'. IsForeign d × Perhaps (view h) (with_endpoint e (view h)) (view h'))
          (cluster.create_endpoint e h)
  pub get_endpoint_Ends :
      (space name : String) (h : H)
      → Ends
          (λ e h'. ((view h).endpoints space name ≡ some e) × (view h' ≡ view h))
          (λ d h'. IsForeign d × (view h' ≡ view h))
          (cluster.get_endpoint space name h)
  pub update_endpoint_Ends :
      (e : WorkloadEndpoint) (h : H)
      → Ends
          (λ _ h'. view h' ≡ with_endpoint e (view h))
          (λ d h'. IsForeign d × Perhaps (view h) (with_endpoint e (view h)) (view h'))
          (cluster.update_endpoint e h)
  pub delete_endpoint_Ends :
      (space name : String) (h : H)
      → Ends
          (λ _ h'. view h' ≡ put_endpoint space name none (view h))
          (λ d h'. IsForeign d × Perhaps (view h) (put_endpoint space name none (view h)) (view h'))
          (cluster.delete_endpoint space name h)
  pub create_veth_Ends :
      (host temp : String) (h : H)
      → Ends
          (λ _ h'. view h' ≡ with_link host true (view h))
          (λ d h'. IsForeign d × Perhaps (view h) (with_link host true (view h)) (view h'))
          (cluster.create_veth host temp h)
  pub remove_veth_Ends :
      (host : String) (h : H)
      → Ends
          (λ _ h'. view h' ≡ with_link host false (view h))
          (λ d h'. IsForeign d × Perhaps (view h) (with_link host false (view h)) (view h'))
          (cluster.remove_veth host h)
  pub link_mac_Ends :
      (name : String) (h : H)
      → Ends
          (λ _ h'. view h' ≡ view h)
          (λ e h'. IsForeign e × (view h' ≡ view h))
          (cluster.link_mac name h)
