-- ===== src/Proxy/Removal/Run.antt =====
-- What the release of a removed container touches.
use barrel.Prelude.{String, Bool, true, false, List, ◌≡◌, refl}
use barrel.Vessel.World.{Clients}
use barrel.Cni.Store.{EndpointStore}
use barrel.Cni.Machine.{Runtime}
use barrel.Proxy.Daemon.{ContainerInspect}
use barrel.Proxy.Removal.{Host, release_resources, is_fixed_ip_cni_container, run_task}

module _ (net : Clients) {D S H : Type 0} (store : EndpointStore S) (rt : Runtime H)
    (hostname : String) (prefixes : List String) where
  -- The release of a container under CNI with a fixed address leaves the vessel alone.
  pub run_task_under_cni :
      (info : ContainerInspect) (volumes : Bool) (w : Host net D S H)
      → is_fixed_ip_cni_container info ≡ true
      → (run_task net store rt hostname prefixes (release_resources info volumes) w).1.site ≡ w.site
  unfolding run_task
  run_task_under_cni info true w cni = rw cni refl
  run_task_under_cni info false w cni = rw cni refl

  -- The release of any other leaves the endpoints alone.
  pub run_task_elsewhere :
      (info : ContainerInspect) (volumes : Bool) (w : Host net D S H)
      → is_fixed_ip_cni_container info ≡ false
      → (run_task net store rt hostname prefixes (release_resources info volumes) w).1.machine
        ≡ w.machine
  unfolding run_task
  run_task_elsewhere info true w plain = rw plain refl
  run_task_elsewhere info false w plain = rw plain refl
