-- ===== src/Proxy/Removal.antt =====
-- proxy/docker/remove.go, netdisconn.go and prune.go: what a container held is released once the
-- daemon has removed or disconnected it.
pub mod Laws
pub mod Disconnect
pub mod Run
use barrel.Prelude.{
  ℕ, String, Bool, true, false, not, ◌&&◌, ◌||◌, List, [], ◌∷◌, ◌++◌, Option, none, some, nat_eq,
  string_eq, ◌==◌, if◌then◌else◌, any, concat,
}
use barrel.Types.{Result, ok, err, Error, Pool, Container, container_not_exists}
use barrel.Method.{M, pure, fail, catch, log_error, ◌>>=◌, ◌>>◌}
use barrel.Resources.{recycle_mounts}
use barrel.Vessel.World.{Clients}
use barrel.Vessel.Helper.{release_container_addresses, release_container_addresses_by_ip_pools}
use barrel.Cni.Store.{EndpointStore}
use barrel.Cni.Machine.{Machine, Runtime}
use barrel.Cni.Base.{remove_network}
use barrel.Proxy.Daemon.{
  Daemon, Site, Request, Response, ContainerInspect, on_vessel, on_daemon, given, inspect,
  get_pools_by_network_name,
}
use barrel.Proxy.Connect.{
  Answer, passed_on, forwarded, label_at, is_unsupervised, is_fixed_ip_label_enabled,
  get_container_info,
}

-- What a handler leaves to run on its own (`go handler.release...`).
pub data Task : Type 0 where
  release_resources : ContainerInspect → Bool → Task
  release_by_pools : String → List Pool → Task
  release_each : List String → Task

-- A response of the handler's own, and the rest.
pub data Reply : Type 0 where
  answered : Answer → Reply
  refused : ℕ → Reply

abbrev volume_label : Option String → Bool → Bool
volume_label none def = def
volume_label (some val) def =
    if val == "shared"
    then false
    else if val == "unique"
    then true
    else if val == "borrowed"
    then false
    else def

-- `shouldRemoveVolumes`; without labels the map is empty.
unfoldable pub should_remove_volumes : List (String × String) → Bool → Bool
should_remove_volumes labels def = volume_label (label_at labels "volume-auto-res") def

-- `isFixedIPCNIContainer`
unfoldable pub is_fixed_ip_cni_container : ContainerInspect → Bool
is_fixed_ip_cni_container info =
    (info.runtime == "barrel-cni") && any (λ e. e == "fixed-ip=1") info.env

abbrev pub sources : List String → List String
sources [] = []
sources (s ∷ ss) = let rest = sources ss in if s == "" then rest else s ∷ rest

abbrev pub container : String → String → Container
container hostname id = record { id = id; host_name = hostname }

-- The vessel and the daemon, the machine of the CNI handlers, and the paths that are removed.
pub record Host (net : Clients) (D S H : Type 0) : Type 0 where
  pub site : Site net D
  pub machine : Machine S H
  pub removed : List String

module _ {net : Clients} {D S H : Type 0} where
  abbrev pub on_site : {A : Type 0} → M (Site net D) A → M (Host net D S H) A
  on_site m w = let (r, s) = m w.site in (r, record w { site = s })

  abbrev pub on_machine : {A : Type 0} → M (Machine S H) A → M (Host net D S H) A
  on_machine m w = let (r, s) = m w.machine in (r, record w { machine = s })

  -- `RecycleMounts`, which removes files.
  abbrev pub remove_mounts : List String → List String → M (Host net D S H) (Unit {0})
  remove_mounts prefixes paths w =
      (ok tt, record w { removed = w.removed ++ recycle_mounts prefixes paths })

module _ (net : Clients) {D S H : Type 0} (store : EndpointStore S) (rt : Runtime H)
    (hostname : String) (prefixes : List String) where
  abbrev pub release_reserved_ip : String → M (Host net D S H) (Unit {0})
  release_reserved_ip id =
      log_error (on_site (on_vessel (release_container_addresses net (container hostname id))))

  abbrev pub release_network : ContainerInspect → M (Host net D S H) (Unit {0})
  release_network info =
      if is_fixed_ip_cni_container info
      then log_error (on_machine (remove_network store rt info.id))
      else release_reserved_ip info.id

  abbrev pub release_mounts : ContainerInspect → Bool → M (Host net D S H) (Unit {0})
  release_mounts info remove_volumes =
      if remove_volumes then remove_mounts prefixes (sources info.sources) else pure tt

  abbrev pub release_reserved_ips : List String → M (Host net D S H) (Unit {0})
  release_reserved_ips [] = pure tt
  release_reserved_ips (id ∷ ids) = release_reserved_ip id >> release_reserved_ips ids

  -- `releaseResources`, `releaseReservedAddresses` and `releaseReservedIPs`
  unfoldable pub run_task : Task → M (Host net D S H) (Unit {0})
  run_task (release_resources info remove_volumes) =
      release_network info >> release_mounts info remove_volumes
  run_task (release_by_pools id pools) = log_error (
      on_site
        (on_vessel (release_container_addresses_by_ip_pools net (container hostname id) pools)))
  run_task (release_each ids) = release_reserved_ips ids

module _ (net : Clients) {D : Type 0} (docker : Daemon D) where
  abbrev pub Handled : Type 0
  Handled = M (Site net D) (Reply × Option Task)

  abbrev pub done : Reply → Handled
  done r = pure (r, none)

  abbrev pub is_gone : ℕ → Bool
  is_gone status = (status == 204) || (status == 404)

  abbrev pub after_delete : ContainerInspect → Bool → Response → Handled
  after_delete info volumes resp =
      if is_gone resp.status
      then pure (
        answered (forwarded resp),
        some (release_resources info (volumes && should_remove_volumes info.labels true)),
      )
      else done (answered (forwarded resp))

  abbrev pub not_inspected : Error → Handled
  not_inspected container_not_exists = done (refused 404)
  not_inspected _ = done (refused 500)

  abbrev pub delete_matched : Request → Option (String × String) → Bool → Handled
  delete_matched req none volumes = done (answered passed_on)
  delete_matched req (some (version, identifier)) volumes =
      catch (inspect net docker identifier version)
        (λ info.
          catch (on_daemon (docker.request req)) (after_delete info volumes)
            (λ e. done (refused 502)))
        not_inspected

  -- `Handle` of `containerDeleteHandler`; `find` is the regular expression with the version and the
  -- container of a path, and `volumes` the query's `v`.
  unfoldable pub handle_delete_container :
      (String → Option (String × String)) → Bool → Request → Handled
  handle_delete_container find volumes req =
      delete_matched req (if req.method == "DELETE" then find req.path else none) volumes

  abbrev pub after_disconnect : ContainerInspect → List Pool → Response → Handled
  after_disconnect info pools resp =
      if is_fixed_ip_label_enabled info && (resp.status == 200)
      then pure (answered (forwarded resp), some (release_by_pools info.id pools))
      else done (answered (forwarded resp))

  abbrev pub disconnect : Request → String → List Pool → Handled
  disconnect req version pools = do
    text ← given req.body
    body ← given (docker.unmarshal_object text)
    info ← get_container_info net docker version body
    resp ← on_daemon (docker.request (record req { body = ok text }))
    after_disconnect info pools resp

  abbrev pub disconnect_matched : String → Request → Option (String × String) → Handled
  disconnect_matched driver_name req none = done (answered passed_on)
  disconnect_matched driver_name req (some (version, network)) =
      catch (get_pools_by_network_name net docker driver_name network) (disconnect req version)
        (λ e. if is_unsupervised e then done (answered passed_on) else fail e)

  -- `Handle` of `networkDisconnectHandler`
  unfoldable pub handle_disconnect :
      String → (String → Option (String × String)) → Request → Handled
  handle_disconnect driver_name find req =
      disconnect_matched driver_name req (if req.method == "POST" then find req.path else none)
