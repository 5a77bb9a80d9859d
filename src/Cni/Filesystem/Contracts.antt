-- ===== src/Cni/Filesystem/Contracts.antt =====
-- The store of cni/store/filesystem against the contracts of Cni.Store.
use barrel.Prelude.{String, refl}
use barrel.Method.{Ends-mono}
use barrel.Cni.Endpoint.{netns_path}
use barrel.Cni.Files.{Disk, flock}
use barrel.Cni.Store.{EndpointStoreLaws, Book, Meets, refines, Untouched}
use barrel.Cni.Filesystem.{fs_store}
use barrel.Cni.Filesystem.View.{Stands}
use barrel.Cni.Filesystem.Calls.{flock-Ends}
use barrel.Cni.Filesystem.Moves.{unmoved}
use barrel.Cni.Filesystem.Lookup.{get_net_endpoint_by_id_lem, get_net_endpoint_by_ip_lem}
use barrel.Cni.Filesystem.Links.{
  connect_net_endpoint_lem, disconnect_net_endpoint_lem, get_flock_lem,
}
use barrel.Cni.Filesystem.Endpoints.{create_net_endpoint_lem}
use barrel.Cni.Filesystem.Deletion.{delete_net_endpoint_lem}
use barrel.Cni.Filesystem.Tenants.{occupy_lem, free_lem}
use barrel.Cni.Filesystem.Count.{get_net_endpoint_refcount_lem}

flock_lem : (root : String) (b : Book) → Meets (Stands root) Untouched b flock
flock_lem root b = refines (Stands root) (Untouched {A = Unit {0}}) b (λ d st.
    Ends-mono (flock-Ends d) (λ u d' same. (b, refl, unmoved root same st))
      (λ e d' (f, same). (b, (f, refl), unmoved root same st)))

-- In a directory where only paths of namespaces are links, each call of the store of
-- cni/store/filesystem answers and changes the book that the directory stands for as its contract
-- in Cni.Store says, and leaves such a directory, whichever calls of the system fail, where
-- `os.Stat` and `os.Lstat` fail only for a path that leads nowhere.
pub fs_store-EndpointStoreLaws :
    (root : String) → EndpointStoreLaws Disk (fs_store root) (Stands root) (netns_path root)
unfolding fs_store
fs_store-EndpointStoreLaws root = record {
  gets_by_id = λ id b. get_net_endpoint_by_id_lem root b id;
  gets_by_ip = λ ip b. get_net_endpoint_by_ip_lem root b ip;
  connects = connect_net_endpoint_lem root;
  disconnects = disconnect_net_endpoint_lem root;
  creates = create_net_endpoint_lem root;
  deletes = delete_net_endpoint_lem root;
  occupies = occupy_lem root;
  frees = free_lem root;
  counts = get_net_endpoint_refcount_lem root;
  gets_flock = get_flock_lem root;
  locks = λ f. flock_lem root;
  unlocks = λ f. flock_lem root;
}
