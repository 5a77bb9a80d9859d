-- ===== src/Cni/Base.antt =====
-- cni/subhandler/base.go
pub mod Calls
pub mod Borrow
pub mod Dangling
pub mod Make
use barrel.Prelude.{ℕ, zero, suc, String, Option, none, some}
use barrel.Method.{M, ◌>>=◌, ◌>>◌, pure, on_error, finally}
use barrel.Cni.Endpoint.{NetEndpoint, ContainerMeta, set_netns, netns}
use barrel.Cni.Store.{EndpointStore}
use barrel.Cni.Machine.{Machine, Runtime, on_disk, on_host}

module _ {S H : Type 0} (store : EndpointStore S) (rt : Runtime H) where
  abbrev pub free : String → NetEndpoint → M (Machine S H) (Unit {0})
  free id nep = on_disk (store.free_net_endpoint id nep)

  unfoldable pub borrow_net_endpoint : ContainerMeta → NetEndpoint → M (Machine S H) (Unit {0})
  unfolding set_netns
  borrow_net_endpoint c nep =
      on_disk (store.occupy_net_endpoint c.id nep)
      >> on_error (on_host (rt.save (set_netns c nep.netns))) (free c.id nep)

  abbrev pub settle : ContainerMeta → NetEndpoint → M (Machine S H) (Unit {0})
  settle c nep =
      on_disk (store.connect_net_endpoint c.id nep)
      >> on_error (on_disk (store.occupy_net_endpoint c.id nep))
          (on_disk (store.disconnect_net_endpoint c.id nep))

  unfoldable pub create_net_endpoint : ContainerMeta → M (Machine S H) (Unit {0})
  unfolding netns
  create_net_endpoint c = do
    ipv4 ← on_host (rt.probe_ipv4 (netns c))
    nep ← on_disk (store.create_net_endpoint (netns c) c.id ipv4)
    on_error (settle c nep) (on_disk (store.delete_net_endpoint nep))

  unfoldable pub with_flock : String → M (Machine S H) (Unit {0}) → M (Machine S H) (Unit {0})
  with_flock ip f = do
    flock ← on_disk (store.get_flock ip)
    on_disk (store.lock flock)
    finally f (on_disk (store.unlock flock))

  -- What is done about the count.
  abbrev pub clean_up : NetEndpoint → ℕ → M (Machine S H) (Unit {0})
  clean_up nep (suc n) = pure tt
  clean_up nep zero =
      on_disk (store.delete_net_endpoint nep) >> on_host (rt.delete_network nep.owner)

  unfoldable pub delete_dangling_network : NetEndpoint → M (Machine S H) (Unit {0})
  unfolding with_flock
  delete_dangling_network nep =
      with_flock nep.ipv4
        (on_disk (store.get_net_endpoint_refcount nep) >>= λ count. clean_up nep count)

  abbrev pub disconnect : String → Option NetEndpoint → M (Machine S H) (Unit {0})
  disconnect id none = pure tt
  disconnect id (some nep) =
      on_disk (store.disconnect_net_endpoint id nep) >> delete_dangling_network nep

  unfoldable pub remove_network : String → M (Machine S H) (Unit {0})
  unfolding delete_dangling_network
  remove_network id = on_disk (store.get_net_endpoint_by_id id) >>= λ nep. disconnect id nep
