-- ===== src/Cni/Subhandlers.antt =====
-- The subhandlers of cni/subhandler: fixed.go, specific.go, fixed_specific.go and super.go.
use barrel.Prelude.{Option, none, some}
use barrel.Method.{M, ◌>>=◌, ◌>>◌, pure, fail, finally}
use barrel.Cni.Endpoint.{NetEndpoint, ContainerMeta}
use barrel.Cni.Store.{EndpointStore}
use barrel.Cni.Filesystem.{nil_dereference}
use barrel.Cni.Machine.{Machine, Runtime, on_disk, on_host}
use barrel.Cni.Base.{free, borrow_net_endpoint, create_net_endpoint, delete_dangling_network}

pub record Subhandler (W : Type 0) : Type 0 where
  pub handle_create : ContainerMeta → M W (Unit {0})
  pub handle_start : ContainerMeta → M W (Unit {0})
  pub handle_delete : ContainerMeta → M W (Unit {0})

module _ {S H : Type 0} (store : EndpointStore S) (rt : Runtime H) where
  abbrev pub add_hook : ContainerMeta → M (Machine S H) (Unit {0})
  add_hook c = on_host (rt.add_cni_start_hook c) >>= λ c'. on_host (rt.save c')

  abbrev pub hook_or_borrow : ContainerMeta → Option NetEndpoint → M (Machine S H) (Unit {0})
  hook_or_borrow c none = add_hook c
  hook_or_borrow c (some nep) = borrow_net_endpoint store rt c nep

  -- What is done about an endpoint that a container may have when it starts.
  abbrev pub create_if_none : ContainerMeta → Option NetEndpoint → M (Machine S H) (Unit {0})
  create_if_none c none = create_net_endpoint store rt c
  create_if_none c (some nep) = pure tt

  -- The store reads the address of an endpoint that it may not have been given.
  abbrev pub free_or_panic : ContainerMeta → Option NetEndpoint → M (Machine S H) (Unit {0})
  free_or_panic c none = fail nil_dereference
  free_or_panic c (some nep) = free store rt c.id nep

  unfoldable pub fixed : Subhandler (Machine S H)
  fixed = record {
    handle_create =
        λ c. on_disk (store.get_net_endpoint_by_id c.id) >>= λ nep. hook_or_borrow c nep;
    handle_start = λ c. on_disk (store.get_net_endpoint_by_id c.id) >>= λ nep. create_if_none c nep;
    handle_delete = λ c. on_disk (store.get_net_endpoint_by_id c.id) >>= λ nep. free_or_panic c nep;
  }

  -- An endpoint is borrowed under the lock; otherwise the lock is given back first.
  abbrev pub unlock_and :
      store.Flock
      → M (Machine S H) (Unit {0})
      → ContainerMeta
      → Option NetEndpoint
      → M (Machine S H) (Unit {0})
  unlock_and flock otherwise c none = on_disk (store.unlock flock) >> otherwise
  unlock_and flock otherwise c (some nep) =
      finally (borrow_net_endpoint store rt c nep) (on_disk (store.unlock flock))

  abbrev pub create_locked : M (Machine S H) (Unit {0}) → ContainerMeta → M (Machine S H) (Unit {0})
  create_locked otherwise c = do
    flock ← on_disk (store.get_flock c.specific_ip)
    on_disk (store.lock flock)
    nep ← on_disk (store.get_net_endpoint_by_ip c.specific_ip)
    unlock_and flock otherwise c nep

  abbrev pub free_and_clean : ContainerMeta → Option NetEndpoint → M (Machine S H) (Unit {0})
  free_and_clean c none = pure tt
  free_and_clean c (some nep) = free store rt c.id nep >> delete_dangling_network store rt nep

  unfoldable pub specific : Subhandler (Machine S H)
  specific = record {
    handle_create = λ c. create_locked (on_host (rt.handle_create c)) c;
    handle_start = λ c. pure tt;
    handle_delete =
        λ c. on_disk (store.get_net_endpoint_by_ip c.specific_ip) >>= λ nep. free_and_clean c nep;
  }

  abbrev pub connect_or_create : ContainerMeta → Option NetEndpoint → M (Machine S H) (Unit {0})
  connect_or_create c none = create_net_endpoint store rt c
  connect_or_create c (some nep) = on_disk (store.connect_net_endpoint c.id nep)

  unfoldable pub fixed_specific : Subhandler (Machine S H)
  unfolding fixed
  fixed_specific = record {
    handle_create = λ c. create_locked (add_hook c) c;
    handle_start = λ c.
        on_disk (store.get_net_endpoint_by_ip c.specific_ip) >>= λ nep. connect_or_create c nep;
    handle_delete = λ c. fixed.handle_delete c;
  }

  unfoldable pub super : Subhandler (Machine S H)
  super = record {
    handle_create = λ c. on_host (rt.handle_create c);
    handle_start = λ c. on_host (rt.handle_start c);
    handle_delete = λ c. on_host (rt.handle_delete c);
  }
