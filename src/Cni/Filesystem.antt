-- ===== src/Cni/Filesystem.antt =====
-- cni/store/filesystem: the endpoints as files, links and mounts in one directory.
pub mod View
pub mod Calls
pub mod Moves
pub mod Tenants
pub mod Lookup
pub mod Links
pub mod Endpoints
pub mod Deletion
pub mod Count
pub mod Contracts
use mathlib.Core.Bool.{cond}
use barrel.Prelude.{
  if◌then◌else◌, ℕ, suc, String, Bool, true, false, not, Option, none, some, List, [], ◌∷◌, ◌==◌,
  string_eq,
}
use barrel.Types.{Error, other}
use barrel.Method.{M, on_error, ◌>>=◌, ◌>>◌, catch, pure, fail, fail_if, log_error}
use barrel.Cni.Endpoint.{
  FilePath, path_eq, NetEndpoint, base, netns_path, tenant_path, owner_path, flock_path,
}
use barrel.Cni.Files.{
  Disk, is_exist, is_not_exist, open_excl, symlink, remove, readlink, open_file, flock, read_file,
  write, create, mount, unmount, stat, lstat, read_dir,
}
use barrel.Cni.Store.{EndpointStore}

-- What the process does at a call through a nil pointer.
abbrev pub nil_dereference : Error
nil_dereference = other "invalid memory address or nil pointer dereference"

abbrev pub remains : Error
remains = other "file remains existing"

-- Any failure of `Stat` counts as absence.
unfoldable pub assert_file_not_exists : List FilePath → M Disk (Unit {0})
assert_file_not_exists [] = pure tt
assert_file_not_exists (p ∷ ps) =
    catch (stat p) (λ _. fail remains) (λ e. assert_file_not_exists ps)

abbrev pub none_if_missing : Error → M Disk (Option NetEndpoint)
none_if_missing e = cond (is_not_exist e) (pure none) (fail e)

pub count_links : NetEndpoint → ℕ → List (FilePath × Bool) → M Disk ℕ
count_links nep rc [] = pure rc
count_links nep rc ((p, false) ∷ ps) = count_links nep rc ps
count_links nep rc ((p, true) ∷ ps) = do
  target ← readlink p
  count_links nep (if target == nep.netns then suc rc else rc) ps

abbrev pub flock_of : FilePath → Error → M Disk FilePath
flock_of p e = cond (is_exist e) (open_file p >> pure p) (fail e)

abbrev pub endpoint_at : FilePath → String → NetEndpoint
endpoint_at q text = record { ipv4 = base q; netns = q; owner = text }

module _ (root : String) where
  pub linked_endpoint : String → M Disk (Option NetEndpoint)
  linked_endpoint id = do
    is_symlink ← lstat (netns_path root id)
    fail_if (not is_symlink) (other "invalid data, should've been a symlink")
    q ← readlink (netns_path root id)
    text ← read_file (owner_path root (base q))
    pure (some (endpoint_at q text))

  unfoldable pub get_net_endpoint_by_id : String → M Disk (Option NetEndpoint)
  unfolding linked_endpoint
  get_net_endpoint_by_id id =
      catch (stat (netns_path root id)) (λ _. linked_endpoint id) none_if_missing

  abbrev pub own_endpoint : String → String → NetEndpoint
  own_endpoint ip text = record { ipv4 = ip; netns = netns_path root ip; owner = text }

  unfoldable pub get_net_endpoint_by_ip : String → M Disk (Option NetEndpoint)
  get_net_endpoint_by_ip ip =
      catch (stat (netns_path root ip))
        (λ _. read_file (owner_path root ip) >>= λ text. pure (some (own_endpoint ip text)))
        none_if_missing

  unfoldable pub connect_net_endpoint : String → NetEndpoint → M Disk (Unit {0})
  connect_net_endpoint id nep =
      catch (symlink nep.netns (netns_path root id)) pure
        (λ e. cond (is_exist e) (pure tt) (fail e))

  unfoldable pub disconnect_net_endpoint : String → NetEndpoint → M Disk (Unit {0})
  unfolding assert_file_not_exists
  disconnect_net_endpoint id nep =
      log_error (remove (netns_path root id)) >> assert_file_not_exists (netns_path root id ∷ [])

  -- Where the mount fails there is no endpoint yet whose file the deferred call could remove.
  abbrev pub mount_endpoint : String → String → String → M Disk NetEndpoint
  mount_endpoint netns id ip =
      catch (mount netns (netns_path root ip)) (λ _. pure (own_endpoint ip id))
        (λ e. fail nil_dereference)

  abbrev pub fill_endpoint : String → String → String → M Disk NetEndpoint
  fill_endpoint netns id ip =
      write (owner_path root ip) id >> create (netns_path root ip) >> mount_endpoint netns id ip

  unfoldable pub create_net_endpoint : String → String → String → M Disk NetEndpoint
  create_net_endpoint netns id ip =
      open_excl (owner_path root ip)
      >> on_error (fill_endpoint netns id ip) (remove (owner_path root ip))

  unfoldable pub delete_net_endpoint : NetEndpoint → M Disk (Unit {0})
  unfolding assert_file_not_exists
  delete_net_endpoint nep = do
    log_error (remove (tenant_path root nep.ipv4))
    log_error (remove (owner_path root nep.ipv4))
    log_error (remove (flock_path root nep.ipv4))
    log_error (unmount (netns_path root nep.ipv4))
    log_error (remove (netns_path root nep.ipv4))
    assert_file_not_exists (
        tenant_path root nep.ipv4
        ∷ owner_path root nep.ipv4
        ∷ netns_path root nep.ipv4
        ∷ flock_path root nep.ipv4
        ∷ [])

  unfoldable pub occupy_net_endpoint : String → NetEndpoint → M Disk (Unit {0})
  occupy_net_endpoint id nep =
      open_excl (tenant_path root nep.ipv4) >> write (tenant_path root nep.ipv4) id

  unfoldable pub free_net_endpoint : String → NetEndpoint → M Disk (Unit {0})
  unfolding assert_file_not_exists
  free_net_endpoint id nep = do
    tenant ← read_file (tenant_path root nep.ipv4)
    fail_if (not (tenant == id)) (other "invalid free request, id not match")
    log_error (remove (tenant_path root nep.ipv4))
    assert_file_not_exists (tenant_path root nep.ipv4 ∷ [])

  abbrev with_tenant : NetEndpoint → ℕ → M Disk ℕ
  with_tenant nep rc = catch (stat (tenant_path root nep.ipv4)) (λ _. pure (suc rc)) (λ e. pure rc)

  unfoldable pub get_net_endpoint_refcount : NetEndpoint → M Disk ℕ
  unfolding count_links
  get_net_endpoint_refcount nep = do
    files ← read_dir root
    rc ← count_links nep 0 files
    with_tenant nep rc

  -- A lock is known by the path of its file.
  unfoldable pub get_flock : String → M Disk FilePath
  get_flock ip =
      catch (open_excl (flock_path root ip)) (λ _. pure (flock_path root ip))
        (flock_of (flock_path root ip))

  unfoldable pub fs_store : EndpointStore Disk
  unfolding get_net_endpoint_by_id get_net_endpoint_by_ip connect_net_endpoint
      disconnect_net_endpoint create_net_endpoint delete_net_endpoint occupy_net_endpoint
      free_net_endpoint get_net_endpoint_refcount get_flock
  fs_store = record {
    Flock = FilePath;
    get_net_endpoint_by_id = get_net_endpoint_by_id;
    get_net_endpoint_by_ip = get_net_endpoint_by_ip;
    connect_net_endpoint = connect_net_endpoint;
    disconnect_net_endpoint = disconnect_net_endpoint;
    create_net_endpoint = create_net_endpoint;
    delete_net_endpoint = delete_net_endpoint;
    occupy_net_endpoint = occupy_net_endpoint;
    free_net_endpoint = free_net_endpoint;
    get_net_endpoint_refcount = get_net_endpoint_refcount;
    get_flock = get_flock;
    lock = λ f. flock;
    unlock = λ f. flock;
  }
