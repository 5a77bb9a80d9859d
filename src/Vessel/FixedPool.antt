-- ===== src/Vessel/FixedPool.antt =====
-- `fixedIPPool` and `fixedIPAllocator` of vessel/fixedippool.go, over the store and the Calico pools.
pub mod Steps
pub mod Assign
pub mod Rounds
pub mod Lend
pub mod Remove
pub mod Alloc
pub mod Unalloc
pub mod Exclusive
pub mod Apart
use barrel.Prelude.{
  ℕ, zero, suc, Bool, true, not, ◌&&◌, List, [], ◌∷◌, ◌++◌, Option, none, some, nat_eq, ◌==◌,
  String, if◌then◌else◌, keep, ltb, length,
}
use barrel.Types.{
  Result, ok, err, Error, ip_in_use, fixed_ip_not_allocated, fixed_ip_has_borrower,
  max_retry_count_exceeded, is_not_exists, Pool, Ip, IpAddress, Container, container_eq, IpInfo,
  IpAttributes,
}
use barrel.Types.Status.{in_use, retired, matches, mark, unmark}
use barrel.Store.Etcd.{Shared, get, put, delete, update_else_get}
use barrel.Codecs.{IpInfoCodec, ip_info_codec}
use barrel.Vessel.World.{
  Clients, WorldOf, M, pure, fail, fail_if, ◌>>=◌, ◌>>◌, catch, log_error, on_store,
}
use barrel.Vessel.CalicoPool.{alloc_ip, unalloc_ip, alloc_ip_from_pools}

-- `types.IPInfo{Address: ip.Address, PoolID: ip.PoolID}` in a codec.
abbrev pub codec_of : Ip → IpInfoCodec
codec_of ip = record {
  ip_info = record {
    container_id = "";
    pool_id = ip.pool_id;
    address = ip.address;
    status = 0;
    attrs = none;
  };
  version = 0;
}

abbrev pub with_status : IpInfoCodec → ℕ → IpInfoCodec
with_status c s = record c { ip_info = record (c.ip_info) { status = s } }

abbrev pub is_in_use : IpInfoCodec → Bool
is_in_use c = matches c.ip_info.status (in_use ∷ [])

abbrev pub borrowers_of : Option IpAttributes → List Container
borrowers_of none = []
borrowers_of (some a) = a.borrowers

abbrev pub with_borrowers : IpInfoCodec → List Container → IpInfoCodec
with_borrowers c bs = record c {
  ip_info = record (c.ip_info) { attrs = some (record { borrowers = bs }) };
}

abbrev pub without : Container → List Container → List Container
without container = keep (λ (b : Container). not (b == container))

abbrev pub retry_max_count : ℕ
retry_max_count = 3

-- The answer of `UpdateElseGet` as its callers here read it: an error first, then the flag.
abbrev pub swapped : {S : Type 0} → (Bool × Result IpInfoCodec) × S → Result Bool × S
swapped ((b, ok _), s) = (ok b, s)
swapped ((b, err e), s) = (err e, s)

module _ (net : Clients) where
  open net use {kv}

  abbrev W : Type 0
  W = WorldOf net

  abbrev pub update : IpInfoCodec → M W Bool
  update c = on_store (λ s. swapped (update_else_get kv c s))

  -- `GetFixedIP`; `none` is a nil `allocateFixedIP`.
  pub get_fixed_ip : Ip → Option (Ip → IpInfoCodec → M W IpInfoCodec) → M W IpInfoCodec
  get_fixed_ip ip allocate = catch (on_store (get kv (codec_of ip))) pure λ e.
      if is_not_exists e
      then elim allocate [ none ↦ fail fixed_ip_not_allocated | some f ↦ f ip (codec_of ip) ]
      else fail e

  abbrev pub assign_got : IpInfoCodec → M W (Unit {0})
  assign_got codec = do
    fail_if (is_in_use codec) ip_in_use
    done ← update (with_status codec (mark codec.ip_info.status (in_use ∷ [])))
    fail_if (not done) ip_in_use

  -- `AssignFixedIP`
  unfoldable pub assign_fixed_ip : Ip → M W (Unit {0})
  unfolding get_fixed_ip
  assign_fixed_ip ip = do codec ← get_fixed_ip ip none; assign_got codec

  abbrev pub unassign_got : IpInfoCodec → M W (Unit {0})
  unassign_got codec =
      if is_in_use codec
      then (update (with_status codec (unmark codec.ip_info.status (in_use ∷ []))) >>= λ done.
          fail_if (not done) ip_in_use)
      else pure tt

  -- `UnassignFixedIP`
  pub unassign_fixed_ip : Ip → M W (Unit {0})
  unfolding get_fixed_ip
  unassign_fixed_ip ip = do codec ← get_fixed_ip ip none; unassign_got codec

  -- What a round of `BorrowFixedIP` does with the record, the later rounds given.
  abbrev pub borrow_got : M W (Unit {0}) → Container → IpInfoCodec → M W (Unit {0})
  borrow_got again container codec = do
    done ← update (with_borrowers codec (borrowers_of codec.ip_info.attrs ++ container ∷ []))
    if done then pure tt else again

  -- `BorrowFixedIP`: the rounds that are left of the loop.
  pub borrow_loop : ℕ → Ip → Container → M W (Unit {0})
  unfolding get_fixed_ip
  borrow_loop zero ip container = fail max_retry_count_exceeded
  borrow_loop (suc n) ip container = do
    codec ← get_fixed_ip ip none
    borrow_got (borrow_loop n ip container) container codec

  unfoldable pub borrow_fixed_ip : Ip → Container → M W (Unit {0})
  unfolding borrow_loop
  borrow_fixed_ip = borrow_loop retry_max_count

  abbrev pub return_got : M W (Unit {0}) → Container → IpInfoCodec → M W (Unit {0})
  return_got again container codec =
      if length (borrowers_of codec.ip_info.attrs) == 0
      then pure tt
      else (update (with_borrowers codec (without container (borrowers_of codec.ip_info.attrs)))
          >>= λ done. if done then pure tt else again)

  -- `ReturnFixedIP`
  pub return_loop : ℕ → Ip → Container → M W (Unit {0})
  unfolding get_fixed_ip
  return_loop zero ip container = fail max_retry_count_exceeded
  return_loop (suc n) ip container = do
    codec ← get_fixed_ip ip none
    return_got (return_loop n ip container) container codec

  unfoldable pub return_fixed_ip : Ip → Container → M W (Unit {0})
  unfolding return_loop
  return_fixed_ip = return_loop retry_max_count

  -- An error of the update that locks the record is logged, and the rest goes on.
  abbrev pub lock : IpInfoCodec → M W (Unit {0})
  lock locked = catch (update locked) (λ done. fail_if (not done) ip_in_use) (λ _. pure tt)

  abbrev pub remove : Ip → IpInfoCodec → M W (Unit {0})
  remove ip locked = on_store (delete kv locked) >>= λ _. unalloc_ip net ip

  abbrev pub unalloc_got : Ip → Bool → IpInfoCodec → M W (Unit {0})
  unalloc_got ip force codec = do
    fail_if (is_in_use codec) ip_in_use
    fail_if (not force && ltb 0 (length (borrowers_of codec.ip_info.attrs))) fixed_ip_has_borrower
    lock (with_status codec (mark codec.ip_info.status (in_use ∷ retired ∷ [])))
    remove ip (with_status codec (mark codec.ip_info.status (in_use ∷ retired ∷ [])))

  -- `UnallocFixedIP`
  unfoldable pub unalloc_fixed_ip : Ip → Bool → M W (Unit {0})
  unfolding get_fixed_ip
  unalloc_fixed_ip ip force = do codec ← get_fixed_ip ip none; unalloc_got ip force codec

  -- `createFixedIP`
  pub create_fixed_ip : String → Ip → IpInfoCodec → M W IpInfoCodec
  create_fixed_ip hostname ip codec = do alloc_ip net hostname ip; on_store (put kv codec)

  -- `AllocFixedIP`
  unfoldable pub alloc_fixed_ip : String → Ip → M W (Unit {0})
  unfolding get_fixed_ip create_fixed_ip
  alloc_fixed_ip hostname ip = do
    codec ← get_fixed_ip ip (some (create_fixed_ip hostname))
    fail_if (is_in_use codec) ip_in_use

  -- `AllocFixedIPFromPools`
  unfoldable pub alloc_fixed_ip_from_pools : String → List Pool → M W IpAddress
  alloc_fixed_ip_from_pools hostname pools = do
    ip ← alloc_ip_from_pools net hostname pools
    catch (on_store (put kv (codec_of ip.ip))) (λ _. pure ip)
        (λ e. log_error (unalloc_ip net ip.ip) >> fail e)
