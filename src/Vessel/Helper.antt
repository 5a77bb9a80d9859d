-- ===== src/Vessel/Helper.antt =====
-- `Helper` of vessel/helper.go: the addresses that a container holds.
pub mod Record
pub mod Turns
pub mod Reserve
pub mod Release
use barrel.Prelude.{
  ℕ, zero, suc, Bool, true, false, not, ◌&&◌, List, [], ◌∷◌, ◌++◌, Option, none, some, String,
  string_eq, nat_eq, ◌==◌, if◌then◌else◌, keep, any, length,
}
use barrel.Types.{
  Result, ok, err, Error, is_not_exists, err_but_other_then_kv_unexists_err, Pool, Ip, Container,
  ContainerInfo,
}
use barrel.Store.Etcd.{get, put, get_and_delete, update_else_get}
use barrel.Codecs.{ContainerInfoCodec, container_info_codec}
use barrel.Vessel.World.{Clients, WorldOf, M, pure, fail, ◌>>=◌, ◌>>◌, catch, log_error, on_store}
use barrel.Vessel.CalicoPool.{included}
use barrel.Vessel.FixedPool.{borrow_fixed_ip, return_fixed_ip, unalloc_fixed_ip, alloc_fixed_ip}

-- How one turn of an unbounded loop ends: the loop turns again with this codec, or it returns.
pub data Step (A : Type 0) : Type 0 where
  again : ContainerInfoCodec → Step A
  done : A → Step A

-- A codec of a new record: `types.ContainerInfo{Container: ...}`.
abbrev pub codec_of : Container → ContainerInfoCodec
codec_of container = record {
  info = record { container = container; networks = []; addresses = [] };
  version = 0;
}

abbrev pub with_addresses : ContainerInfoCodec → List Ip → ContainerInfoCodec
with_addresses c ips = record c { info = record (c.info) { addresses = ips } }

abbrev pub same_ip : Ip → Ip → Bool
same_ip a b = (a.pool_id == b.pool_id) && (a.address == b.address)

abbrev pub in_pools : List Pool → List Ip → List Ip
in_pools pools = keep (λ (a : Ip). included pools a.pool_id)

abbrev pub outside_pools : List Pool → List Ip → List Ip
outside_pools pools = keep (λ (a : Ip). not (included pools a.pool_id))

-- The answer of `UpdateElseGet`: an error first, then the flag and the codec.
abbrev pub swapped_codec : Bool × Result ContainerInfoCodec → Result (Bool × ContainerInfoCodec)
swapped_codec (b, ok c) = ok (b, c)
swapped_codec (b, err e) = err e

module _ (net : Clients) where
  open net use {kv}

  abbrev W : Type 0
  W = WorldOf net

  abbrev pub update_record : ContainerInfoCodec → M W (Bool × ContainerInfoCodec)
  update_record c = on_store (λ s. let (r, s') = update_else_get kv c s in (swapped_codec r, s'))

  abbrev pub stop_or_turn : {A : Type 0} → A → Bool × ContainerInfoCodec → M W (Step A)
  stop_or_turn a (true, c) = pure (done a)
  stop_or_turn a (false, c) = pure (again c)

  abbrev pub next_turn :
      {A : Type 0} → (ContainerInfoCodec → M W (Option A)) → Step A → M W (Option A)
  next_turn later (again c) = later c
  next_turn later (done a) = pure (some a)

  -- The turns of a loop, as many as the fuel allows; `none` when there is none left.
  abbrev pub turns :
      {A : Type 0} → ℕ → (ContainerInfoCodec → M W (Step A)) → ContainerInfoCodec → M W (Option A)
  turns zero f c = pure none
  turns (suc n) f c = f c >>= next_turn (turns n f)

  -- One turn for each change that another client will make, and one more.
  abbrev pub enough : W → ℕ
  enough w = suc (length w.shared.others)

  -- One turn of `ReleaseContainerAddressesByIPPools`: the addresses to release, at the end.
  abbrev pub release_got : List Pool → ContainerInfoCodec → M W (Step (List Ip))
  release_got pools c =
      if length c.info.addresses == 0
      then pure (done [])
      else (update_record (with_addresses c (outside_pools pools c.info.addresses))
          >>= stop_or_turn (in_pools pools c.info.addresses))

  abbrev pub release_turn : List Pool → ContainerInfoCodec → M W (Step (List Ip))
  release_turn pools c =
      catch (on_store (get kv c)) (release_got pools)
        (λ e. if is_not_exists e then pure (done []) else fail e)

  -- Errors are logged.
  abbrev pub unalloc_all : List Ip → M W (Unit {0})
  unalloc_all [] = pure tt
  unalloc_all (ip ∷ ips) = log_error (unalloc_fixed_ip net ip false) >> unalloc_all ips

  abbrev pub unalloc_released : Option (List Ip) → M W (Unit {0})
  unalloc_released none = pure tt
  unalloc_released (some ips) = unalloc_all ips

  -- `ReleaseContainerAddressesByIPPools`
  unfoldable pub release_container_addresses_by_ip_pools : Container → List Pool → M W (Unit {0})
  release_container_addresses_by_ip_pools container pools w =
      (turns (enough w) (release_turn pools) (codec_of container) >>= unalloc_released) w

  abbrev pub give_back_all : Container → List Ip → M W (Unit {0})
  give_back_all container [] = pure tt
  give_back_all container (ip ∷ ips) =
      log_error (return_fixed_ip net ip container)
      >> (log_error (unalloc_fixed_ip net ip false) >> give_back_all container ips)

  -- `ReleaseContainerAddresses`
  unfoldable pub release_container_addresses : Container → M W (Unit {0})
  release_container_addresses container =
      catch (on_store (get_and_delete kv (codec_of container)))
        (λ c. give_back_all container c.info.addresses)
        (λ e. if is_not_exists e then pure tt else fail e)

  abbrev pub reserve_put : ContainerInfoCodec → List Ip → M W (Step (Unit {0}))
  reserve_put c ips = update_record (with_addresses c ips) >>= stop_or_turn tt

  abbrev pub reserve_got : Ip → ContainerInfoCodec → M W (Step (Unit {0}))
  reserve_got ip c =
      if any (λ a. same_ip a ip) c.info.addresses
      then pure (done tt)
      else reserve_put c (c.info.addresses ++ ip ∷ [])

  -- One turn of `ReserveAddressForContainer`, which makes a codec of its own.
  abbrev pub reserve_turn : Container → Ip → ContainerInfoCodec → M W (Step (Unit {0}))
  reserve_turn container ip _ =
      catch (on_store (get kv (codec_of container))) (reserve_got ip) (λ e.
        if err_but_other_then_kv_unexists_err (some e)
        then fail e
        else reserve_put (codec_of container) (ip ∷ []))

  -- The loop of `ReserveAddressForContainer`.
  abbrev pub reserve_loop : Container → Ip → M W (Option (Unit {0}))
  reserve_loop container ip w = turns (enough w) (reserve_turn container ip) (codec_of container) w

  -- `ReserveAddressForContainer`
  unfoldable pub reserve_address_for_container : String → Container → Ip → M W (Unit {0})
  reserve_address_for_container hostname container ip = do
    alloc_fixed_ip net hostname ip
    _ ← reserve_loop container ip
    pure tt

  abbrev pub borrow_all : Container → List Ip → M W (Unit {0})
  borrow_all container [] = pure tt
  borrow_all container (ip ∷ ips) =
      log_error (borrow_fixed_ip net ip container) >> borrow_all container ips

  -- `InitContainerInfoRecord`
  unfoldable pub init_container_info_record : Container → List Ip → M W (Unit {0})
  init_container_info_record container ips = do
    borrow_all container ips
    _ ← on_store (put kv (with_addresses (codec_of container) ips))
    pure tt
