-- ===== src/Tests/Containers.antt =====
-- The loops of vessel/helper.go at concrete inputs.
use barrel.Prelude.{List, [], ◌∷◌, ◌≡◌, ◌≢◌, refl, inl, inr, some, none}
use barrel.Types.{ok, err, kv_not_exists, Container, Pool}
use barrel.Types.Status.{matches, mark}
use barrel.Store.Client.{View, replace}
use barrel.Store.Etcd.{get, update_else_get, delete, put}
use barrel.Codecs.{
  ip_info_key, container_info_key, encode_ip_info, decode_ip_info, encode_attrs, decode_attrs,
  encode_container, decode_container, encode_container_info, decode_container_info, encode_ip,
  decode_ip, encode_network, decode_network,
}
use barrel.Vessel.World.{Ends, WorldOf}
use barrel.Vessel.CalicoPool.{unalloc_ip, included}
use barrel.Vessel.FixedPool.Steps.{key_of as ip_key_of}
use barrel.Vessel.FixedPool.{unalloc_fixed_ip, alloc_fixed_ip}
use barrel.Vessel.Helper.{
  reserve_loop, release_container_addresses_by_ip_pools, reserve_address_for_container,
}
use barrel.Vessel.Helper.Record.{key_of}
use barrel.Vessel.Helper.Turns.{IsReady, IsProper, Failed, Finished}
use barrel.Vessel.Helper.Release.{HasReleased, release_container_addresses_by_ip_pools-Ends}
use barrel.Vessel.Helper.Reserve.{Reserves, reserve_loop-Ends, reserve_loop-first}
use barrel.Tests.Memory.{memory, memory_laws, clients, ip9, container9, holding, world}
use barrel.Tests.Pools.{neighbour, start}

abbrev c9 : Container
c9 = record { id = "c9"; host_name = "node" }

abbrev pools9 : List Pool
pools9 = record { name = "pool"; cidr = "10.0.0.0/24"; gateway = "0.0.0.0/0" } ∷ []

-- The record of the container stands beside that of its address.
abbrev recorded : View
recorded =
    replace holding (key_of c9)
      (some (record { value = encode_container_info container9; version = 1 }))

neighbour-IsProper : IsProper memory c9 neighbour
unfolding container_info_key
neighbour-IsProper v (inl gone) = inl gone
neighbour-IsProper v (inr (i, n, st)) =
    inr (i, n, record { entry = st.entry; same_container = st.same_container })

abbrev busy : WorldOf clients
busy = world recorded (neighbour ∷ neighbour ∷ [])

busy-IsReady : IsReady clients memory_laws c9 busy
unfolding container_info_key
busy-IsReady = record {
  own = inr (container9, 1, record { entry = refl; same_container = refl });
  proper = (neighbour-IsProper, (neighbour-IsProper, tt));
}

release_container_addresses_by_ip_pools-Ends_example :
    Ends
      (HasReleased clients memory_laws c9 pools9 busy)
      (Failed clients memory_laws c9)
      (release_container_addresses_by_ip_pools clients c9 pools9 busy)
release_container_addresses_by_ip_pools-Ends_example =
    release_container_addresses_by_ip_pools-Ends clients memory_laws c9 pools9 busy busy-IsReady

reserve_loop-Ends_example :
    Ends
      (Finished clients memory_laws c9 (Reserves clients memory_laws c9 ip9) busy)
      (Failed clients memory_laws c9)
      (reserve_loop clients c9 ip9 busy)
reserve_loop-Ends_example = reserve_loop-Ends clients memory_laws c9 ip9 busy busy-IsReady

reserve_loop-first_example : reserve_loop clients c9 ip9 start ≢ (ok (some tt), start)
unfolding ip_info_key container_info_key
reserve_loop-first_example =
    reserve_loop-first clients memory_laws c9 ip9 start start (some tt) refl refl

-- The first reservation writes the record, answers with an error, and the second one succeeds.
first_reservation :
    let (r, w) = reserve_address_for_container clients "node" c9 ip9 start in
    (r ≡ err kv_not_exists) × ((reserve_address_for_container clients "node" c9 ip9 w).0 ≡ ok tt)
unfolding reserve_address_for_container alloc_fixed_ip get update_else_get put ip_info_key
    container_info_key decode_ip_info encode_ip_info encode_attrs decode_attrs encode_container
    decode_container encode_container_info decode_container_info encode_ip decode_ip matches mark
first_reservation = (refl, refl)

-- The release takes the record of the address away.
released :
    let (r, w) = release_container_addresses_by_ip_pools clients c9 pools9 (world recorded []) in
    (r ≡ ok tt) × (w.shared.store (ip_key_of ip9) ≡ none)
unfolding release_container_addresses_by_ip_pools unalloc_fixed_ip get update_else_get delete
    ip_info_key container_info_key decode_ip_info encode_ip_info encode_attrs decode_attrs
    encode_container decode_container encode_container_info decode_container_info encode_ip
    decode_ip encode_network decode_network matches mark unalloc_ip included
released = (refl, refl)
