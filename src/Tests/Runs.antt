-- ===== src/Tests/Runs.antt =====
-- Runs of the operations at concrete inputs.
use barrel.Prelude.{true, false, [], ◌∷◌, none, some, ◌≡◌, refl}
use barrel.Prelude.Int.{pos}
use barrel.Types.{ok, Pool, Container}
use barrel.Types.Status.{matches, mark}
use barrel.Json.{null, int, string, nil, cons, Fields, end, field}
use barrel.Json.Object.{get as get_member, has, keys}
use barrel.Json.Raw.{
  new_node, new_number_node, unmarshal_object, unmarshal_array, mapping, slice, member, no_member,
  item, no_item, float64, text,
}
use barrel.Store.Etcd.{get, put, delete, get_and_delete, update_else_get}
use barrel.Codecs.{
  ip_info_codec, ip_info_key, container_info_key, encode_ip_info, decode_ip_info, encode_attrs,
  decode_attrs, encode_container, decode_container, encode_container_info, decode_container_info,
  encode_ip, decode_ip, encode_network, decode_network,
}
use barrel.Vessel.World.{WorldOf}
use barrel.Vessel.CalicoPool.{
  alloc_ip, unalloc_ip, alloc_ip_from_pool, alloc_ip_from_pools, get_pool_by_id, get_pool_by_cidr,
  get_pools_by_cidrs, get_default_pool,
}
use barrel.Vessel.FixedPool.{
  alloc_fixed_ip, alloc_fixed_ip_from_pools, unalloc_fixed_ip, borrow_fixed_ip, return_fixed_ip,
}
use barrel.Vessel.FixedPool.Steps.{key_of}
use barrel.Vessel.Helper.{release_container_addresses, init_container_info_record}
use barrel.Proxy.Members.{get_string_member}
use barrel.Tests.Memory.{clients, memory, empty, nothing_assigned, ip9, info9, holding, world}
use barrel.Tests.Stores.{second, cluster}
use barrel.Tests.Documents.{small_floats}

-- Nothing is stored and nothing assigned.
abbrev fresh : WorldOf clients
fresh = record { shared = record { store = empty; others = [] }; ipam = nothing_assigned }

abbrev the_pool : Pool
the_pool = record { cidr = "10.0.0.0/24"; name = "pool"; gateway = "0.0.0.0/0" }

abbrev guest : Container
guest = record { id = "c9"; host_name = "node" }

-- A fixed address is allocated, and then its record stands in the store, not in use.
allocated :
    let (r, w) = alloc_fixed_ip clients "node" ip9 fresh in
    (r ≡ ok tt)
    × (w.shared.store (key_of ip9) ≡ some (record { value = encode_ip_info info9; version = 1 }))
    × (w.ipam "10.0.0.9" ≡ true)
unfolding alloc_fixed_ip alloc_ip get put ip_info_key encode_ip_info encode_attrs decode_ip_info
    decode_attrs matches
allocated = (refl, refl, refl)

-- The pool hands out its one address, and has none for a second call.
allocated_from_pools :
    let (r, w) = alloc_fixed_ip_from_pools clients "node" (the_pool ∷ []) fresh in
    (r ≡ ok (record { ip = ip9; version = 4 })) × (w.ipam "10.0.0.9" ≡ true)
unfolding alloc_fixed_ip_from_pools alloc_ip_from_pools alloc_ip_from_pool put ip_info_key
allocated_from_pools = (refl, refl)

pool_found : get_pool_by_id clients "pool" fresh ≡ (ok the_pool, fresh)
unfolding get_pool_by_id
pool_found = refl

pool_of_cidr : get_pool_by_cidr clients "10.0.0.0/24" fresh ≡ (ok the_pool, fresh)
unfolding get_pool_by_cidr
pool_of_cidr = refl

pools_of_cidrs : get_pools_by_cidrs clients ("10.0.0.0/24" ∷ []) fresh ≡ (ok (the_pool ∷ []), fresh)
unfolding get_pools_by_cidrs
pools_of_cidrs = refl

default_pool : (get_default_pool false).cidr ≡ "0.0.0.0/0"
unfolding get_default_pool
default_pool = refl

taken_out :
    let (r, s) = get_and_delete memory second cluster in
    (r ≡ ok (record { ip_info = info9; version = 0 })) × (s.store (key_of ip9) ≡ none)
unfolding get_and_delete ip_info_key decode_ip_info encode_ip_info encode_attrs decode_attrs
taken_out = (refl, refl)

-- A container that borrows an address gives it back when it is released, and the address is free.
borrowed_and_released :
    let (r, w) = init_container_info_record clients guest (ip9 ∷ []) (world holding []) in
    let (s, u) = release_container_addresses clients guest w in
    (r ≡ ok tt) × (s ≡ ok tt) × (u.shared.store (key_of ip9) ≡ none) × (u.ipam "10.0.0.9" ≡ false)
unfolding init_container_info_record release_container_addresses borrow_fixed_ip return_fixed_ip
    unalloc_fixed_ip get put delete get_and_delete update_else_get ip_info_key container_info_key
    decode_ip_info encode_ip_info encode_attrs decode_attrs encode_container decode_container
    encode_container_info decode_container_info encode_ip decode_ip encode_network decode_network
    matches mark unalloc_ip
borrowed_and_released = (refl, refl, refl, refl)

abbrev pair : Fields
pair = field "a" null (field "b" (string "x") end)

both_listed : keys pair ≡ "a" ∷ "b" ∷ []
unfolding keys
both_listed = refl

only_listed_found : (has pair "b" ≡ true) × (has pair "c" ≡ false)
unfolding has get_member
only_listed_found = (refl, refl)

text_read : (get_string_member pair "b" ≡ ok "x") × (get_string_member pair "a" ≡ ok "")
unfolding get_string_member get_member
text_read = (refl, refl)

object_read :
    unmarshal_object small_floats (mapping (member "n" (float64 3) no_member))
    ≡ ok (field "n" (int (pos 3)) end)
unfolding unmarshal_object new_node new_number_node
object_read = refl

array_read :
    unmarshal_array small_floats (slice (item (text "x") no_item)) ≡ ok (cons (string "x") nil)
unfolding unmarshal_array new_node
array_read = refl
