-- ===== src/Tests/Lending.antt =====
-- `UnallocFixedIP`, `BorrowFixedIP` and `ReturnFixedIP` at concrete inputs.
use barrel.Prelude.{false, ◌≡◌, refl, inl, inr}
use barrel.Prelude.{[], ◌∷◌}
use barrel.Types.{Pool}
use barrel.Vessel.FixedPool.{alloc_fixed_ip_from_pools}
use barrel.Vessel.FixedPool.Alloc.{Recorded, NotRecorded, alloc_fixed_ip_from_pools-Ends}
use barrel.Types.{ok, err, fixed_ip_has_borrower, Container}
use barrel.Types.Status.{matches, mark}
use barrel.Store.Etcd.{get, update_else_get, delete}
use barrel.Codecs.{
  ip_info_key, encode_ip_info, decode_ip_info, encode_attrs, decode_attrs, encode_container,
  decode_container,
}
use barrel.Vessel.World.{Ends}
use barrel.Vessel.CalicoPool.{unalloc_ip}
use barrel.Vessel.FixedPool.{retry_max_count, unalloc_fixed_ip, borrow_fixed_ip, return_fixed_ip}
use barrel.Vessel.FixedPool.Unalloc.{Freed, Keeps, unalloc_fixed_ip-Ends}
use barrel.Vessel.FixedPool.Rounds.{IsReady, IsProper, Within, Stopped}
use barrel.Vessel.FixedPool.Lend.{Borrows, Returns, borrow_fixed_ip-Ends, return_fixed_ip-Ends}
use barrel.Tests.Memory.{memory, memory_laws, clients, client_laws, ip9}
use barrel.Tests.Pools.{neighbour, holding-IsOwn, start, busy_start}

abbrev guest : Container
guest = record { id = "c1"; host_name = "node" }

neighbour-IsProper : IsProper memory ip9 neighbour
unfolding ip_info_key
neighbour-IsProper v (inl gone) = inl gone
neighbour-IsProper v (inr (i, n, st)) =
    inr
      (i, n, record { entry = st.entry; same_pool = st.same_pool; same_address = st.same_address })

busy-IsReady : IsReady clients memory_laws ip9 busy_start
busy-IsReady = record {
  own = holding-IsOwn;
  proper = (neighbour-IsProper, (neighbour-IsProper, tt));
}

unalloc_fixed_ip-Ends_example :
    Ends
      (Freed clients client_laws ip9 false start)
      (Keeps clients client_laws ip9 false start)
      (unalloc_fixed_ip clients ip9 false start)
unfolding ip_info_key
unalloc_fixed_ip-Ends_example =
    unalloc_fixed_ip-Ends clients client_laws ip9 false start refl holding-IsOwn

borrow_fixed_ip-Ends_example :
    Ends
      (λ _ w'.
        Within clients memory_laws ip9
          (Borrows clients memory_laws ip9 guest)
          retry_max_count
          busy_start
          w')
      (Stopped clients memory_laws ip9 retry_max_count busy_start)
      (borrow_fixed_ip clients ip9 guest busy_start)
borrow_fixed_ip-Ends_example =
    borrow_fixed_ip-Ends clients memory_laws ip9 guest busy_start busy-IsReady

return_fixed_ip-Ends_example :
    Ends
      (λ _ w'.
        Within clients memory_laws ip9
          (Returns clients memory_laws ip9 guest)
          retry_max_count
          busy_start
          w')
      (Stopped clients memory_laws ip9 retry_max_count busy_start)
      (return_fixed_ip clients ip9 guest busy_start)
return_fixed_ip-Ends_example =
    return_fixed_ip-Ends clients memory_laws ip9 guest busy_start busy-IsReady

-- An address that is lent is not given up, and is given up once the container returned it.
lent_kept :
    let w = (borrow_fixed_ip clients ip9 guest start).1 in
    (unalloc_fixed_ip clients ip9 false w).0 ≡ err fixed_ip_has_borrower
unfolding unalloc_fixed_ip borrow_fixed_ip get update_else_get delete ip_info_key decode_ip_info
    encode_ip_info encode_attrs decode_attrs encode_container decode_container matches mark
lent_kept = refl

returned_freed :
    let w = (borrow_fixed_ip clients ip9 guest start).1 in
    let u = (return_fixed_ip clients ip9 guest w).1 in
    (unalloc_fixed_ip clients ip9 false u).0 ≡ ok tt
unfolding unalloc_fixed_ip borrow_fixed_ip return_fixed_ip get update_else_get delete ip_info_key
    decode_ip_info encode_ip_info encode_attrs decode_attrs encode_container decode_container
    matches mark unalloc_ip
returned_freed = refl

abbrev the_pool : Pool
the_pool = record { cidr = "10.0.0.0/24"; name = "pool"; gateway = "0.0.0.0/0" }

alloc_fixed_ip_from_pools-Ends_example :
    Ends
      (Recorded clients client_laws start)
      (NotRecorded clients client_laws start)
      (alloc_fixed_ip_from_pools clients "node" (the_pool ∷ []) start)
alloc_fixed_ip_from_pools-Ends_example =
    alloc_fixed_ip_from_pools-Ends clients client_laws "node" (the_pool ∷ []) start
