-- ===== src/Tests/Pools.antt =====
-- The theorems on the fixed addresses at concrete inputs.
use barrel.Prelude.{
  ℕ, suc, beq_iff, subst, sym, ◌==◌, string_eq, Bool-cases, arith, String, [], ◌∷◌, ◌≡◌, ◌≢◌, refl,
  false, inl, inr,
}
use barrel.Types.{ok, IpInfo}
use barrel.Json.{null}
use barrel.Store.Client.{View, written, version_of}
use barrel.Types.Status.{matches, mark}
use barrel.Store.Etcd.{get, update_else_get}
use barrel.Codecs.{encode_ip_info, decode_ip_info, ip_info_key}
use barrel.Vessel.World.{Ends, WorldOf}
use barrel.Vessel.FixedPool.{assign_fixed_ip, unassign_fixed_ip}
use barrel.Vessel.FixedPool.Steps.{key_of, Stored, IsOwn}
use barrel.Vessel.FixedPool.Assign.{
  Takes, Refused, GivesBack, taken, IsInUse, assign_fixed_ip-Ends, unassign_fixed_ip-Ends,
}
use barrel.Vessel.FixedPool.Exclusive.{at_swap, assign_exclusive, assign_twice, IsHonest}
use barrel.Tests.Memory.{memory, memory_laws, clients, ip9, info9, holding, world}

holding-Stored : Stored holding ip9 info9 2
unfolding ip_info_key
holding-Stored = record { entry = refl; same_pool = refl; same_address = refl }

pub holding-IsOwn : IsOwn holding ip9
holding-IsOwn = inr (info9, 2, holding-Stored)

busy-IsOwn : IsOwn (written holding "neighbour" null) ip9
unfolding ip_info_key
busy-IsOwn = inr (info9, 2, record { entry = refl; same_pool = refl; same_address = refl })

abbrev pub start : WorldOf clients
start = world holding []

assign_fixed_ip-Ends_example :
    Ends
      (Takes clients memory_laws ip9 start)
      (Refused clients memory_laws ip9 start)
      (assign_fixed_ip clients ip9 start)
assign_fixed_ip-Ends_example = assign_fixed_ip-Ends clients memory_laws ip9 start holding-IsOwn

unassign_fixed_ip-Ends_example :
    Ends
      (GivesBack clients memory_laws ip9 start)
      (Refused clients memory_laws ip9 start)
      (unassign_fixed_ip clients ip9 start)
unassign_fixed_ip-Ends_example = unassign_fixed_ip-Ends clients memory_laws ip9 start holding-IsOwn

-- The first call succeeds.
start_assigned : assign_fixed_ip clients ip9 start ≡ (ok tt, (assign_fixed_ip clients ip9 start).1)
unfolding assign_fixed_ip get update_else_get ip_info_key decode_ip_info encode_ip_info matches mark
start_assigned = refl

assign_twice_example :
    assign_fixed_ip clients ip9 (assign_fixed_ip clients ip9 start).1 ≢ (ok tt, start)
unfolding assign_fixed_ip get update_else_get ip_info_key decode_ip_info encode_ip_info matches
assign_twice_example =
    assign_twice clients memory_laws ip9 start _ start holding-IsOwn start_assigned tt

-- Another client that writes a key of its own.
abbrev pub neighbour : View → View
neighbour v = written v "neighbour" null

grown :
    (v : View) (k : String) → "neighbour" ≡ k → suc (version_of (v "neighbour")) ≢ version_of (v k)
grown v k same e =
    let here =
      subst (λ (j : String). suc (version_of (v "neighbour")) ≡ version_of (v j)) (sym same) e in
    omega (arith, here)

neighbour-IsHonest : IsHonest memory neighbour
neighbour-IsHonest v k e = elim (Bool-cases ("neighbour" == k)) [
  | inl hit ↦ absurd (grown v k ((beq_iff "neighbour" k).0 hit) (rw hit at e))
  | inr miss ↦ rw miss refl
]

abbrev pub busy_start : WorldOf clients
busy_start = world holding (neighbour ∷ neighbour ∷ [])

busy_assigned :
    assign_fixed_ip clients ip9 busy_start ≡ (ok tt, (assign_fixed_ip clients ip9 busy_start).1)
unfolding assign_fixed_ip get update_else_get ip_info_key decode_ip_info encode_ip_info matches mark
busy_assigned = refl

assign_exclusive_example :
    let w' = (assign_fixed_ip clients ip9 busy_start).1 in
    let v = at_swap clients memory_laws ip9 busy_start in
    (i : IpInfo) × (n : ℕ) × IsInUse i false
    × Stored v ip9 i n
    × (w'.shared.store ≡ written v (key_of ip9) (encode_ip_info (taken i)))
assign_exclusive_example =
    assign_exclusive clients memory_laws ip9 busy_start _
      (neighbour-IsHonest, (neighbour-IsHonest, tt)) busy-IsOwn busy_assigned
