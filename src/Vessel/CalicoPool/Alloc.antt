-- ===== src/Vessel/CalicoPool/Alloc.antt =====
-- What the calls of calicoippool.go that hand out an address make of what Calico has assigned.
use barrel.Prelude.{
  String, true, false, List, [], ◌∷◌, ◌++◌, ◌≡◌, refl, ◌∙◌, ap, inl, inr, Bool-cases, string_eq,
  ◌==◌,
}
use barrel.Types.{Result, ok, err, Pool, IpAddress}
use barrel.Vessel.World.{
  Clients, ClientLaws, WorldOf, Ends, returns, fails, >>=-Ends, catch-Ends, pure, on_ipam, ◌>>=◌,
}
use barrel.Vessel.CalicoClient.{
  IpNet, IpPool, Assigned, AllFree, Grows, assign, assign_all, AutoAssigns,
}
use barrel.Vessel.CalicoPool.{
  pool_id_v4, pool_id_v6, parsed, args_of, assign_args, single, alloc_ip_from_pool, alloc_first,
  alloc_ip_from_pools,
}

module _ (net : Clients) (laws : ClientLaws net) where
  open net use {kv, cal}

  -- What Calico has assigned.
  abbrev pub free_or : WorldOf net → Assigned
  free_or w = cal.assigned w.ipam

  -- Calico hands out what it handed out before, and the cluster is not touched.
  abbrev pub Quiet : WorldOf net → WorldOf net → Type 0
  Quiet w u = (free_or u ≡ free_or w) × (u.shared ≡ w.shared)

  -- Nothing is released, and the cluster is not touched.
  abbrev pub Untouched : {A : Type 0} → WorldOf net → A → WorldOf net → Type 0
  Untouched w _ u = Grows (free_or w) (free_or u) × (u.shared ≡ w.shared)

  Quiet-Untouched : (w u : WorldOf net) → Quiet w u → Untouched w tt u
  Quiet-Untouched w u q = (λ x h. ap (λ (f : Assigned). f x) q.0 ∙ h, q.1)

  Grows-assign : (f : Assigned) (a : String) → Grows f (assign f a true)
  Grows-assign f a x h = elim (Bool-cases (a == x)) [
    | inl same ↦ rw same refl
    | inr other ↦ rw other h
  ]

  Grows-assign_all : (f : Assigned) (ns : List IpNet) → Grows f (assign_all f ns)
  Grows-assign_all f [] x h = h
  Grows-assign_all f (n ∷ ns) x h =
      Grows-assign_all (assign f n.address true) ns x (Grows-assign f n.address x h)

  -- What is free after others have been assigned was free before.
  free_before : (f g : Assigned) (a : String) → Grows f g → g a ≡ false → f a ≡ false
  free_before f g a h free = elim (Bool-cases (f a)) [
    | inl t ↦ absurd (cc (h a t, free))
    | inr e ↦ e
  ]

  pub pool_read :
      (w : WorldOf net) (r : Result IpPool) (s : cal.State)
      → cal.assigned s ≡ cal.assigned w.ipam
      → Ends (λ _ u. Quiet w u) (Untouched w) (r, record w { ipam = s })
  pool_read w (ok p) s h = returns (h, refl)
  pool_read w (err e) s h = fails (Quiet-Untouched w (record w { ipam = s }) (h, refl))

  parsed-Ends :
      (hostname cidr : String) (w u : WorldOf net) (r : Result IpNet)
      → Quiet w u
      → Ends
          (λ _ x. Quiet w x)
          (Untouched w)
          (((λ v. (r, v)) >>= λ n. pure (args_of net hostname n)) u)
  parsed-Ends hostname cidr w u (ok n) q = returns q
  parsed-Ends hostname cidr w u (err e) q = fails (Quiet-Untouched w u q)

  assign_args-Ends :
      (hostname pool_id : String) (w : WorldOf net)
      → Ends (λ _ u. Quiet w u) (Untouched w) (assign_args net hostname pool_id w)
  assign_args-Ends hostname pool_id w = elim (Bool-cases (pool_id == pool_id_v4)) [
    | inl four ↦ rw four (returns {w = w} (refl, refl))
    | inr other ↦ elim (Bool-cases (pool_id == pool_id_v6)) [
      | inl six ↦ rw (other, six) (returns {w = w} (refl, refl))
      | inr named ↦
          let t = cal.get_pool pool_id w.ipam in
          rw (other, named)
            (>>=-Ends (on_ipam (cal.get_pool pool_id))
              (λ p. parsed net p.cidr >>= λ n. pure (args_of net hostname n)) w
              (pool_read w t.0 t.1 (laws.cal_laws.get_pool_reads pool_id w.ipam))
              (λ p u q. parsed-Ends hostname p.cidr w u (cal.parse_cidr p.cidr) q) (λ e u q. q))
    ]
  ]

  -- The address was free, and Calico has assigned it; nothing is released, and the cluster is not
  -- touched.
  abbrev pub Took : WorldOf net → IpAddress → WorldOf net → Type 0
  Took w a w' =
      (v : Assigned) × Grows (free_or w) v
      × (free_or w a.address ≡ false)
      × (free_or w' ≡ assign v a.address true)
      × (w'.shared ≡ w.shared)

  one :
      (pool_id : String) (w u : WorldOf net) (v : Assigned) (ns : List IpNet)
      → Grows (free_or w) v
      → AllFree v ns
      → free_or u ≡ assign_all v ns
      → u.shared ≡ w.shared
      → Ends (Took w) (Untouched w) (single net pool_id ns u)
  one pool_id w u v [] g h e s = fails ((λ x t. ap (λ (f : Assigned). f x) e ∙ g x t), s)
  one pool_id w u v (n ∷ []) g h e s =
      returns {w = u} (v, g, free_before (free_or w) v n.address g h.0, e, s)
  one pool_id w u v (n ∷ m ∷ ns) g h e s =
      fails ((λ x t. ap (λ (f : Assigned). f x) e ∙ Grows-assign_all v (n ∷ m ∷ ns) x (g x t)), s)

  assigned_one :
      (pool_id : String) (w u : WorldOf net) (r : Result (List IpNet × List IpNet)) (s : cal.State)
      → Grows (free_or w) (free_or u)
      → AutoAssigns (free_or u) r (cal.assigned s)
      → u.shared ≡ w.shared
      → Ends
          (Took w)
          (Untouched w)
          (((λ v. (r, record v { ipam = s })) >>= λ ips. single net pool_id (ips.0 ++ ips.1)) u)
  assigned_one pool_id w u (ok (v4, v6)) s g h same =
      one pool_id w (record u { ipam = s }) (free_or u) (v4 ++ v6) g h.0 h.1 same
  assigned_one pool_id w u (err e) s g h same = fails ((λ x t. h.1 x (g x t)), same)

  pub alloc_ip_from_pool-Ends :
      (hostname pool_id : String) (w : WorldOf net)
      → Ends (Took w) (Untouched w) (alloc_ip_from_pool net hostname pool_id w)
  unfolding alloc_ip_from_pool
  alloc_ip_from_pool-Ends hostname pool_id w =
      >>=-Ends (assign_args net hostname pool_id)
        (λ args. on_ipam (cal.auto_assign args) >>= λ ips. single net pool_id (ips.0 ++ ips.1)) w
        (assign_args-Ends hostname pool_id w)
        (λ args u q.
          let t = cal.auto_assign args u.ipam in
          assigned_one pool_id w u t.0 t.1 (Quiet-Untouched w u q).0
            (laws.cal_laws.auto_assign_AutoAssigns args u.ipam) q.1)
        (λ e u q. q)

  later_Took :
      (w u : WorldOf net) (a : IpAddress) (x : WorldOf net)
      → Untouched w tt u
      → Took u a x
      → Took w a x
  later_Took w u a x s (v, grows, free, taken, same) = (
    v,
    (λ y h. grows y (s.0 y h)),
    free_before (free_or w) (free_or u) a.address s.0 free,
    taken,
    same ∙ s.1,
  )

  alloc_first-Ends :
      (hostname : String) (pools : List Pool) (w u : WorldOf net)
      → Untouched w tt u
      → Ends (Took w) (Untouched w) (alloc_first net hostname pools u)
  unfolding alloc_first
  alloc_first-Ends hostname [] w u s = fails s
  alloc_first-Ends hostname (p ∷ pools) w u s =
      catch-Ends (alloc_ip_from_pool net hostname p.name) pure (λ _. alloc_first net hostname pools)
        u (alloc_ip_from_pool-Ends hostname p.name u)
        (λ a x t. returns {w = x} (later_Took w u a x s t))
        (λ e x t. alloc_first-Ends hostname pools w x ((λ y h. t.0 y (s.0 y h)), t.1 ∙ s.1))

  -- Whichever pool serves it, an address that `AllocIPFromPools` hands out was free in Calico and
  -- is assigned, and in any case the cluster is untouched.
  pub alloc_ip_from_pools-Ends :
      (hostname : String) (pools : List Pool) (w : WorldOf net)
      → Ends (Took w) (Untouched w) (alloc_ip_from_pools net hostname pools w)
  unfolding alloc_ip_from_pools
  alloc_ip_from_pools-Ends hostname [] w = alloc_first-Ends hostname [] w w ((λ x h. h), refl)
  alloc_ip_from_pools-Ends hostname (p ∷ []) w = alloc_ip_from_pool-Ends hostname p.name w
  alloc_ip_from_pools-Ends hostname (p ∷ q ∷ pools) w =
      alloc_first-Ends hostname (p ∷ q ∷ pools) w w ((λ x h. h), refl)
