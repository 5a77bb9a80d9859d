-- ===== src/Driver/Network/Endpoints.antt =====
-- What `CreateEndpoint` of driver/calico/network.go leaves in the datastore.
use barrel.Prelude.{
  Bool, true, false, ◌&&◌, [], ◌∷◌, Option, none, some, ◌≡◌, refl, ◌∙◌, ap, ap₂, sym, subst, concat,
  ◌⊎◌, inl, inr, Bool-cases, string_eq, ◌==◌, beq_refl, String,
}
use barrel.Types.{Result, ok, err, Error, IsForeign, cidr_not_in_pool}
use barrel.Method.{
  M, Ends, returns, fails, >>=-Ends, >>-Ends, catch-Ends, Ends-mono, Ends-own, pure, ◌>>=◌,
}
use barrel.Driver.Cluster.{
  Cluster, ClusterLaws, PoolObject, WorkloadEndpoint, Profile, Creation, made, already_exists,
  refused, View, Creates, with_endpoint, with_profile,
}
use barrel.Driver.Network.{
  read_endpoint, ensure_profile, after_creation, create_in, create_with, create_endpoint,
}
use barrel.Driver.Network.Described.{Describes, read_endpoint-Describes}
use barrel.Driver.Requests.{Settings, Readers, CreateEndpointRequest, find_pool, result, in_profile}

module _ (driver : Settings) (readers : Readers) {H : Type 0} (cluster : Cluster H)
    (laws : ClusterLaws cluster) where
  open laws use {view}

  -- The datastore as it was, or with the profile of a pool.
  abbrev pub Profiled : PoolObject → View → View → Type 0
  Profiled p v v' = (v' ≡ v) ⊎ ((driver.create_profiles ≡ true) × (v' ≡ with_profile p.name v))

  -- And where profiles are made, that profile is there.
  abbrev pub Ready : PoolObject → View → View → Type 0
  Ready p v v' = Profiled p v v' × (driver.create_profiles ≡ true → v'.profiles p.name ≡ true)

  abbrev pub NoAddress : CreateEndpointRequest → Type 0
  NoAddress r = ((r.address == "") && (r.address_ipv6 == "")) ≡ true

  -- The endpoint that the request describes has been put, in the profile of its network's pool.
  pub data Created (r : CreateEndpointRequest) (h h' : H) : Type 0 where
    put :
        (e : WorkloadEndpoint) (p : PoolObject) (v : View)
        → Describes driver readers cluster r e
        → find_pool r.network_id (view h).pools ≡ some p
        → Ready p (view h) v
        → view h' ≡ with_endpoint (in_profile driver.create_profiles e p) v
        → Created r h h'

  -- The request is no fit one, no pool serves its network, or a call has failed: one before the
  -- endpoint is to be put, or the call that puts it.
  pub data NotCreated (r : CreateEndpointRequest) (h : H) (d : Error) (h' : H) : Type 0 where
    malformed :
        NoAddress r ⊎ (read_endpoint driver readers cluster r ≡ err d)
        → view h' ≡ view h
        → NotCreated r h d h'
    unserved :
        d ≡ cidr_not_in_pool
        → find_pool r.network_id (view h).pools ≡ none
        → view h' ≡ view h
        → NotCreated r h d h'
    unlisted : IsForeign d → view h' ≡ view h → NotCreated r h d h'
    unprofiled :
        (p : PoolObject)
        → IsForeign d
        → find_pool r.network_id (view h).pools ≡ some p
        → Profiled p (view h) (view h')
        → NotCreated r h d h'
    unput :
        (e : WorkloadEndpoint) (p : PoolObject) (u : H)
        → Describes driver readers cluster r e
        → find_pool r.network_id (view h).pools ≡ some p
        → Ready p (view h) (view u)
        → cluster.create_endpoint (in_profile driver.create_profiles e p) u ≡ (err d, h')
        → NotCreated r h d h'

  -- The datastore stands as it stood, but for the profile.
  abbrev Profiles : PoolObject → H → Result (Unit {0}) × H → Type 0
  Profiles q h o =
      Ends (λ _ x. Ready q (view h) (view x)) (λ d x. IsForeign d × Profiled q (view h) (view x)) o

  with_profile_same : (name : String) (v : View) → (with_profile name v).profiles name ≡ true
  with_profile_same name v = rw (beq_refl name) refl

  profile_there :
      (name : String) (v v' : View) → v' ≡ v → v.profiles name ≡ true → v'.profiles name ≡ true
  profile_there name v v' e h = ap (λ (u : View). u.profiles name) e ∙ h

  profile_made :
      (p : Profile) (on : driver.create_profiles ≡ true) (h u : H) (q : PoolObject)
      (c : Creation × H)
      → p.name ≡ q.name
      → view u ≡ view h
      → Creates (view u) p c.0 (view c.1)
      → Profiles q h (after_creation driver readers cluster c)
  profile_made p on h u q (made, x) n s e =
      let same = e ∙ ap₂ with_profile n s in
      returns
        (inr (on, same), λ _. profile_there q.name _ _ same (with_profile_same q.name (view h)))
  profile_made p on h u q (already_exists, x) n s (t, e) =
      returns
        (inl (e ∙ s), λ _. profile_there q.name _ _ e (subst (λ k. (view u).profiles k ≡ true) n t))
  profile_made p on h u q (refused d, x) n s (f, inl e) = fails (f, inl (e ∙ s))
  profile_made p on h u q (refused d, x) n s (f, inr e) =
      fails (f, inr (on, e ∙ ap₂ with_profile n s))

  profile_ensured :
      (q : PoolObject) (on : driver.create_profiles ≡ true) (h u : H)
      → view u ≡ view h
      → Profiles q h (ensure_profile driver readers cluster q.name u)
  profile_ensured q on h u s =
      let p : Profile = record { name = q.name; selector = concat ("has(" ∷ q.name ∷ ")" ∷ []) } in
      catch-Ends (cluster.get_profile q.name) pure
        (λ _ x. after_creation driver readers cluster (cluster.create_profile p x)) u
        (laws.get_profile_Ends q.name u)
        (λ _ x (t, e). returns (inl (e ∙ s), λ _. profile_there q.name _ _ e t))
        (λ _ x (f, e).
          profile_made p on h x q (cluster.create_profile p x) refl (e ∙ s)
            (laws.create_profile_made p x))

  module _ (r : CreateEndpointRequest) (h : H) where
    abbrev Puts : M H (Unit {0}) → H → Type 0
    Puts m u = Ends (λ _ x. Created r h x) (NotCreated r h) (m u)

    endpoint_put :
        (e : WorkloadEndpoint) (p : PoolObject) (u : H)
        → read_endpoint driver readers cluster r ≡ ok e
        → find_pool r.network_id (view h).pools ≡ some p
        → Ready p (view h) (view u)
        → Puts (cluster.create_endpoint (in_profile driver.create_profiles e p)) u
    endpoint_put e p u read here ready =
        let d = read_endpoint-Describes driver readers cluster r e read in
        Ends-mono (Ends-own (laws.create_endpoint_Ends (in_profile driver.create_profiles e p) u))
          (λ _ x (s, o). put e p (view u) d here ready s) (λ c x (q, o). unput e p u d here ready o)

    created_with :
        (b : Bool) (e : WorkloadEndpoint) (p : PoolObject) (u : H)
        → driver.create_profiles ≡ b
        → view u ≡ view h
        → ((x : H)
            → Ready p (view h) (view x)
            → Puts (cluster.create_endpoint (in_profile b e p)) x)
        → find_pool r.network_id (view h).pools ≡ some p
        → Puts (create_with driver readers cluster b e p) u
    created_with true e p u on s k here =
        >>-Ends (ensure_profile driver readers cluster p.name)
          (cluster.create_endpoint (in_profile true e p)) u (profile_ensured p on h u s)
          (λ x q. k x q) (λ d x (f, q). unprofiled p f here q)
    created_with false e p u off s k here = k u (inl s, λ on. absurd (cc))

    created_in :
        (e : WorkloadEndpoint) (o : Option PoolObject) (u : H)
        → read_endpoint driver readers cluster r ≡ ok e
        → find_pool r.network_id (view h).pools ≡ o
        → view u ≡ view h
        → Puts (create_in driver readers cluster e o) u
    created_in e none u read here s = fails (unserved refl here s)
    created_in e (some p) u read here s =
        created_with driver.create_profiles e p u refl s (λ x q. endpoint_put e p x read here q)
          here

    read_by :
        (o : Result WorkloadEndpoint)
        → read_endpoint driver readers cluster r ≡ o
        → Puts
            (result o >>= λ e. cluster.list_pools >>= λ ps.
              create_in driver readers cluster e (find_pool r.network_id ps))
            h
    read_by (err d) read = fails (malformed (inr read) refl)
    read_by (ok e) read =
        >>=-Ends cluster.list_pools
          (λ ps. create_in driver readers cluster e (find_pool r.network_id ps)) h
          (laws.list_pools_Ends h)
          (λ ps u (l, s).
            created_in e (find_pool r.network_id ps) u read (ap (find_pool r.network_id) (sym l)) s)
          (λ d u (f, s). unlisted f s)

    pub create_endpoint-Ends : Puts (create_endpoint driver readers cluster r) h
    unfolding create_endpoint
    create_endpoint-Ends = elim (Bool-cases ((r.address == "") && (r.address_ipv6 == ""))) [
      | inl blank ↦ rw blank (fails (malformed (inl blank) refl))
      | inr named ↦ rw named (read_by (read_endpoint driver readers cluster r) refl)
    ]
