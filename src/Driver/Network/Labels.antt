-- ===== src/Driver/Network/Labels.antt =====
-- The labels that `populatePoolLabel` of driver/calico/network.go puts on pools.
use barrel.Prelude.{
  String, Bool, true, false, List, [], ◌∷◌, Option, none, some, ◌≡◌, ◌≢◌, refl, ◌∙◌, ap, sym, subst,
  inl, inr, Bool-cases, string_eq, ◌==◌, beq_refl, beq_iff, if◌then◌else◌,
}
use barrel.Types.{IsForeign}
use barrel.Method.{M, Ends, returns, >>-Ends, Ends-mono}
use barrel.Driver.Cluster.{Cluster, ClusterLaws, PoolObject, View, replace_pool, Perhaps}
use barrel.Driver.Network.{label_pool, label_pools}
use barrel.Driver.Requests.{Settings, Readers, annotated, is_of, find_pool}

-- Some pool names the network.
pub data Serves (network : String) : List PoolObject → Type 0 where
  here : {p : PoolObject} {ps : List PoolObject} → is_of network p ≡ true → Serves network (p ∷ ps)
  later : {p : PoolObject} {ps : List PoolObject} → Serves network ps → Serves network (p ∷ ps)

-- A pool stands in the list under its name.
pub data Holds (name : String) : List PoolObject → Type 0 where
  first : {p : PoolObject} {ps : List PoolObject} → p.name ≡ name → Holds name (p ∷ ps)
  next : {p : PoolObject} {ps : List PoolObject} → Holds name ps → Holds name (p ∷ ps)

is_of-annotated : (network : String) (p : PoolObject) → is_of network (annotated network p) ≡ true
is_of-annotated network p = beq_refl network

module _ (network : String) (p : PoolObject) (of : is_of network p ≡ true) where
  Serves-replace_pool :
      (qs : List PoolObject) → Serves network qs → Serves network (replace_pool p qs)
  Serves-replace_pool [] h = elim h [ ]
  Serves-replace_pool (q ∷ qs) (here h) = elim (Bool-cases (q.name == p.name)) [
    | inl same ↦ rw same (here of)
    | inr kept ↦ rw kept (here h)
  ]
  Serves-replace_pool (q ∷ qs) (later h) = later (Serves-replace_pool qs h)

  Holds-Serves : (qs : List PoolObject) → Holds p.name qs → Serves network (replace_pool p qs)
  Holds-Serves [] h = elim h [ ]
  Holds-Serves (q ∷ qs) (first e) = rw (e, beq_refl p.name) (here of)
  Holds-Serves (q ∷ qs) (next h) = later (Holds-Serves qs h)

Holds-replace_pool :
    (name : String) (p : PoolObject) (qs : List PoolObject)
    → Holds name qs
    → Holds name (replace_pool p qs)
Holds-replace_pool name p [] h = elim h [ ]
Holds-replace_pool name p (q ∷ qs) (first e) = elim (Bool-cases (q.name == p.name)) [
  | inl same ↦ rw same (first (sym ((beq_iff q.name p.name).0 same) ∙ e))
  | inr kept ↦ rw kept (first e)
]
Holds-replace_pool name p (q ∷ qs) (next h) = next (Holds-replace_pool name p qs h)

-- A pool that is served is found.
pub Serves-find_pool :
    (network : String) (ps : List PoolObject) → Serves network ps → find_pool network ps ≢ none
Serves-find_pool network [] h e = elim h [ ]
Serves-find_pool network (p ∷ ps) (here h) e = absurd (served (rw h refl ∙ e))
  where
    served : ◌≢◌ {A = Option PoolObject} (some p) none
    served d = cc
Serves-find_pool network (p ∷ ps) (later h) e = elim (Bool-cases (is_of network p)) [
  | inl t ↦ cc
  | inr f ↦ Serves-find_pool network ps h (sym (rw f refl) ∙ e)
]

abbrev pub among : List String → String → Bool
among [] cidr = false
among (c ∷ cs) cidr = if cidr == c then true else among cs cidr

-- A pool of the list has one of the CIDRs.
pub data Matches (cidrs : List String) : List PoolObject → Type 0 where
  this :
      {p : PoolObject} {ps : List PoolObject} → among cidrs p.cidr ≡ true → Matches cidrs (p ∷ ps)
  that : {p : PoolObject} {ps : List PoolObject} → Matches cidrs ps → Matches cidrs (p ∷ ps)

module _ (driver : Settings) (readers : Readers) {H : Type 0} (cluster : Cluster H)
    (laws : ClusterLaws cluster) (network : String) where
  open laws use {view}

  -- Only pools have changed, all are there, and one that names the network stays.
  pub record Labels (h x : H) : Type 0 where
    pub only : view x ≡ record (view h) { pools = (view x).pools }
    pub kept : (n : String) → Holds n (view h).pools → Holds n (view x).pools
    pub served : Serves network (view h).pools → Serves network (view x).pools

  pub unchanged : (h x : H) → view x ≡ view h → Labels h x
  unchanged h x s = record {
    only =
        s
        ∙ ap (λ (ps : List PoolObject). record (view h) { pools = ps })
            (ap (λ (v : View). v.pools) (sym s));
    kept = λ n q. subst (λ (v : View). Holds n v.pools) (sym s) q;
    served = λ q. subst (λ (v : View). Serves network v.pools) (sym s) q;
  }

  pub Labels-trans : (h x y : H) → Labels h x → Labels x y → Labels h y
  Labels-trans h x y a b = record {
    only = b.only ∙ ap (λ (v : View). record v { pools = (view y).pools }) a.only;
    kept = λ n q. b.kept n (a.kept n q);
    served = λ q. b.served (a.served q);
  }

  module _ (p : PoolObject) (of : is_of network p ≡ true) (h x : H)
      (s : view x ≡ record (view h) { pools = replace_pool p (view h).pools }) where
    pools_after : (view x).pools ≡ replace_pool p (view h).pools
    pools_after = ap (λ (v : View). v.pools) s

    updated : Labels h x
    updated = record {
      only = s ∙ ap (λ (ps : List PoolObject). record (view h) { pools = ps }) (sym pools_after);
      kept = λ n q. subst (Holds n) (sym pools_after) (Holds-replace_pool n p (view h).pools q);
      served = λ q.
          subst (Serves network) (sym pools_after)
            (Serves-replace_pool network p of (view h).pools q);
    }

    updated_Serves : Holds p.name (view h).pools → Serves network (view x).pools
    updated_Serves q =
        subst (Serves network) (sym pools_after) (Holds-Serves network p of (view h).pools q)

  abbrev LabelsOne : PoolObject → List String → H → M H (Unit {0}) → H → Type 0
  LabelsOne p cidrs h m u =
      Ends (λ _ x. Labels h x × (among cidrs p.cidr ≡ true → Serves network (view x).pools))
        (λ d x. IsForeign d × Labels h x) (m u)

  pool_labelled :
      (p : PoolObject) (cidrs : List String) (h : H)
      → Holds p.name (view h).pools
      → LabelsOne p cidrs h (label_pool driver readers cluster network p cidrs) h
  pool_labelled p [] h q = returns (unchanged h h refl, λ e. cc)
  pool_labelled p (c ∷ cs) h q = elim (Bool-cases (p.cidr == c)) [
    | inr f ↦ rw f (pool_labelled p cs h q)
    | inl t ↦ rw t (
        >>-Ends (cluster.update_pool (annotated network p))
          (label_pool driver readers cluster network (annotated network p) cs) h
          (laws.update_pool_Ends (annotated network p) h)
          (λ x s.
            let l = updated (annotated network p) (is_of-annotated network p) h x s in
            Ends-mono (pool_labelled (annotated network p) cs x (l.kept p.name q))
              (λ _ y (m, e). (
                Labels-trans h x y l m,
                λ _.
                    m.served
                      (updated_Serves (annotated network p) (is_of-annotated network p) h x s q),
              ))
              (λ d y (f, m). (f, Labels-trans h x y l m)))
          (λ d x (f, s). (f, perhaps x s)))
  ]
    where
      perhaps :
          (x : H)
          → Perhaps
              (view h)
              (record (view h) { pools = replace_pool (annotated network p) (view h).pools })
              (view x)
          → Labels h x
      perhaps x (inl s) = unchanged h x s
      perhaps x (inr s) = updated (annotated network p) (is_of-annotated network p) h x s

  pub pools_labelled :
      (cidrs : List String) (ps : List PoolObject) (h : H)
      → ((n : String) → Holds n ps → Holds n (view h).pools)
      → Ends
          (λ _ x. Labels h x × (Matches cidrs ps → Serves network (view x).pools))
          (λ d x. IsForeign d × Labels h x)
          (label_pools driver readers cluster network cidrs ps h)
  pools_labelled cidrs [] h held = returns (unchanged h h refl, λ m. elim m [ ])
  pools_labelled cidrs (p ∷ ps) h held =
      >>-Ends (label_pool driver readers cluster network p cidrs)
        (label_pools driver readers cluster network cidrs ps) h
        (pool_labelled p cidrs h (held p.name (first refl)))
        (λ x (l, e).
          Ends-mono (pools_labelled cidrs ps x (λ n q. l.kept n (held n (next q))))
            (λ _ y (m, e'). (Labels-trans h x y l m, either y m e e'))
            (λ d y (f, m). (f, Labels-trans h x y l m)))
        (λ d x q. q)
    where
      either :
          {x : H} (y : H)
          → Labels x y
          → (among cidrs p.cidr ≡ true → Serves network (view x).pools)
          → (Matches cidrs ps → Serves network (view y).pools)
          → Matches cidrs (p ∷ ps)
          → Serves network (view y).pools
      either y m e e' (this a) = m.served (e a)
      either y m e e' (that a) = e' a
