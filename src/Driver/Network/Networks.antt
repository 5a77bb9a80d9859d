-- ===== src/Driver/Network/Networks.antt =====
-- What `CreateNetwork` of driver/calico/network.go makes of the datastore.
use barrel.Prelude.{
  String, List, ◌++◌, Option, none, some, ◌≡◌, ◌≢◌, refl, sym, subst, ◌⊎◌, inl, inr, string_eq,
}
use barrel.Types.{Result, ok, err, Error, IsForeign}
use barrel.Method.{M, Ends, fails, >>=-Ends, Ends-mono, ◌>>=◌, ◌>>◌}
use barrel.Driver.Cluster.{Cluster, ClusterLaws}
use barrel.Driver.Network.{label_pools, populate_pool_label}
use barrel.Driver.Requests.{
  Settings, Readers, CreateNetworkRequest, find_pool, ipv4_pools, ipv6_pools, result, of_option,
  refused_option,
}
use barrel.Driver.Network.Labels.{
  Holds, Matches, Labels, Labels-trans, unchanged, pools_labelled, Serves-find_pool,
}

module _ (driver : Settings) (readers : Readers) {H : Type 0} (cluster : Cluster H)
    (laws : ClusterLaws cluster) (r : CreateNetworkRequest) (h : H) where
  open laws use {view}

  abbrev L : H → Type 0
  L x = Labels driver readers cluster laws r.network_id h x

  -- The request is fit, and a pool with one of its CIDRs is found for the network from now on.
  pub data Networked (x : H) : Type 0 where
    networked :
        (v4 v6 : List String)
        → refused_option r.options ≡ none
        → (ipv4_pools r.ipv4_data ≡ ok v4) × (ipv6_pools r.ipv6_data ≡ ok v6)
        → L x
        → (Matches (v4 ++ v6) (view h).pools → find_pool r.network_id (view x).pools ≢ none)
        → Networked x

  -- An option or an address space is refused before anything is done, or a call has failed.
  pub data NotNetworked (d : Error) (x : H) : Type 0 where
    option_refused : refused_option r.options ≡ some d → x ≡ h → NotNetworked d x
    space_refused :
        (ipv4_pools r.ipv4_data ≡ err d) ⊎ (ipv6_pools r.ipv6_data ≡ err d)
        → x ≡ h
        → NotNetworked d x
    call_failed : IsForeign d → L x → NotNetworked d x

  abbrev Networks : M H (Unit {0}) → Type 0
  Networks m = Ends (λ _ x. Networked x) NotNetworked (m h)

  populated :
      (v4 v6 : List String)
      → refused_option r.options ≡ none
      → (ipv4_pools r.ipv4_data ≡ ok v4) × (ipv6_pools r.ipv6_data ≡ ok v6)
      → Networks (populate_pool_label driver readers cluster (v4 ++ v6) r.network_id)
  unfolding populate_pool_label
  populated v4 v6 fit read =
      >>=-Ends cluster.list_pools (label_pools driver readers cluster r.network_id (v4 ++ v6)) h
        (laws.list_pools_Ends h)
        (λ ps u (l, s).
          let same = unchanged driver readers cluster laws r.network_id h u s in
          Ends-mono
            (pools_labelled driver readers cluster laws r.network_id (v4 ++ v6) ps u
              (λ n q. same.kept n (subst (Holds n) l q)))
            (λ _ x (m, e).
              networked v4 v6 fit read
                (Labels-trans driver readers cluster laws r.network_id h u x same m)
                (λ a.
                  Serves-find_pool r.network_id (view x).pools
                    (e (subst (Matches (v4 ++ v6)) (sym l) a))))
            (λ d x (f, m).
              call_failed f (Labels-trans driver readers cluster laws r.network_id h u x same m)))
        (λ d u (f, s). call_failed f (unchanged driver readers cluster laws r.network_id h u s))

  spaces :
      (a b : Result (List String))
      → refused_option r.options ≡ none
      → ipv4_pools r.ipv4_data ≡ a
      → ipv6_pools r.ipv6_data ≡ b
      → Networks (
          result a >>= λ v4.
          result b >>= λ v6. populate_pool_label driver readers cluster (v4 ++ v6) r.network_id)
  spaces (err d) b fit e4 e6 = fails (space_refused (inl e4) refl)
  spaces (ok v4) (err d) fit e4 e6 = fails (space_refused (inr e6) refl)
  spaces (ok v4) (ok v6) fit e4 e6 = populated v4 v6 fit (e4, e6)

  options :
      (o : Option Error)
      → refused_option r.options ≡ o
      → Networks (
          result (of_option o tt)
          >> (result (ipv4_pools r.ipv4_data) >>= λ v4. result (ipv6_pools r.ipv6_data) >>= λ v6.
              populate_pool_label driver readers cluster (v4 ++ v6) r.network_id))
  options (some d) e = fails (option_refused e refl)
  options none e = spaces (ipv4_pools r.ipv4_data) (ipv6_pools r.ipv6_data) e refl refl
