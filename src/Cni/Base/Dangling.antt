-- ===== src/Cni/Base/Dangling.antt =====
-- `DeleteDanglingNetwork` and `RemoveNetwork` of cni/subhandler/base.go.
use barrel.Prelude.{
  ℕ, zero, suc, String, Option, none, some, ◌≡◌, refl, ◌∙◌, ◌⊎◌, inl, inr, ap, arith,
}
use barrel.Types.{Result, ok, err}
use barrel.Method.{M, Ends, returns, fails, >>=-Ends, >>-Ends, Ends-mono, finally, ◌>>=◌}
use barrel.Cni.Endpoint.{FilePath, NetEndpoint, base}
use barrel.Cni.Store.{
  EndpointStore, EndpointStoreLaws, Book, Contract, Answers, Fails, Untouched, Counts, Used, Unused,
  Deletes, erased, Near, GetsById, Disconnects, LeadsNowhere,
}
use barrel.Cni.Machine.{Machine, Runtime, on_disk, on_host}
use barrel.Cni.Base.{clean_up, with_flock, delete_dangling_network, disconnect, remove_network}
use barrel.Cni.Base.Calls.{At, called, hosted, still, unlock_untouched}

-- An endpoint in use is left alone; one that is not is gone when no error is returned. An error
-- may come after the deletion, and touches no link.
abbrev pub Cleans : NetEndpoint → Contract (Unit {0})
Cleans nep b (ok _) b' = (Used b nep × (b' ≡ b)) ⊎ (Unused b nep × (b' ≡ erased b nep.ipv4))
Cleans nep b (err e) b' = (b' ≡ b) ⊎ (Unused b nep × Near nep.ipv4 b b')

pub erased-Near : (b b' : Book) (nep : NetEndpoint) → b' ≡ erased b nep.ipv4 → Near nep.ipv4 b b'
erased-Near b b' nep same =
    (ap (λ x. x.linked) same, λ j other. ap (λ x. x.tenant j) same ∙ rw other refl)

module _ {S H : Type 0} {store : EndpointStore S} (rt : Runtime H) {Stands : Book → S → Type 0}
    {at : String → FilePath} (laws : EndpointStoreLaws S store Stands at) (nep : NetEndpoint)
    (b : Book) (unnamed : b.linked nep.ipv4 ≡ none) where
  abbrev W : Type 0
  W = Machine S H

  abbrev pub Cleaned : M W (Unit {0}) → W → Type 0
  Cleaned m w = Ends (Answers (At laws) (Cleans nep) b) (Fails (At laws) (Cleans nep) b) (m w)

  clean_up-Cleaned :
      (n : ℕ) (w : W) (b' : Book)
      → Counts nep b (ok n) b'
      → At laws b' w
      → Cleaned (clean_up store rt nep n) w
  clean_up-Cleaned (suc n) w b' (same, used) st = returns (b', inl (used, same), st)
  clean_up-Cleaned zero w b' (same, unused) st =
      >>-Ends (on_disk (store.delete_net_endpoint nep)) (on_host (rt.delete_network nep.owner)) w
        (called laws (Deletes nep) (laws.deletes nep b unnamed) w (still laws w (b', same, st)))
        (λ w' (b'', gone, st').
          Ends-mono (hosted laws (rt.delete_network nep.owner) w' st')
            (λ u w'' st''. (b'', inr (unused, gone), st''))
            (λ e w'' st''. (b'', inr (unused, erased-Near b b'' nep gone), st'')))
        (λ e w' (b'', (f, kept), st'). (b'', inr (unused, kept), st'))

  counted :
      (w : W)
      → At laws b w
      → Cleaned (on_disk (store.get_net_endpoint_refcount nep) >>= λ n. clean_up store rt nep n) w
  counted w st =
      >>=-Ends (on_disk (store.get_net_endpoint_refcount nep)) _ w
        (called laws (Counts nep) (laws.counts nep b) w st)
        (λ n w' (b', c, st'). clean_up-Cleaned n w' b' c st')
        (λ e w' (b', (f, same), st'). (b', inl same, st'))

  -- A last call that changes nothing changes no outcome.
  abbrev Touches : M W (Unit {0}) → Type 0
  Touches m = (b' : Book) (w : W) → At laws b' w → At laws b' (m w).1

  finished :
      (u : M W (Unit {0})) {r : Result (Unit {0}) × W}
      → Touches u
      → Ends (Answers (At laws) (Cleans nep) b) (Fails (At laws) (Cleans nep) b) r
      → Ends (Answers (At laws) (Cleans nep) b) (Fails (At laws) (Cleans nep) b) (r.0, (u r.1).1)
  finished u t (returns {w} (b', c, st)) = returns (b', c, t b' w st)
  finished u t (fails {w} (b', c, st)) = fails (b', c, t b' w st)

  locked :
      (f : M W (Unit {0}))
      → ((w : W) → At laws b w → Cleaned f w)
      → (ip : String) (w : W) → At laws b w
      → Cleaned (with_flock store rt ip f) w
  unfolding with_flock
  locked f h ip w st =
      >>=-Ends (on_disk (store.get_flock ip)) _ w
        (called laws (Untouched {A = store.Flock}) (laws.gets_flock ip b) w st)
        (λ flock w' q.
          >>-Ends (on_disk (store.lock flock)) (finally f (on_disk (store.unlock flock))) w'
            (called laws (Untouched {A = Unit {0}}) (laws.locks flock b) w' (still laws w' q))
            (λ w'' q'.
              finished (on_disk (store.unlock flock)) (unlock_untouched laws flock)
                (h w'' (still laws w'' q')))
            (λ e w'' (b', (g, same), st'). (b', inl same, st')))
        (λ e w' (b', (g, same), st'). (b', inl same, st'))

  -- `DeleteDanglingNetwork`, of an endpoint whose address names no container, leaves an endpoint
  -- alone that a container is linked to or holds, and has deleted it when it succeeds on one that
  -- nobody uses; an error may come after a deletion in part of an endpoint that nobody uses, and
  -- then no link and no tenant of another address has changed.
  pub delete_dangling_network-Ends :
      (w : W) → At laws b w → Cleaned (delete_dangling_network store rt nep) w
  unfolding delete_dangling_network
  delete_dangling_network-Ends w st = locked _ counted nep.ipv4 w st

-- A container that is linked to an endpoint is unlinked, and then the endpoint is cleaned up.
abbrev pub Unlinks : (String → FilePath) → String → Book → NetEndpoint → Book → Type 0
Unlinks at id b nep b' = (b.linked id ≡ some nep.netns) × Disconnects at id b (ok tt) b'

abbrev pub Removes : (String → FilePath) → String → Contract (Unit {0})
Removes at id b (ok _) b' =
    (LeadsNowhere at b id × (b' ≡ b))
    ⊎ ((nep : NetEndpoint) × (mid : Book) × Unlinks at id b nep mid × Cleans nep mid (ok tt) b')
Removes at id b (err e) b' =
    (b' ≡ b)
    ⊎ ((nep : NetEndpoint) × (mid : Book) × Unlinks at id b nep mid × Cleans nep mid (err e) b')

module _ {S H : Type 0} {store : EndpointStore S} (rt : Runtime H) {Stands : Book → S → Type 0}
    {at : String → FilePath} (laws : EndpointStoreLaws S store Stands at) (id : String) (b : Book)
    (apart : (p : FilePath) → b.linked id ≡ some p → b.linked (base p) ≡ none) where
  abbrev pub Removed : M (Machine S H) (Unit {0}) → Machine S H → Type 0
  Removed m w = Ends (Answers (At laws) (Removes at id) b) (Fails (At laws) (Removes at id) b) (m w)

  still_apart :
      (nep : NetEndpoint) (b' : Book)
      → Disconnects at id b (ok tt) b'
      → b.linked nep.ipv4 ≡ none
      → b'.linked nep.ipv4 ≡ none
  still_apart nep b' (inl same) e = ground (arith, ap (λ x. x.linked nep.ipv4) same)
  still_apart nep b' (inr (nowhere, same)) e = ap (λ x. x.linked nep.ipv4) same ∙ e

  unlinked :
      (nep : NetEndpoint) (w : Machine S H)
      → b.linked id ≡ some nep.netns
      → b.linked nep.ipv4 ≡ none
      → At laws b w
      → Removed (disconnect store rt id (some nep)) w
  unlinked nep w l e st =
      >>-Ends (on_disk (store.disconnect_net_endpoint id nep))
        (delete_dangling_network store rt nep) w
        (called laws (Disconnects at id) (laws.disconnects id nep b) w st)
        (λ w' (mid, d, st').
          Ends-mono (delete_dangling_network-Ends rt laws nep mid (still_apart nep mid d e) w' st')
            (λ u w'' (b', c, st''). (b', inr (nep, mid, (l, d), c), st''))
            (λ e w'' (b', c, st''). (b', inr (nep, mid, (l, d), c), st'')))
        (λ e w' (b', (f, same), st'). (b', inl same, st'))

  got :
      (r : Option NetEndpoint) (w : Machine S H) (b' : Book)
      → GetsById at id b (ok r) b'
      → At laws b' w
      → Removed (disconnect store rt id r) w
  got none w b' (same, nowhere) st = returns (b', inl (nowhere, same), st)
  got (some nep) w b' (same, l, i, o) st =
      unlinked nep w l (ap b.linked i ∙ apart nep.netns l) (still laws w (b', same, st))

  -- `RemoveNetwork` changes nothing where the container has no link to an endpoint that is there;
  -- otherwise the link goes and the endpoint is cleaned up in what remains, as
  -- `DeleteDanglingNetwork` does; an error comes before any change or from the cleaning up. The
  -- address that a link leads to names no container.
  pub remove_network-Ends : (w : Machine S H) → At laws b w → Removed (remove_network store rt id) w
  unfolding remove_network
  remove_network-Ends w st =
      >>=-Ends (on_disk (store.get_net_endpoint_by_id id)) _ w
        (called laws (GetsById at id) (laws.gets_by_id id b) w st)
        (λ r w' (b', g, st'). got r w' b' g st') (λ e w' (b', (f, same), st'). (b', inl same, st'))
