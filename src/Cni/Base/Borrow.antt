-- ===== src/Cni/Base/Borrow.antt =====
-- `BorrowNetEndpoint` of cni/subhandler/base.go.
use barrel.Prelude.{String, none, some, ◌≡◌, refl, ◌∙◌, ◌⊎◌, inl, inr, subst, ap}
use barrel.Types.{ok, err, Error}
use barrel.Method.{fail, pure, Ends, returns, fails, >>-Ends, catch-Ends, log_error, ◌>>◌}
use barrel.Cni.Endpoint.{FilePath, NetEndpoint, ContainerMeta, set_netns}
use barrel.Cni.Store.{
  EndpointStore, EndpointStoreLaws, Book, update, Contract, Answers, Fails, Occupies, Frees,
}
use barrel.Cni.Filesystem.View.{update_twice, update_same}
use barrel.Cni.Filesystem.Tenants.{logged-Ends}
use barrel.Cni.Machine.{Machine, Runtime, RuntimeLaws, on_disk, on_host}
use barrel.Cni.Base.{borrow_net_endpoint, free}
use barrel.Cni.Base.Calls.{At, called, save-Ends}

abbrev pub taken : Book → NetEndpoint → String → Book
taken b nep id = record b { tenant = update b.tenant nep.ipv4 (some id) }

-- The endpoint is lent to nobody else, and a failure leaves no tenant but the container itself, or
-- one without a name.
abbrev pub Borrows : String → NetEndpoint → Contract (Unit {0})
Borrows id nep b (ok _) b' = (b.tenant nep.ipv4 ≡ none) × (b' ≡ taken b nep id)
Borrows id nep b (err e) b' =
    (b' ≡ b) ⊎ ((b.tenant nep.ipv4 ≡ none) × ((b' ≡ taken b nep id) ⊎ (b' ≡ taken b nep "")))

module _ {S H : Type 0} {store : EndpointStore S} {rt : Runtime H} {Stands : Book → S → Type 0}
    {at : String → FilePath} (laws : EndpointStoreLaws S store Stands at)
    (rt_laws : RuntimeLaws H rt) where
  module _ (c : ContainerMeta) (nep : NetEndpoint) (b : Book) where
    abbrev W : Type 0
    W = Machine S H

    abbrev pub Lent : Unit {0} → W → Type 0
    Lent u w =
        Answers (At laws) (Borrows c.id nep) b u w
        × (rt.saved w.host c.id ≡ some (set_netns c nep.netns))

    abbrev pub NotLent : Error → W → Type 0
    NotLent = Fails (At laws) (Borrows c.id nep) b

    -- What the deferred call leaves of the tenancy.
    handed_back :
        (w : W) (e : Error)
        → b.tenant nep.ipv4 ≡ none
        → At laws (taken b nep c.id) w
        → Ends Lent NotLent ((log_error (free store rt c.id nep) >> fail e) w)
    handed_back w e nobody st =
        logged-Ends (λ w'. Ends Lent NotLent (err e, w'))
          (called laws (Frees c.id nep) (laws.frees c.id nep (taken b nep c.id)) w st)
          (λ u w' (b', (held, same), st'). fails (
            b',
            inl (
                same
                ∙ ap (λ t. record b { tenant = t })
                    (update_twice b.tenant nep.ipv4 (some c.id) none
                      ∙ update_same b.tenant nep.ipv4 none nobody)),
            st',
          ))
          (λ x w' (b', (f, same), st'). fails (b', inr (nobody, inl same), st'))

    -- When `BorrowNetEndpoint` succeeds the endpoint had no tenant, the container is its tenant
    -- and its configuration is saved with the endpoint's namespace; after an error the book is as
    -- it was, or the endpoint had no tenant and has the container or a nameless one.
    pub borrow_net_endpoint-Ends :
        (w : W) → At laws b w → Ends Lent NotLent (borrow_net_endpoint store rt c nep w)
    unfolding borrow_net_endpoint
    borrow_net_endpoint-Ends w st =
        >>-Ends (on_disk (store.occupy_net_endpoint c.id nep)) _ w
          (called laws (Occupies c.id nep) (laws.occupies c.id nep b) w st)
          (λ w' (b', (nobody, same), st').
            let held : At laws (taken b nep c.id) w' = subst (λ x. At laws x w') same st' in
            catch-Ends (on_host (rt.save (set_netns c nep.netns))) pure
              (λ e. log_error (free store rt c.id nep) >> fail e) w'
              (save-Ends laws rt_laws (set_netns c nep.netns) w' held)
              (λ u w'' (s, st''). returns ((taken b nep c.id, (nobody, refl), st''), s))
              (λ e w'' st''. handed_back w'' e nobody st''))
          (λ e w' (b', (f, either), st'). (b', failed either, st'))
      where
        failed :
            {b' : Book}
            → (b' ≡ b) ⊎ ((b.tenant nep.ipv4 ≡ none) × (b' ≡ taken b nep ""))
            → (b' ≡ b)
              ⊎ ((b.tenant nep.ipv4 ≡ none) × ((b' ≡ taken b nep c.id) ⊎ (b' ≡ taken b nep "")))
        failed (inl same) = inl same
        failed (inr (nobody, same)) = inr (nobody, inr same)
