-- ===== src/Cni/Base/Make.antt =====
-- `CreateNetEndpoint` of cni/subhandler/base.go.
use barrel.Prelude.{
  String, false, Option, none, some, ◌≡◌, refl, ◌∙◌, ◌⊎◌, inl, inr, subst, sym, ap, string_eq, ◌==◌,
}
use barrel.Types.{ok, err, Error}
use barrel.Method.{
  fail, pure, Ends, returns, fails, >>=-Ends, >>-Ends, catch-Ends, on_error, log_error, ◌>>◌,
}
use barrel.Cni.Endpoint.{FilePath, NetEndpoint, ContainerMeta, netns}
use barrel.Cni.Store.{
  EndpointStore, EndpointStoreLaws, Book, update, Contract, Answers, Fails, Near, Creates, created,
  Connects, Occupies, Disconnects, Deletes,
}
use barrel.Cni.Machine.{Machine, Runtime, RuntimeLaws, on_disk, on_host}
use barrel.Cni.Base.{create_net_endpoint, settle}
use barrel.Cni.Base.Calls.{At, called, probe_ipv4-Ends}
use barrel.Cni.Base.Borrow.{taken}
use barrel.Cni.Base.Dangling.{erased-Near}
use barrel.Cni.Filesystem.Tenants.{logged-Ends}

-- The links of other containers and the tenants of other addresses are as they were.
pub record Aside (id ip : String) (b b' : Book) : Type 0 where
  pub links : (j : String) → (id == j) ≡ false → b'.linked j ≡ b.linked j
  pub tenants : (j : String) → (ip == j) ≡ false → b'.tenant j ≡ b.tenant j

-- The endpoint is made at an address without one, linked and taken. What is undone after an error
-- touches only the container's own link and that address.
abbrev pub Makes : (String → FilePath) → String → Contract (Unit {0})
Makes at id b (ok _) b' =
    (nep : NetEndpoint) × (mid : Book) × (b.owner nep.ipv4 ≡ none)
    × (b.tenant nep.ipv4 ≡ none)
    × Connects at id nep (created b id nep.ipv4) (ok tt) mid
    × (b' ≡ taken mid nep id)
Makes at id b (err e) b' =
    ((b'.linked ≡ b.linked) × (b'.tenant ≡ b.tenant))
    ⊎ ((ip : String) × (b.owner ip ≡ none) × Aside id ip b b')

module _ {id ip : String} {b b' : Book} where
  pub Aside-trans : (mid : Book) → Aside id ip b mid → Aside id ip mid b' → Aside id ip b b'
  Aside-trans mid p q = record {
    links = λ j other. q.links j other ∙ p.links j other;
    tenants = λ j other. q.tenants j other ∙ p.tenants j other;
  }

  Near-Aside : Near ip b b' → Aside id ip b b'
  Near-Aside (l, t) = record { links = λ j other. ap (λ f. f j) l; tenants = t }

  linked-Aside :
      (v : Option FilePath)
      → b'.linked ≡ update b.linked id v
      → b'.tenant ≡ b.tenant
      → Aside id ip b b'
  linked-Aside v l t = record {
    links = λ j other. ap (λ f. f j) l ∙ rw other refl;
    tenants = λ j other. ap (λ f. f j) t;
  }

  tenant-Aside :
      (v : Option String)
      → b'.linked ≡ b.linked
      → b'.tenant ≡ update b.tenant ip v
      → Aside id ip b b'
  tenant-Aside v l t = record {
    links = λ j other. ap (λ f. f j) l;
    tenants = λ j other. ap (λ f. f j) t ∙ rw other refl;
  }

  pub same-Aside : b' ≡ b → Aside id ip b b'
  same-Aside e = record {
    links = λ j other. ap (λ x. x.linked j) e;
    tenants = λ j other. ap (λ x. x.tenant j) e;
  }

module _ {S H : Type 0} {store : EndpointStore S} {rt : Runtime H} {Stands : Book → S → Type 0}
    {at : String → FilePath} (laws : EndpointStoreLaws S store Stands at)
    (rt_laws : RuntimeLaws H rt) (c : ContainerMeta) where
  abbrev W : Type 0
  W = Machine S H

  module _ (nep : NetEndpoint) (b : Book) where
    abbrev ip : String
    ip = nep.ipv4

    abbrev Strayed : Error → W → Type 0
    Strayed e w = (b' : Book) × Aside c.id ip b b' × At laws b' w

    -- What the calls after the creation achieve, from the book that it leaves.
    abbrev Settled : Unit {0} → W → Type 0
    Settled u w =
        (mid : Book) × Connects at c.id nep b (ok tt) mid
        × (b.tenant ip ≡ none)
        × At laws (taken mid nep c.id) w

    connected_tenant : (mid : Book) → Connects at c.id nep b (ok tt) mid → mid.tenant ≡ b.tenant
    connected_tenant mid (inl (free, same)) = ap (λ x. x.tenant) same
    connected_tenant mid (inr (there, same)) = ap (λ x. x.tenant) same

    connected-Aside : (mid : Book) → Connects at c.id nep b (ok tt) mid → Aside c.id ip b mid
    connected-Aside mid (inl (free, same)) =
        linked-Aside (some nep.netns) (ap (λ x. x.linked) same) (ap (λ x. x.tenant) same)
    connected-Aside mid (inr (there, same)) = same-Aside same

    refused-Aside :
        (mid b' : Book) (e : Error) → Occupies c.id nep mid (err e) b' → Aside c.id ip mid b'
    refused-Aside mid b' e (f, inl same) = same-Aside same
    refused-Aside mid b' e (f, inr (free, same)) =
        tenant-Aside (some "") (ap (λ x. x.linked) same) (ap (λ x. x.tenant) same)

    cut-Aside : (mid b' : Book) → Disconnects at c.id mid (ok tt) b' → Aside c.id ip mid b'
    cut-Aside mid b' (inl same) =
        linked-Aside none (ap (λ x. x.linked) same) (ap (λ x. x.tenant) same)
    cut-Aside mid b' (inr (nowhere, same)) = same-Aside same

    disconnected :
        (w : W) (e : Error) (b' : Book)
        → Aside c.id ip b b'
        → At laws b' w
        → Ends Settled Strayed
            (err e, (on_disk {A = Unit {0}} (store.disconnect_net_endpoint c.id nep) w).1)
    disconnected w e b' a st =
        logged-Ends (λ w'. Ends Settled Strayed (err e, w'))
          (called laws (Disconnects at c.id) (laws.disconnects c.id nep b') w st)
          (λ u w' (b'', d, st'). fails (b'', Aside-trans b' a (cut-Aside b' b'' d), st'))
          (λ x w' (b'', (f, same), st'). fails (b'', Aside-trans b' a (same-Aside same), st'))

    settle-Ends : (w : W) → At laws b w → Ends Settled Strayed (settle store rt c nep w)
    settle-Ends w st =
        >>-Ends (on_disk (store.connect_net_endpoint c.id nep))
          (on_error (on_disk (store.occupy_net_endpoint c.id nep))
            (on_disk (store.disconnect_net_endpoint c.id nep)))
          w (called laws (Connects at c.id nep) (laws.connects c.id nep b) w st)
          (λ w' (mid, k, st').
            catch-Ends (on_disk (store.occupy_net_endpoint c.id nep)) pure
              (λ e. log_error (on_disk (store.disconnect_net_endpoint c.id nep)) >> fail e) w'
              (called laws (Occupies c.id nep) (laws.occupies c.id nep mid) w' st')
              (λ u w'' (b', (nobody, same), st''). returns {a = u} {w = w''} (
                mid,
                k,
                sym (ap (λ f. f ip) (connected_tenant mid k)) ∙ nobody,
                subst (λ x. At laws x w'') same st'',
              ))
              (λ e w'' (b', o, st'').
                disconnected w'' e b'
                  (Aside-trans mid (connected-Aside mid k) (refused-Aside mid b' e o)) st''))
          (λ e w' (b', (f, same), st'). (b', same-Aside same, st'))

  module _ (b : Book) where
    abbrev Making : Contract (Unit {0})
    Making = Makes at c.id

    deleted :
        (nep : NetEndpoint) (w : W) (e : Error) (b' : Book)
        → b.owner nep.ipv4 ≡ none
        → b'.linked nep.ipv4 ≡ none
        → Aside c.id nep.ipv4 b b'
        → At laws b' w
        → Ends
            (Answers (At laws) Making b)
            (Fails (At laws) Making b)
            (err e, (on_disk {A = Unit {0}} (store.delete_net_endpoint nep) w).1)
    deleted nep w e b' free unnamed a st =
        logged-Ends (λ w'. Ends (Answers (At laws) Making b) (Fails (At laws) Making b) (err e, w'))
          (called laws (Deletes nep) (laws.deletes nep b' unnamed) w st)
          (λ u w' (b'', gone, st'). fails (
            b'',
            inr (nep.ipv4, free, Aside-trans b' a (Near-Aside (erased-Near b' b'' nep gone))),
            st',
          ))
          (λ x w' (b'', (f, near), st').
            fails (b'', inr (nep.ipv4, free, Aside-trans b' a (Near-Aside near)), st'))

    -- Addresses are no names of containers.
    abbrev pub Apart : Type 0
    Apart = (ip : String) → rt_laws.IsAddress ip → (b.linked ip ≡ none) × ((c.id == ip) ≡ false)

    module _ (ip : String) (unnamed : b.linked ip ≡ none) (other : (c.id == ip) ≡ false) where
      made :
          (nep : NetEndpoint) (w : W) (b' : Book)
          → Creates at c.id ip b (ok nep) b'
          → At laws b' w
          → Ends
              (Answers (At laws) Making b)
              (Fails (At laws) Making b)
              (on_error (settle store rt c nep) (on_disk (store.delete_net_endpoint nep)) w)
      made nep w b' (i, n, o, free, same) st =
          let at_ip : b.owner nep.ipv4 ≡ none = ap b.owner i ∙ free in
          let after : b' ≡ created b c.id nep.ipv4 = same ∙ ap (created b c.id) (sym i) in
          let st' : At laws (created b c.id nep.ipv4) w = subst (λ x. At laws x w) after st in
          catch-Ends (settle store rt c nep) pure
            (λ e. log_error (on_disk (store.delete_net_endpoint nep)) >> fail e) w
            (settle-Ends nep (created b c.id nep.ipv4) w st')
            (λ u w' (mid, k, nobody, st'').
              returns (taken mid nep c.id, (nep, mid, at_ip, nobody, k, refl), st''))
            (λ e w' (b'', a, st'').
              deleted nep w' e b'' at_ip
                (a.links nep.ipv4 (ap (λ j. c.id == j) i ∙ other) ∙ ap b.linked i ∙ unnamed)
                (record { links = a.links; tenants = a.tenants }) st'')

    -- Where the address that is probed names no container, `CreateNetEndpoint` succeeds only for
    -- an address without owner and tenant, which the container then owns, is linked to unless it
    -- had a link or an endpoint in its name, and holds; after an error either no link and no
    -- tenant has changed, or the address had no owner and no other container's link and no other
    -- address's tenant has.
    pub create_net_endpoint-Ends :
        (w : W)
        → At laws b w
        → Apart
        → Ends
            (Answers (At laws) Making b)
            (Fails (At laws) Making b)
            (create_net_endpoint store rt c w)
    unfolding create_net_endpoint
    create_net_endpoint-Ends w st apart =
        >>=-Ends (on_host (rt.probe_ipv4 (netns c))) _ w
          (probe_ipv4-Ends laws rt_laws (netns c) w st)
          (λ ip w' (addr, st').
            let (unnamed, other) = apart ip addr in
            >>=-Ends (on_disk (store.create_net_endpoint (netns c) c.id ip)) _ w'
              (called laws (Creates at c.id ip) (laws.creates (netns c) c.id ip b unnamed) w' st')
              (λ nep w'' (b', m, st''). made ip unnamed other nep w'' b' m st'')
              (λ e w'' (b', (f, l, t), st''). (b', inl (l, t), st'')))
          (λ e w' st'. (b, inl (refl, refl), st'))
