-- ===== src/Cni/Handler/Steps.antt =====
-- What the steps of cni/subhandler leave of other containers' links and tenancies.
use barrel.Prelude.{String, false, Option, none, some, ◌≡◌, refl, subst, string_eq, ◌==◌}
use barrel.Types.{ok, err}
use barrel.Method.{M, Ends, >>=-Ends, Ends-mono, ◌>>=◌}
use barrel.Cni.Endpoint.{FilePath, NetEndpoint, ContainerMeta}
use barrel.Cni.Store.{EndpointStore, EndpointStoreLaws, Book, GetsById, GetsByIp, Connects, Frees}
use barrel.Cni.Machine.{Machine, Runtime, RuntimeLaws, on_disk, on_host}
use barrel.Cni.Base.{free, borrow_net_endpoint, create_net_endpoint}
use barrel.Cni.Base.Calls.{At, called, hosted, still}
use barrel.Cni.Base.Borrow.{borrow_net_endpoint-Ends}
use barrel.Cni.Base.Make.{create_net_endpoint-Ends}
use barrel.Cni.Subhandlers.{add_hook}
use barrel.Cni.Handler.Safe.{Safe, same-Safe, Borrows-Safe, Frees-Safe, Connects-Safe, Makes-Safe}

-- A container's name and the addresses are apart, and a tenant's endpoint has an owner.
pub record Sound {H : Type 0} {rt : Runtime H} (rt_laws : RuntimeLaws H rt) (c : ContainerMeta)
    (b : Book) : Type 0 where
  pub owned : (ip : String) → b.owner ip ≡ none → b.tenant ip ≡ none
  pub apart : (ip : String) → rt_laws.IsAddress ip → (b.linked ip ≡ none) × ((c.id == ip) ≡ false)
  pub asked : b.linked c.specific_ip ≡ none

some_injective : {A : Type 0} {x y : A} → some x ≡ some y → x ≡ y
some_injective e = cc

module _ {S H : Type 0} {store : EndpointStore S} {rt : Runtime H} {Stands : Book → S → Type 0}
    {at : String → FilePath} (laws : EndpointStoreLaws S store Stands at)
    (rt_laws : RuntimeLaws H rt) (c : ContainerMeta) (b : Book) where
  abbrev W : Type 0
  W = Machine S H

  abbrev pub Kept : {A : Type 0} → A → W → Type 0
  Kept a w = (b' : Book) × Safe c.id b b' × At laws b' w

  abbrev pub Keeps : M W (Unit {0}) → W → Type 0
  Keeps m w = Ends Kept Kept (m w)

  pub unchanged : {b' : Book} (w : W) → b' ≡ b → At laws b' w → Kept tt w
  unchanged {b'} w same st = (b', same-Safe same, st)

  pub quiet : (m : M H (Unit {0})) (w : W) → At laws b w → Keeps (on_host m) w
  quiet m w st =
      Ends-mono (hosted laws m w st) (λ u w' st'. unchanged w' refl st')
        (λ e w' st'. unchanged w' refl st')

  pub hook-Keeps : (w : W) → At laws b w → Keeps (add_hook store rt c) w
  hook-Keeps w st =
      >>=-Ends (on_host (rt.add_cni_start_hook c)) (λ c'. on_host (rt.save c')) w
        (hosted laws (rt.add_cni_start_hook c) w st) (λ c' w' st'. quiet (rt.save c') w' st')
        (λ e w' st'. unchanged w' refl st')

  pub borrow-Keeps :
      (nep : NetEndpoint) (w : W) → At laws b w → Keeps (borrow_net_endpoint store rt c nep) w
  borrow-Keeps nep w st =
      Ends-mono (borrow_net_endpoint-Ends laws rt_laws c nep b w st)
        (λ u w' ((b', k, st'), s). (b', Borrows-Safe at c.id b nep (ok tt) b' k, st'))
        (λ e w' (b', k, st'). (b', Borrows-Safe at c.id b nep (err e) b' k, st'))

  pub create-Keeps :
      Sound rt_laws c b → (w : W) → At laws b w → Keeps (create_net_endpoint store rt c) w
  create-Keeps sound w st =
      Ends-mono (create_net_endpoint-Ends laws rt_laws c b w st sound.apart)
        (λ u w' (b', k, st'). (b', Makes-Safe at c.id b sound.owned (ok tt) b' k, st'))
        (λ e w' (b', k, st'). (b', Makes-Safe at c.id b sound.owned (err e) b' k, st'))

  pub free-Keeps : (nep : NetEndpoint) (w : W) → At laws b w → Keeps (free store rt c.id nep) w
  free-Keeps nep w st =
      Ends-mono (called laws (Frees c.id nep) (laws.frees c.id nep b) w st)
        (λ u w' (b', k, st'). (b', Frees-Safe at c.id b nep (ok tt) b' k, st'))
        (λ e w' (b', k, st'). (b', Frees-Safe at c.id b nep (err e) b' k, st'))

  pub connect-Keeps :
      (nep : NetEndpoint) (w : W)
      → At laws b w
      → Keeps (on_disk (store.connect_net_endpoint c.id nep)) w
  connect-Keeps nep w st =
      Ends-mono (called laws (Connects at c.id nep) (laws.connects c.id nep b) w st)
        (λ u w' (b', k, st'). (b', Connects-Safe at c.id b nep (ok tt) b' k, st'))
        (λ e w' (b', k, st'). (b', Connects-Safe at c.id b nep (err e) b' k, st'))

  -- What follows the look at the store.
  pub by_id-Keeps :
      (k : Option NetEndpoint → M W (Unit {0})) (w : W)
      → ((r : Option NetEndpoint) (w' : W) → At laws b w' → Keeps (k r) w')
      → At laws b w
      → Keeps (on_disk (store.get_net_endpoint_by_id c.id) >>= k) w
  by_id-Keeps k w h st =
      >>=-Ends (on_disk (store.get_net_endpoint_by_id c.id)) k w
        (called laws (GetsById at c.id) (laws.gets_by_id c.id b) w st)
        (λ r w' (b', g, st'). h r w' (got r b' w' g st'))
        (λ e w' (b', (f, same), st'). unchanged w' same st')
    where
      got :
          (r : Option NetEndpoint) (b' : Book) (w' : W)
          → GetsById at c.id b (ok r) b'
          → At laws b' w'
          → At laws b w'
      got none b' w' g st' = still laws w' (b', g.0, st')
      got (some nep) b' w' g st' = still laws w' (b', g.0, st')

  pub by_ip-Keeps :
      (k : Option NetEndpoint → M W (Unit {0})) (w : W)
      → ((r : Option NetEndpoint) (w' : W)
          → ((nep : NetEndpoint) → r ≡ some nep → nep.ipv4 ≡ c.specific_ip)
          → At laws b w'
          → Keeps (k r) w')
      → At laws b w
      → Keeps (on_disk (store.get_net_endpoint_by_ip c.specific_ip) >>= k) w
  by_ip-Keeps k w h st =
      >>=-Ends (on_disk (store.get_net_endpoint_by_ip c.specific_ip)) k w
        (called laws (GetsByIp at c.specific_ip) (laws.gets_by_ip c.specific_ip b) w st)
        (λ r w' (b', g, st'). got r b' w' g st')
        (λ e w' (b', (f, same), st'). unchanged w' same st')
    where
      got :
          (r : Option NetEndpoint) (b' : Book) (w' : W)
          → GetsByIp at c.specific_ip b (ok r) b'
          → At laws b' w'
          → Keeps (k r) w'
      got none b' w' g st' = h none w' (λ nep e. absurd (cc)) (still laws w' (b', g.0, st'))
      got (some nep) b' w' g st' =
          h (some nep) w'
            (λ n e. subst (λ (m : NetEndpoint). m.ipv4 ≡ c.specific_ip) (some_injective e) g.1)
            (still laws w' (b', g.0, st'))
