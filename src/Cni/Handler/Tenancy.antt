-- ===== src/Cni/Handler/Tenancy.antt =====
-- What the handlers of cni/handler leave of other containers' links and tenancies.
use barrel.Prelude.{
  String, Bool, true, false, Option, none, some, ◌≡◌, refl, ◌∙◌, ap, string_eq, ◌&&◌, not,
  if◌then◌else◌,
}
use barrel.Types.{Result, ok, err}
use barrel.Method.{M, pure, fail, Ends, returns, fails, >>=-Ends, >>-Ends, Ends-mono}
use barrel.Cni.Endpoint.{
  FilePath, NetEndpoint, ContainerMeta, requires_fixed_ip, requires_specific_ip,
}
use barrel.Cni.Store.{EndpointStore, EndpointStoreLaws, Book, Untouched, Frees}
use barrel.Cni.Filesystem.{nil_dereference}
use barrel.Cni.Machine.{Machine, Runtime, RuntimeLaws, on_disk, on_host}
use barrel.Cni.Base.{free, delete_dangling_network}
use barrel.Cni.Base.Calls.{At, called, still, unlock_untouched}
use barrel.Cni.Base.Dangling.{delete_dangling_network-Ends}
use barrel.Cni.Subhandlers.{
  Subhandler, fixed, specific, fixed_specific, super, hook_or_borrow, create_if_none, free_or_panic,
  add_hook, unlock_and, create_locked, free_and_clean, connect_or_create,
}
use barrel.Cni.Handler.Safe.{Safe-trans, Frees-Safe, Cleans-Safe}
use barrel.Cni.Handler.Steps.{
  Sound, Keeps, Kept, unchanged, quiet, hook-Keeps, borrow-Keeps, create-Keeps, free-Keeps,
  connect-Keeps, by_id-Keeps, by_ip-Keeps,
}
use barrel.Cni.Handler.{get_subhandler, handle_create, handle_start, handle_delete}

module _ {S H : Type 0} {store : EndpointStore S} {rt : Runtime H} {Stands : Book → S → Type 0}
    {at : String → FilePath} (laws : EndpointStoreLaws S store Stands at)
    (rt_laws : RuntimeLaws H rt) (c : ContainerMeta) (b : Book) (sound : Sound rt_laws c b) where
  abbrev W : Type 0
  W = Machine S H

  abbrev Minds : M W (Unit {0}) → Type 0
  Minds m = (w : W) → At laws b w → Keeps laws rt_laws c b m w

  panics : Minds (fail nil_dereference)
  panics w st = fails (unchanged laws rt_laws c b w refl st)

  nothing : Minds (pure tt)
  nothing w st = returns (unchanged laws rt_laws c b w refl st)

  fixed-create : Minds ((fixed store rt).handle_create c)
  unfolding fixed
  fixed-create w st = by_id-Keeps laws rt_laws c b (hook_or_borrow store rt c) w step st
    where
      step : (r : Option NetEndpoint) → Minds (hook_or_borrow store rt c r)
      step none = hook-Keeps laws rt_laws c b
      step (some nep) = borrow-Keeps laws rt_laws c b nep

  fixed-start : Minds ((fixed store rt).handle_start c)
  unfolding fixed
  fixed-start w st = by_id-Keeps laws rt_laws c b (create_if_none store rt c) w step st
    where
      step : (r : Option NetEndpoint) → Minds (create_if_none store rt c r)
      step none = create-Keeps laws rt_laws c b sound
      step (some nep) = nothing

  fixed-delete : Minds ((fixed store rt).handle_delete c)
  unfolding fixed
  fixed-delete w st = by_id-Keeps laws rt_laws c b (free_or_panic store rt c) w step st
    where
      step : (r : Option NetEndpoint) → Minds (free_or_panic store rt c r)
      step none = panics
      step (some nep) = free-Keeps laws rt_laws c b nep

  -- Giving back the lock changes no book.
  given_back :
      (flock : store.Flock) {r : Result (Unit {0}) × W}
      → Ends (Kept laws rt_laws c b) (Kept laws rt_laws c b) r
      → Ends
          (Kept laws rt_laws c b)
          (Kept laws rt_laws c b)
          (r.0, (on_disk {A = Unit {0}} (store.unlock flock) r.1).1)
  given_back flock (returns {w} (b', s, st)) = returns (b', s, unlock_untouched laws flock b' w st)
  given_back flock (fails {w} (b', s, st)) = fails (b', s, unlock_untouched laws flock b' w st)

  unlock_and-Minds :
      (flock : store.Flock) (m : M W (Unit {0})) (r : Option NetEndpoint)
      → Minds m
      → Minds (unlock_and store rt flock m c r)
  unlock_and-Minds flock m none h w st =
      >>-Ends (on_disk (store.unlock flock)) m w
        (called laws (Untouched {A = Unit {0}}) (laws.unlocks flock b) w st)
        (λ w' q. h w' (still laws w' q))
        (λ e w' (b', (f, same), st'). unchanged laws rt_laws c b w' same st')
  unlock_and-Minds flock m (some nep) h w st =
      given_back flock (borrow-Keeps laws rt_laws c b nep w st)

  create_locked-Minds : (m : M W (Unit {0})) → Minds m → Minds (create_locked store rt m c)
  create_locked-Minds m h w st =
      >>=-Ends (on_disk (store.get_flock c.specific_ip)) _ w
        (called laws (Untouched {A = store.Flock}) (laws.gets_flock c.specific_ip b) w st)
        (λ flock w' q.
          >>-Ends (on_disk (store.lock flock)) _ w'
            (called laws (Untouched {A = Unit {0}}) (laws.locks flock b) w' (still laws w' q))
            (λ w'' q'.
              by_ip-Keeps laws rt_laws c b (unlock_and store rt flock m c) w''
                (λ r u _ st'. unlock_and-Minds flock m r h u st') (still laws w'' q'))
            (λ e w'' (b', (f, same), st'). unchanged laws rt_laws c b w'' same st'))
        (λ e w' (b', (f, same), st'). unchanged laws rt_laws c b w' same st')

  -- The endpoint is freed, and deleted if nobody uses it any more.
  freed_and_clean :
      (nep : NetEndpoint) → nep.ipv4 ≡ c.specific_ip → Minds (free_and_clean store rt c (some nep))
  freed_and_clean nep i w st =
      >>-Ends (free store rt c.id nep) (delete_dangling_network store rt nep) w
        (called laws (Frees c.id nep) (laws.frees c.id nep b) w st)
        (λ w' (mid, k, st').
          let s = Frees-Safe at c.id b nep (ok tt) mid k in
          let unnamed : mid.linked nep.ipv4 ≡ none =
            ap (λ x. x.linked nep.ipv4) k.1 ∙ ap b.linked i ∙ sound.asked in
          Ends-mono (delete_dangling_network-Ends rt laws nep mid unnamed w' st')
            (λ u w'' (b', d, st'').
              (b', Safe-trans mid s (Cleans-Safe at c.id mid nep (ok tt) b' d), st''))
            (λ e w'' (b', d, st'').
              (b', Safe-trans mid s (Cleans-Safe at c.id mid nep (err e) b' d), st'')))
        (λ e w' (b', (f, same), st'). unchanged laws rt_laws c b w' same st')

  specific-delete : Minds ((specific store rt).handle_delete c)
  unfolding specific
  specific-delete w st = by_ip-Keeps laws rt_laws c b (free_and_clean store rt c) w step st
    where
      step :
          (r : Option NetEndpoint) (w' : W)
          → ((nep : NetEndpoint) → r ≡ some nep → nep.ipv4 ≡ c.specific_ip)
          → At laws b w'
          → Keeps laws rt_laws c b (free_and_clean store rt c r) w'
      step none w' i st' = nothing w' st'
      step (some nep) w' i st' = freed_and_clean nep (i nep refl) w' st'

  fixed_specific-start : Minds ((fixed_specific store rt).handle_start c)
  unfolding fixed_specific
  fixed_specific-start w st =
      by_ip-Keeps laws rt_laws c b (connect_or_create store rt c) w (λ r w' i. step r w') st
    where
      step : (r : Option NetEndpoint) → Minds (connect_or_create store rt c r)
      step none = create-Keeps laws rt_laws c b sound
      step (some nep) = connect-Keeps laws rt_laws c b nep

  -- All of a subhandler's methods.
  record Mindful (h : Subhandler W) : Type 0 where
    creates : Minds (h.handle_create c)
    starts : Minds (h.handle_start c)
    deletes : Minds (h.handle_delete c)

  fixed-Mindful : Mindful (fixed store rt)
  fixed-Mindful = record { creates = fixed-create; starts = fixed-start; deletes = fixed-delete }

  specific-Mindful : Mindful (specific store rt)
  unfolding specific
  specific-Mindful = record {
    creates =
        create_locked-Minds (on_host (rt.handle_create c))
          (quiet laws rt_laws c b (rt.handle_create c));
    starts = nothing;
    deletes = specific-delete;
  }

  fixed_specific-Mindful : Mindful (fixed_specific store rt)
  unfolding fixed_specific
  fixed_specific-Mindful = record {
    creates = create_locked-Minds (add_hook store rt c) (hook-Keeps laws rt_laws c b);
    starts = fixed_specific-start;
    deletes = fixed-delete;
  }

  super-Mindful : Mindful (super store rt)
  unfolding super
  super-Mindful = record {
    creates = quiet laws rt_laws c b (rt.handle_create c);
    starts = quiet laws rt_laws c b (rt.handle_start c);
    deletes = quiet laws rt_laws c b (rt.handle_delete c);
  }

  get_subhandler-Mindful : Mindful (get_subhandler store rt c)
  unfolding get_subhandler
  get_subhandler-Mindful = by_tests (requires_fixed_ip c) (requires_specific_ip c)
    where
      by_tests :
          (f s : Bool)
          → Mindful (
              if f && not s
              then fixed store rt
              else if f && s
              then fixed_specific store rt
              else if not f && s
              then specific store rt
              else super store rt)
      by_tests true true = fixed_specific-Mindful
      by_tests true false = fixed-Mindful
      by_tests false true = specific-Mindful
      by_tests false false = super-Mindful

  -- For a container whose name is no address, in a book where every tenant's endpoint has an owner
  -- and no link goes out from an address, `HandleCreate`, `HandleStart` and `HandleDelete` leave
  -- the link of every other container, and every endpoint whose tenant is another container, as
  -- they were, whether they succeed or not.
  pub handlers-Safe :
      (w : W)
      → At laws b w
      → Keeps laws rt_laws c b (handle_create store rt c) w
        × Keeps laws rt_laws c b (handle_start store rt c) w
        × Keeps laws rt_laws c b (handle_delete store rt c) w
  unfolding handle_create handle_start handle_delete
  handlers-Safe w st = (
    get_subhandler-Mindful.creates w st,
    get_subhandler-Mindful.starts w st,
    get_subhandler-Mindful.deletes w st,
  )
