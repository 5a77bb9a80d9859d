-- ===== src/Vessel/Helper/Reserve.antt =====
-- `ReserveAddressForContainer`: the loop that adds an address to the record of a container.
use barrel.Prelude.{
  ℕ, [], ◌∷◌, ◌++◌, Bool, true, false, none, some, ◌≡◌, ◌≢◌, refl, sym, ap, ◌∙◌, inl, inr, any,
  Bool-cases, arith, if◌then◌else◌, Option, subst, All,
}
use barrel.Types.{
  ok, Error, IsForeign, err_but_other_then_kv_unexists_err, Ip, Container, ContainerInfo,
}
use barrel.Store.Client.{KvLaws, View, version_of}
use barrel.Store.Etcd.{get, rest, reached}
use barrel.Codecs.{ContainerInfoCodec, container_info_codec}
use barrel.Vessel.World.{
  Clients, WorldOf, Ends, Ends_returned, returns, fails, >>=-Ends, catch-Ends, on_store, fail,
}
use barrel.Vessel.FixedPool.Steps.{HasRead, V as view_of, foreign_exists}
use barrel.Vessel.Helper.{
  enough, with_addresses, codec_of, update_record, stop_or_turn, same_ip, reserve_put, reserve_got,
  reserve_turn, reserve_loop,
}
use barrel.Vessel.Helper.Record.{
  key_of, Stored, GotRecord, NoRecord, get-Ends, Swapped, update_record-Ends,
}
use barrel.Vessel.Helper.Turns.{
  IsReady, IsOwn-ready, IsReady-read, Failed, Turn, Finished, turns-Ends, IsProper, undisturbed,
  HasTurned-alone,
}
use barrel.Vessel.Helper.Release.{Rewrote, swap-Turn}

module _ (net : Clients) (laws : KvLaws net.kv) (ct : Container) (ip : Ip) where
  open net use {kv}

  abbrev V : WorldOf net → View
  V = view_of net laws

  -- How the loop returns without an error.
  pub data Reserves (w : WorldOf net) (a : Unit {0}) (w' : WorldOf net) : Type 0 where
    already :
        (i : ContainerInfo) (n : ℕ)
        → Stored (V w) ct i n
        → any (λ a. same_ip a ip) i.addresses ≡ true
        → kv.view w'.shared.store ≡ V w
        → Reserves w a w'
    appended :
        (i : ContainerInfo)
        → any (λ a. same_ip a ip) i.addresses ≡ false
        → Rewrote net laws ct i (i.addresses ++ ip ∷ []) w w'
        → Reserves w a w'
    -- No record was read, and yet one stood there at the swap: never without another client.
    met_another :
        (u : WorldOf net)
        → V w (key_of ct) ≡ none
        → HasRead net w u
        → V u (key_of ct) ≢ none
        → Reserves w a w'

  reserve_got-Turn :
      (w u : WorldOf net) (c : ContainerInfoCodec)
      → IsReady net laws ct w
      → GotRecord net laws ct w c u
      → Ends (Turn net laws ct Reserves w) (Failed net laws ct) (reserve_got net ip c u)
  reserve_got-Turn w u c ready ((i, n, st, same), h) =
      rw same (elim (Bool-cases (any (λ a. same_ip a ip) i.addresses)) [
        | inl there ↦ rw there (returns {w = u} (already i n st there h.same_view))
        | inr missing ↦ rw missing (
            swap-Turn net laws ct Reserves tt (i.addresses ++ ip ∷ []) i n w u
              (IsReady-read net laws ct w u ready h) st h (λ w' g. appended i missing g))
      ])

  -- The first record of a container, made when none was read.
  first-Turn :
      (w u : WorldOf net)
      → IsReady net laws ct u
      → V w (key_of ct) ≡ none
      → HasRead net w u
      → Ends
          (Turn net laws ct Reserves w)
          (Failed net laws ct)
          (reserve_put net (codec_of ct) (ip ∷ []) u)
  first-Turn w u ready gone h =
      >>=-Ends (update_record net (with_addresses (codec_of ct) (ip ∷ []))) (stop_or_turn net tt) u
        (update_record-Ends net laws ct (with_addresses (codec_of ct) (ip ∷ [])) u refl
          (IsOwn-ready net laws ct u ready))
        (λ r x g. turned r x g) (λ e x g. g)
    where
      turned :
          (r : Bool × ContainerInfoCodec) (x : WorldOf net)
          → Swapped net laws ct (with_addresses (codec_of ct) (ip ∷ [])) u r x
          → Ends (Turn net laws ct Reserves w) (Failed net laws ct) (stop_or_turn net tt r x)
      turned (true, c) x g = returns {w = x} (met_another u gone h g.1)
      turned (false, c) x g = returns {w = x} (
        record {
          between = u;
          acted = h;
          changed = λ same. g.0 (same ∙ ap version_of gone);
          kept = g.1;
          later_others = g.2;
        },
        g.3,
      )

  foreign_other : (e : Error) → IsForeign e → err_but_other_then_kv_unexists_err (some e) ≡ true
  foreign_other e f = rw (foreign_exists e f)

  unread :
      (w u : WorldOf net) (e : Error)
      → IsReady net laws ct w
      → NoRecord net laws ct w e u
      → Ends (Turn net laws ct Reserves w) (Failed net laws ct) (
          (if err_but_other_then_kv_unexists_err (some e)
              then fail e
              else reserve_put net (codec_of ct) (ip ∷ []))
            u)
  unread w u e ready (inr (same, gone), h) =
      rw same (first-Turn w u (IsReady-read net laws ct w u ready h) gone h)
  unread w u e ready (inl f, h) = rw (foreign_other e f) (fails (inl f))

  reserve_turn-Ends :
      (c : ContainerInfoCodec) (w : WorldOf net)
      → c.info.container ≡ ct
      → IsReady net laws ct w
      → Ends (Turn net laws ct Reserves w) (Failed net laws ct) (reserve_turn net ct ip c w)
  reserve_turn-Ends c w of_ct ready =
      catch-Ends (on_store (get kv (codec_of ct))) (reserve_got net ip)
        (λ e.
          if err_but_other_then_kv_unexists_err (some e)
          then fail e
          else reserve_put net (codec_of ct) (ip ∷ []))
        w (get-Ends net laws ct (codec_of ct) w refl (IsOwn-ready net laws ct w ready))
        (λ c' u g. reserve_got-Turn w u c' ready g) (λ e u g. unread w u e ready g)

  -- Where the record of a container is its own and the other clients keep it so, the loop of
  -- `ReserveAddressForContainer` ends: the record held the address already, or a swap has appended
  -- it to the addresses that were read, or another client made a record where none was read; an
  -- error is that of a library, or says that the key does not exist.
  pub reserve_loop-Ends :
      (w : WorldOf net)
      → IsReady net laws ct w
      → Ends (Finished net laws ct Reserves w) (Failed net laws ct) (reserve_loop net ct ip w)
  reserve_loop-Ends w ready =
      turns-Ends net laws ct Reserves (reserve_turn net ct ip) reserve_turn-Ends (enough net w)
        (codec_of ct) w refl (omega arith) ready

  alone-IsReady :
      (w : WorldOf net) → w.shared.others ≡ [] → V w (key_of ct) ≡ none → IsReady net laws ct w
  alone-IsReady w alone gone = record {
    own = inl (ap (λ os. kv.view (reached w.shared.store os) (key_of ct)) (sym alone) ∙ gone);
    proper = subst (All (IsProper kv ct)) (sym alone) tt;
  }

  Reserves-alone :
      (w w' : WorldOf net) (a : Unit {0})
      → w.shared.others ≡ []
      → V w (key_of ct) ≡ none
      → Reserves w a w'
      → ⊥
  Reserves-alone w w' a alone gone (already i n st there same) = cc (gone, st.entry)
  Reserves-alone w w' a alone gone (appended i missing g) = cc (gone, g.read.entry)
  Reserves-alone w w' a alone gone (met_another u _ h there) =
      there (undisturbed net laws ct w u h (h.later_others ∙ ap rest alone) ∙ gone)

  -- Where no other client acts any more and the container has no record, the loop of
  -- `ReserveAddressForContainer` never returns without an error.
  pub reserve_loop-first :
      (w w' : WorldOf net) (o : Option (Unit {0}))
      → w.shared.others ≡ []
      → V w (key_of ct) ≡ none
      → reserve_loop net ct ip w ≢ (ok o, w')
  reserve_loop-first w w' o alone gone e =
      let (a, _, u, turned, r) =
        Ends_returned (reserve_loop-Ends w (alone-IsReady w alone gone)) o w' e in
      let same = HasTurned-alone net laws ct w u alone turned in
      Reserves-alone w w' a alone gone (subst (λ v. Reserves v a w') (sym same) r)
