-- ===== src/Vessel/FixedPool/Rounds.antt =====
-- The loops of `BorrowFixedIP` and `ReturnFixedIP`: rounds of a read and a swap, the lost ones first.
use barrel.Prelude.{
  ℕ, suc, ◌<◌, List, [], ◌∷◌, Bool, true, false, ◌≡◌, refl, sym, ap, subst, ◌∙◌, inl, inr, All,
  if◌then◌else◌, arith,
}
use barrel.Types.{
  Result, ok, err, Error, kv_not_exists, fixed_ip_not_allocated, max_retry_count_exceeded,
  IsForeign, Ip, IpInfo,
}
use barrel.Store.Client.{Kv, KvLaws, View}
use barrel.Store.Etcd.{Shared, rest, reached, update_else_get}
use barrel.Store.Etcd.Rounds.{others-update_else_get}
use barrel.Codecs.{IpInfoCodec, encode_ip_info, ip_info_codec}
use barrel.Codecs.Keys.{ip_info_key_same}
use barrel.Vessel.World.{
  Clients, WorldOf, M, Ends, returns, >>=-Ends, Ends-and, Ends-mono, ◌>>=◌, pure,
}
use barrel.Vessel.FixedPool.{codec_of, update, swapped}
use barrel.Vessel.FixedPool.Steps.{
  V as view_of, Stored, IsOwn, codec_for, HasRead, update-Ends, Swapped, SwapFailed, NotFound,
}
use barrel.Vessel.FixedPool.Assign.{Wrote, Lost}
use barrel.Vessel.FixedPool.Exclusive.{All-rest}

-- Another client puts only a record of the address under its key, or removes it.
abbrev pub IsProper : (kv : Kv) → Ip → (kv.State → kv.State) → Type 0
IsProper kv ip f = (s : kv.State) → IsOwn (kv.view s) ip → IsOwn (kv.view (f s)) ip

reached-IsOwn :
    (kv : Kv) (ip : Ip) (s : kv.State) (os : List (kv.State → kv.State))
    → All (IsProper kv ip) os
    → IsOwn (kv.view s) ip
    → IsOwn (kv.view (reached s os)) ip
reached-IsOwn kv ip s [] h own = own
reached-IsOwn kv ip s (f ∷ fs) h own = h.0 s own

swapped_state : {S : Type 0} (t : (Bool × Result IpInfoCodec) × S) → (swapped t).1 ≡ t.1
swapped_state ((b, ok _), s) = refl
swapped_state ((b, err e), s) = refl

module _ (net : Clients) (laws : KvLaws net.kv) (ip : Ip) where
  open net use {kv}

  -- The state before a round.
  pub record IsReady (w : WorldOf net) : Type 0 where
    pub own : IsOwn (kv.view w.shared.store) ip
    pub proper : All (IsProper kv ip) w.shared.others

  pub IsOwn-ready : (w : WorldOf net) → IsReady w → IsOwn (view_of net laws w) ip
  IsOwn-ready w h = reached-IsOwn kv ip w.shared.store w.shared.others h.proper h.own

  -- A call that leaves the contents as it found them keeps the state ready.
  IsReady-step :
      (w u : WorldOf net)
      → IsReady w
      → kv.view u.shared.store ≡ view_of net laws w
      → u.shared.others ≡ rest w.shared.others
      → IsReady u
  IsReady-step w u h same later = record {
    own = subst (λ (v : View). IsOwn v ip) (sym same) (IsOwn-ready w h);
    proper = subst (All (IsProper kv ip)) (sym later) (All-rest _ w.shared.others h.proper);
  }

  pub IsReady-read : (w u : WorldOf net) → IsReady w → HasRead net w u → IsReady u
  IsReady-read w u ready h = IsReady-step w u ready h.same_view h.later_others

  -- So many rounds were lost to other clients.
  pub data Losing : ℕ → WorldOf net → WorldOf net → Type 0 where
    none_lost : (w : WorldOf net) → Losing 0 w w
    one_lost :
        (n : ℕ) (w u w' : WorldOf net) → Lost net laws ip w u → Losing n u w' → Losing (suc n) w w'

  -- After less than `n` lost rounds, `P` holds of the next one.
  abbrev pub Within : (WorldOf net → WorldOf net → Type 0) → ℕ → WorldOf net → WorldOf net → Type 0
  Within P n w w' = (k : ℕ) × (u : WorldOf net) × Losing k w u × (k < n) × P u w'

  pub data Stopped (n : ℕ) (w : WorldOf net) (e : Error) (w' : WorldOf net) : Type 0 where
    client_failed : IsForeign e → Stopped n w e w'
    gone_meanwhile : e ≡ kv_not_exists → Stopped n w e w'
    not_allocated : e ≡ fixed_ip_not_allocated → Stopped n w e w'
    exhausted : e ≡ max_retry_count_exceeded → Losing n w w' → Stopped n w e w'

  pub NotFound-Stopped :
      (n : ℕ) (w u : WorldOf net) (e : Error) → NotFound net laws ip w e u → Stopped n w e u
  NotFound-Stopped n w u e (inl f, h) = client_failed f
  NotFound-Stopped n w u e (inr (same, gone), h) = not_allocated same

  module _ (P : WorldOf net → WorldOf net → Type 0) (n : ℕ) where
    later : (w u w' : WorldOf net) → Lost net laws ip w u → Within P n u w' → Within P (suc n) w w'
    later w u w' l (k, v, losing, less, p) = (suc k, v, one_lost k w u v l losing, omega arith, p)

    later-Stopped :
        (w u w' : WorldOf net) (e : Error)
        → Lost net laws ip w u
        → Stopped n u e w'
        → Stopped (suc n) w e w'
    later-Stopped w u w' e l (client_failed f) = client_failed f
    later-Stopped w u w' e l (gone_meanwhile g) = gone_meanwhile g
    later-Stopped w u w' e l (not_allocated g) = not_allocated g
    later-Stopped w u w' e l (exhausted g losing) = exhausted g (one_lost n w u w' l losing)

    -- One round's swap of the record `j` for the record `i` that was read.
    pub swap-Within :
        (again : M (WorldOf net) (Unit {0})) (w u : WorldOf net) (i j : IpInfo) (m : ℕ)
        → IsReady u
        → Stored (view_of net laws w) ip i m
        → HasRead net w u
        → j.pool_id ≡ i.pool_id
        → j.address ≡ i.address
        → ((w' : WorldOf net) → Wrote net laws ip i j w w' → P w w')
        → ((x : WorldOf net) → IsReady x → Ends (λ _ w'. Within P n x w') (Stopped n x) (again x))
        → Ends
            (λ _ w'. Within P (suc n) w w')
            (Stopped (suc n) w)
            ((update net (codec_for j m) >>= λ done. if done then pure tt else again) u)
    swap-Within again w u i j m ready st h same_pool same_address found ih =
        >>=-Ends (update net (codec_for j m)) (λ done. if done then pure tt else again) u
          (Ends-and (λ x. x.shared.others ≡ rest u.shared.others)
            (update-Ends net laws ip (codec_for j m) u (
              ip_info_key_same _ (codec_of ip) (same_pool ∙ st.same_pool)
                (same_address ∙ st.same_address)))
            (ap (λ (s : Shared kv.State). s.others)
                (swapped_state (update_else_get kv (codec_for j m) u.shared))
              ∙ others-update_else_get kv (codec_for j m) u.shared (encode_ip_info j) refl))
          (λ b x g. swapped_by b x g.0 g.1) (λ e x g. failed e x g.0)
      where
        failed : (e : Error) (x : WorldOf net) → SwapFailed net laws e x → Stopped (suc n) w e x
        failed e x (inl f) = client_failed f
        failed e x (inr g) = gone_meanwhile g

        swapped_by :
            (b : Bool) (x : WorldOf net)
            → Swapped net laws ip (codec_for j m) u b x
            → x.shared.others ≡ rest u.shared.others
            → Ends
                (λ _ w'. Within P (suc n) w w')
                (Stopped (suc n) w)
                ((if b then pure tt else again) x)
        swapped_by true x g others = returns {w = x} (
          0,
          w,
          none_lost w,
          omega arith,
          found x (record {
            version = m;
            between = u;
            read = st;
            acted = h;
            unchanged = g.0;
            wrote = g.2;
          }),
        )
        swapped_by false x g others =
            let lost : Lost net laws ip w x = record {
              info = i;
              version = m;
              between = u;
              read = st;
              acted = h;
              changed = g.0;
              kept = g.1;
            } in
            Ends-mono (ih x (IsReady-step u x ready g.1 others)) (λ _ w' d. later w x w' lost d)
              (λ e w' d. later-Stopped w x w' e lost d)
