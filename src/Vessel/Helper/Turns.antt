-- ===== src/Vessel/Helper/Turns.antt =====
-- The unbounded loops of vessel/helper.go on fuel, and when a turn is repeated.
use barrel.Prelude.{
  ℕ, suc, zero, ◌<◌, List, [], ◌∷◌, Option, some, ◌≡◌, ◌≢◌, refl, sym, ap, subst, ◌∙◌, ◌⊎◌, All,
  length, arith,
}
use barrel.Types.{Error, kv_not_exists, IsForeign, Container}
use barrel.Store.Client.{Kv, KvLaws, View, version_of}
use barrel.Store.Etcd.{rest, reached}
use barrel.Codecs.{ContainerInfoCodec}
use barrel.Vessel.World.{Clients, WorldOf, M, Ends, returns, >>=-Ends, Ends-mono}
use barrel.Vessel.FixedPool.Steps.{HasRead, V as view_of}
use barrel.Vessel.FixedPool.Exclusive.{All-rest}
use barrel.Vessel.Helper.{Step, again, done, next_turn, turns}
use barrel.Vessel.Helper.Record.{key_of, IsOwn}

-- Another client puts only a record of the container under its key, or removes it.
abbrev pub IsProper : (kv : Kv) → Container → (kv.State → kv.State) → Type 0
IsProper kv ct f = (s : kv.State) → IsOwn (kv.view s) ct → IsOwn (kv.view (f s)) ct

reached-IsOwn :
    (kv : Kv) (ct : Container) (s : kv.State) (os : List (kv.State → kv.State))
    → All (IsProper kv ct) os
    → IsOwn (kv.view s) ct
    → IsOwn (kv.view (reached s os)) ct
reached-IsOwn kv ct s [] h own = own
reached-IsOwn kv ct s (f ∷ fs) h own = h.0 s own

length-rest : {S : Type 0} (os : List (S → S)) → length (rest os) < suc (length os)
length-rest [] = omega arith
length-rest (f ∷ fs) = omega arith

module _ (net : Clients) (laws : KvLaws net.kv) (ct : Container) where
  open net use {kv}

  abbrev V : WorldOf net → View
  V = view_of net laws

  -- The state before a turn.
  pub record IsReady (w : WorldOf net) : Type 0 where
    pub own : IsOwn (kv.view w.shared.store) ct
    pub proper : All (IsProper kv ct) w.shared.others

  pub IsOwn-ready : (w : WorldOf net) → IsReady w → IsOwn (V w) ct
  IsOwn-ready w h = reached-IsOwn kv ct w.shared.store w.shared.others h.proper h.own

  IsReady-step :
      (w u : WorldOf net)
      → IsReady w
      → kv.view u.shared.store ≡ V w
      → u.shared.others ≡ rest w.shared.others
      → IsReady u
  IsReady-step w u h same later = record {
    own = subst (λ (v : View). IsOwn v ct) (sym same) (IsOwn-ready w h);
    proper = subst (All (IsProper kv ct)) (sym later) (All-rest _ w.shared.others h.proper);
  }

  pub IsReady-read : (w u : WorldOf net) → IsReady w → HasRead net w u → IsReady u
  IsReady-read w u ready h = IsReady-step w u ready h.same_view h.later_others

  -- A turn that was lost: the version changed between its read and its swap, and it wrote nothing.
  pub record LostTurn (w x : WorldOf net) : Type 0 where
    pub between : WorldOf net
    pub acted : HasRead net w between
    pub changed : version_of (V between (key_of ct)) ≢ version_of (V w (key_of ct))
    pub kept : kv.view x.shared.store ≡ V between
    pub later_others : x.shared.others ≡ rest between.shared.others

  LostTurn-IsReady : (w x : WorldOf net) → LostTurn w x → IsReady w → IsReady x
  LostTurn-IsReady w x l ready =
      IsReady-step l.between x (IsReady-read w l.between ready l.acted) l.kept l.later_others

  -- Without another client between the read and the swap, the record is as it was read.
  pub undisturbed :
      (w u : WorldOf net)
      → HasRead net w u
      → u.shared.others ≡ []
      → V u (key_of ct) ≡ V w (key_of ct)
  undisturbed w u h alone =
      ap (λ os. kv.view (reached u.shared.store os) (key_of ct)) alone
      ∙ ap (λ (v : View). v (key_of ct)) h.same_view

  fewer :
      (w u : WorldOf net) (os : List (kv.State → kv.State))
      → w.shared.others ≡ os
      → HasRead net w u
      → version_of (V u (key_of ct)) ≢ version_of (V w (key_of ct))
      → length (rest u.shared.others) < length w.shared.others
  fewer w u [] all h changed =
      absurd (changed (ap version_of (undisturbed w u h (h.later_others ∙ ap rest all))))
  fewer w u (f ∷ fs) all h changed =
      let left = h.later_others ∙ ap rest all in rw (left, all) (length-rest fs)

  LostTurn-shrinks :
      (w x : WorldOf net) → LostTurn w x → length x.shared.others < length w.shared.others
  LostTurn-shrinks w x l =
      rw l.later_others (fewer w l.between w.shared.others refl l.acted l.changed)

  pub data HasTurned : WorldOf net → WorldOf net → Type 0 where
    no_turn : (w : WorldOf net) → HasTurned w w
    one_turn : (w x w' : WorldOf net) → LostTurn w x → HasTurned x w' → HasTurned w w'

  pub HasTurned-alone : (w u : WorldOf net) → w.shared.others ≡ [] → HasTurned w u → w ≡ u
  HasTurned-alone w u alone (no_turn v) = refl
  HasTurned-alone w u alone (one_turn v x y l t) =
      absurd (none_less _ alone (LostTurn-shrinks v x l))
    where
      none_less :
          (os : List (kv.State → kv.State)) → os ≡ [] → length x.shared.others < length os → ⊥
      none_less [] same less = omega arith
      none_less (f ∷ fs) same less = cc

  abbrev pub Failed : Error → WorldOf net → Type 0
  Failed e w' = IsForeign e ⊎ (e ≡ kv_not_exists)

  module _ {A : Type 0} (P : WorldOf net → A → WorldOf net → Type 0) where
    -- How one turn from `w` ends.
    abbrev pub Turn : WorldOf net → Step A → WorldOf net → Type 0
    Turn w (done a) w' = P w a w'
    Turn w (again c) w' = LostTurn w w' × (c.info.container ≡ ct)

    -- The loop has returned, after some lost turns, and `P` holds of the last one.
    abbrev pub Finished : WorldOf net → Option A → WorldOf net → Type 0
    Finished w o w' = (a : A) × (o ≡ some a) × (u : WorldOf net) × HasTurned w u × P u a w'

    -- A loop whose fuel exceeds the changes that other clients will make returns.
    pub turns-Ends :
        (f : ContainerInfoCodec → M (WorldOf net) (Step A))
        → ((c : ContainerInfoCodec) (w : WorldOf net)
            → c.info.container ≡ ct
            → IsReady w
            → Ends (Turn w) Failed (f c w))
        → (n : ℕ) (c : ContainerInfoCodec) (w : WorldOf net) → c.info.container ≡ ct
        → length w.shared.others < n
        → IsReady w
        → Ends (Finished w) Failed (turns net n f c w)
    turns-Ends f turn zero c w of_ct less ready = absurd (omega arith)
    turns-Ends f turn (suc n) c w of_ct less ready =
        >>=-Ends (f c) (next_turn net (turns net n f)) w (turn c w of_ct ready)
          (λ s w' h.
            next s w' h (λ c' w'' same less' ready'. turns-Ends f turn n c' w'' same less' ready'))
          (λ e w' h. h)
      where
        next :
            (s : Step A) (w' : WorldOf net)
            → Turn w s w'
            → ((c' : ContainerInfoCodec) (w'' : WorldOf net)
                → c'.info.container ≡ ct
                → length w''.shared.others < n
                → IsReady w''
                → Ends (Finished w'') Failed (turns net n f c' w''))
            → Ends (Finished w) Failed (next_turn net (turns net n f) s w')
        next (done a) w' p more = returns {w = w'} (a, refl, w, no_turn w, p)
        next (again c') w' (l, same) more =
            Ends-mono
              (more c' w' same (omega (arith, LostTurn-shrinks w w' l))
                (LostTurn-IsReady w w' l ready))
              (λ o x g. (g.0, g.1, g.2, one_turn w w' g.2 l g.3, g.4)) (λ e x g. g)
