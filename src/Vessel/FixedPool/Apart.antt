-- ===== src/Vessel/FixedPool/Apart.antt =====
-- `AssignFixedIP` and `UnassignFixedIP`, and the state of Calico.
use barrel.Prelude.{not, none, [], ◌∷◌, ◌≡◌, refl, ◌∙◌, inl, inr, Bool-cases, if◌then◌else◌}
use barrel.Types.{Result, ok, err, fixed_ip_not_allocated, ip_in_use, is_not_exists, Ip}
use barrel.Types.Status.{in_use, mark, unmark}
use barrel.Store.Etcd.{Shared, get}
use barrel.Codecs.{IpInfoCodec, ip_info_codec}
use barrel.Method.Keeps.{Keeps, Keeps-fail_if, Keeps->>=, Keeps->>}
use barrel.Vessel.World.{
  Clients, WorldOf, Ends, returns, fails, catch-Ends, on_store, pure, fail, fail_if, ◌>>=◌,
}
use barrel.Vessel.FixedPool.{
  codec_of, with_status, is_in_use, get_fixed_ip, update, assign_got, assign_fixed_ip, unassign_got,
  unassign_fixed_ip,
}

module _ (net : Clients) where
  open net use {kv}

  -- The state of Calico is the same.
  abbrev pub Apart : WorldOf net → WorldOf net → Type 0
  Apart w u = u.ipam ≡ w.ipam

  trans : (u v w : WorldOf net) → Apart u v → Apart v w → Apart u w
  trans u v w p q = q ∙ p

  on_store-Apart :
      {A : Type 0} (m : Shared kv.State → Result A × Shared kv.State) → Keeps Apart (on_store m)
  on_store-Apart {A} m w = of_result (m w.shared).0 (m w.shared).1
    where
      of_result :
          (r : Result A) (s : Shared kv.State)
          → Ends (λ _ u. Apart w u) (λ _ u. Apart w u) (r, record w { shared = s })
      of_result (ok a) s = returns refl
      of_result (err e) s = fails refl

  get_fixed_ip-Apart : (ip : Ip) → Keeps Apart (get_fixed_ip net ip none)
  unfolding get_fixed_ip
  get_fixed_ip-Apart ip w =
      catch-Ends (on_store (get kv (codec_of ip))) pure
        (λ e. if is_not_exists e then fail fixed_ip_not_allocated else fail e) w
        (on_store-Apart (get kv (codec_of ip)) w) (λ c u q. returns q)
        (λ e u q. elim (Bool-cases (is_not_exists e)) [
          | inl gone ↦ rw gone (fails q)
          | inr kept ↦ rw kept (fails q)
        ])

  swap-Apart :
      (c : IpInfoCodec) → Keeps Apart (update net c >>= λ done. fail_if (not done) ip_in_use)
  swap-Apart c =
      Keeps->>= Apart trans (update net c) _ (on_store-Apart _)
        (λ done. Keeps-fail_if Apart (λ w. refl) (not done) ip_in_use)

  assign_got-Apart : (c : IpInfoCodec) → Keeps Apart (assign_got net c)
  assign_got-Apart c =
      Keeps->> Apart trans (fail_if (is_in_use c) ip_in_use) _
        (Keeps-fail_if Apart (λ w. refl) (is_in_use c) ip_in_use)
        (swap-Apart (with_status c (mark c.ip_info.status (in_use ∷ []))))

  pub assign_fixed_ip-Apart : (ip : Ip) → Keeps Apart (assign_fixed_ip net ip)
  unfolding assign_fixed_ip
  assign_fixed_ip-Apart ip =
      Keeps->>= Apart trans (get_fixed_ip net ip none) _ (get_fixed_ip-Apart ip) assign_got-Apart

  unassign_got-Apart : (c : IpInfoCodec) → Keeps Apart (unassign_got net c)
  unassign_got-Apart c w = elim (Bool-cases (is_in_use c)) [
    | inl busy ↦ rw busy (swap-Apart (with_status c (unmark c.ip_info.status (in_use ∷ []))) w)
    | inr free ↦ rw free (returns refl)
  ]

  pub unassign_fixed_ip-Apart : (ip : Ip) → Keeps Apart (unassign_fixed_ip net ip)
  unfolding unassign_fixed_ip
  unassign_fixed_ip-Apart ip =
      Keeps->>= Apart trans (get_fixed_ip net ip none) _ (get_fixed_ip-Apart ip) unassign_got-Apart
