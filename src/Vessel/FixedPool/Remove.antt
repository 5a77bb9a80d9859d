-- ===== src/Vessel/FixedPool/Remove.antt =====
-- The last steps of `UnallocFixedIP`: the lock, the removal of the record, and the release.
use barrel.Prelude.{
  Bool, true, false, not, none, ◌≡◌, ◌≢◌, refl, sym, ap, ap₂, subst, ◌∙◌, ◌⊎◌, inl, inr, string_eq,
  ◌==◌,
}
use barrel.Types.{Error, kv_not_exists, ip_in_use, IsForeign, Result, ok, err, Ip}
use barrel.Store.Client.{View, replace, version_of}
use barrel.Store.Etcd.{Shared, delete}
use barrel.Store.Etcd.Laws.{Deletes, delete-Deletes}
use barrel.Codecs.{IpInfoCodec, ip_info_codec, ip_info_key}
use barrel.Codecs.Lawful.{ip_info_laws}
use barrel.Vessel.World.{
  Clients, ClientLaws, WorldOf, Ends, returns, fails, >>=-Ends, catch-Ends, Ends-and, Ends-own,
  Ends-mono, on_store, fail_if, pure,
}
use barrel.Vessel.CalicoClient.{Assigned, assign, Releases}
use barrel.Vessel.CalicoPool.{unalloc_ip}
use barrel.Vessel.FixedPool.{update, lock, remove}
use barrel.Vessel.FixedPool.Steps.{key_of, V as view_of, update-Ends, Swapped}

module _ (net : Clients) (laws : ClientLaws net) where
  open net use {kv, cal}

  abbrev pub V : WorldOf net → View
  V = view_of net laws.kv_laws

  abbrev pub free_or : WorldOf net → Assigned
  free_or w = cal.assigned w.ipam

  released :
      (ip : Ip) (w : WorldOf net) (r : Result (Unit {0})) (c : cal.State)
      → Releases (free_or w) ip.address r (cal.assigned c)
      → Ends
          (λ _ w'. (free_or w' ≡ assign (free_or w) ip.address false) × (w'.shared ≡ w.shared))
          (λ e w'. (r ≡ err e) × (c ≡ w'.ipam) × (w'.shared ≡ w.shared))
          (r, record w { ipam = c })
  released ip w (ok _) c h = returns (h, refl)
  released ip w (err e) c h = fails (refl, refl, refl)

  -- Calico fails to release the address.
  abbrev pub NotReleased : Ip → WorldOf net → Error → WorldOf net → Type 0
  NotReleased ip w e w' =
      (cal.release_ip ip.address w.ipam ≡ (err e, w'.ipam)) × (w'.shared ≡ w.shared)

  pub unalloc_ip-Ends :
      (ip : Ip) (w : WorldOf net)
      → Ends
          (λ _ w'. (free_or w' ≡ assign (free_or w) ip.address false) × (w'.shared ≡ w.shared))
          (NotReleased ip w)
          (unalloc_ip net ip w)
  unfolding unalloc_ip
  unalloc_ip-Ends ip w =
      let t = cal.release_ip ip.address w.ipam in
      Ends-mono (released ip w t.0 t.1 (laws.cal_laws.release_ip_Releases ip.address w.ipam))
        (λ _ w' h. h) (λ e w' (r, c, s). (ap₂ (λ r c. (r, c)) r c, s))

  -- The record of `ip` is removed, and then its address is free.
  abbrev pub Removed : Ip → WorldOf net → Unit {0} → WorldOf net → Type 0
  Removed ip w _ w' =
      (V w (key_of ip) ≢ none)
      × (kv.view w'.shared.store ≡ replace (V w) (key_of ip) none)
      × (free_or w' ≡ assign (free_or w) ip.address false)

  -- The record cannot be removed, and Calico is not asked; or the record is gone, and Calico fails to
  -- release the address.
  pub data RemoveFailed (ip : Ip) (w : WorldOf net) (e : Error) (w' : WorldOf net) : Type 0 where
    kept :
        IsForeign e ⊎ ((e ≡ kv_not_exists) × (V w (key_of ip) ≡ none))
        → w'.ipam ≡ w.ipam
        → RemoveFailed ip w e w'
    unreleased :
        V w (key_of ip) ≢ none
        → kv.view w'.shared.store ≡ replace (V w) (key_of ip) none
        → cal.release_ip ip.address w.ipam ≡ (err e, w'.ipam)
        → RemoveFailed ip w e w'

  deleted :
      (ip : Ip) (c : IpInfoCodec) (w : WorldOf net) (r : Result IpInfoCodec) (s : Shared kv.State)
      → ip_info_key c ≡ key_of ip
      → Deletes kv laws.kv_laws ip_info_laws c (V w) r (kv.view s.store)
      → Ends
          (λ _ u.
            (V w (key_of ip) ≢ none)
            × (kv.view u.shared.store ≡ replace (V w) (key_of ip) none)
            × (u.ipam ≡ w.ipam))
          (RemoveFailed ip w)
          (r, record w { shared = s })
  deleted ip c w (ok _) s k h = returns (rw (sym k) (h.0, h.1, refl))
  deleted ip c w (err e) s k (inl f) = fails (kept (inl f) refl)
  deleted ip c w (err e) s k (inr h) = fails (kept (inr (h.0, rw (sym k) h.1)) refl)

  pub remove-Ends :
      (ip : Ip) (c : IpInfoCodec) (w : WorldOf net)
      → ip_info_key c ≡ key_of ip
      → (key_of ip == "") ≡ false
      → Ends (Removed ip w) (RemoveFailed ip w) (remove net ip c w)
  remove-Ends ip c w k named =
      let t = delete kv c w.shared in
      >>=-Ends (on_store (delete kv c)) (λ _. unalloc_ip net ip) w
        (deleted ip c w t.0 t.1 k
          (delete-Deletes kv laws.kv_laws ip_info_laws c w.shared (rw k named)))
        (λ _ u h. freed u h) (λ e u h. h)
    where
      freed :
          (u : WorldOf net)
          → ((V w (key_of ip) ≢ none)
              × (kv.view u.shared.store ≡ replace (V w) (key_of ip) none)
              × (u.ipam ≡ w.ipam))
          → Ends (Removed ip w) (RemoveFailed ip w) (unalloc_ip net ip u)
      freed u h =
          Ends-mono (unalloc_ip-Ends ip u)
            (λ _ w' g. (
              h.0,
              ap (λ (s : Shared kv.State). kv.view s.store) g.1 ∙ h.1,
              g.0 ∙ ap (λ (s : cal.State). assign (cal.assigned s) ip.address false) h.2,
            ))
            (λ e w' g.
              unreleased h.0 (ap (λ (s : Shared kv.State). kv.view s.store) g.1 ∙ h.1)
                (subst (λ (s : cal.State). cal.release_ip ip.address s ≡ (err e, w'.ipam)) h.2 g.0))

  -- The record is marked under the version that was read; or etcd has failed to do so.
  pub data Locked (ip : Ip) (c : IpInfoCodec) (w u : WorldOf net) : Type 0 where
    locked : Swapped net laws.kv_laws ip c w true u → Locked ip c w u
    unlocked : (e : Error) → update net c w ≡ (err e, u) → Locked ip c w u

  -- The lock is taken, or it is lost to another client; an error of etcd counts as taken.
  pub lock-Ends :
      (ip : Ip) (c : IpInfoCodec) (w : WorldOf net)
      → ip_info_key c ≡ key_of ip
      → Ends
          (λ _ u. Locked ip c w u × (u.ipam ≡ w.ipam))
          (λ e u.
            (e ≡ ip_in_use)
            × (version_of (V w (key_of ip)) ≢ c.version)
            × (kv.view u.shared.store ≡ V w)
            × (u.ipam ≡ w.ipam))
          (lock net c w)
  lock-Ends ip c w k =
      catch-Ends (update net c) (λ done. fail_if (not done) ip_in_use) (λ _. pure tt) w
        (Ends-and (λ u. u.ipam ≡ w.ipam) (Ends-own (update-Ends net laws.kv_laws ip c w k)) refl)
        (λ b u h. won b u h.0.0 h.1) (λ e u h. returns {w = u} (unlocked e h.0.1, h.1))
    where
      won :
          (b : Bool) (u : WorldOf net)
          → Swapped net laws.kv_laws ip c w b u
          → u.ipam ≡ w.ipam
          → Ends
              (λ _ u. Locked ip c w u × (u.ipam ≡ w.ipam))
              (λ e u.
                (e ≡ ip_in_use)
                × (version_of (V w (key_of ip)) ≢ c.version)
                × (kv.view u.shared.store ≡ V w)
                × (u.ipam ≡ w.ipam))
              (fail_if (not b) ip_in_use u)
      won true u h same = returns (locked h, same)
      won false u h same = fails (refl, h.0, h.1, same)
