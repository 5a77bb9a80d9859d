-- ===== src/Vessel/FixedPool/Unalloc.antt =====
-- `UnallocFixedIP`: when an address is freed, and what its errors mean.
use barrel.Prelude.{
  ℕ, Bool, true, false, not, List, [], ◌∷◌, none, ◌≡◌, ◌≢◌, refl, ap, subst, ◌∙◌, ◌⊎◌, inl, inr,
  ◌&&◌, ltb, length, string_eq, ◌==◌, Bool-cases, arith,
}
use barrel.Types.{
  err, Error, kv_not_exists, ip_in_use, fixed_ip_not_allocated, fixed_ip_has_borrower, IsForeign,
  Ip, IpInfo, Container,
}
use barrel.Types.Status.{in_use, retired, mark}
use barrel.Store.Client.{replace}
use barrel.Codecs.{IpInfoCodec, ip_info_codec, ip_info_key}
use barrel.Codecs.Keys.{ip_info_key_same}
use barrel.Vessel.World.{
  Clients, ClientLaws, WorldOf, Ends, fails, >>=-Ends, >>-Ends, Ends-mono, ◌>>◌,
}
use barrel.Vessel.CalicoClient.{assign}
use barrel.Vessel.FixedPool.{
  codec_of, with_status, is_in_use, borrowers_of, get_fixed_ip, lock, remove, unalloc_got,
  unalloc_fixed_ip,
}
use barrel.Vessel.FixedPool.Steps.{
  key_of, Stored, IsOwn, codec_for, HasRead, get_fixed_ip-Ends, GotRecord, NotFound,
}
use barrel.Vessel.FixedPool.Remove.{
  V, free_or, remove-Ends, lock-Ends, Locked, RemoveFailed, kept, unreleased,
}
use barrel.Vessel.FixedPool.Assign.{IsInUse, Lost}

module _ (net : Clients) (laws : ClientLaws net) where
  open net use {kv, cal}

  abbrev Spared : Bool → IpInfo → Type 0
  Spared force i = (force ≡ true) ⊎ (borrowers_of i.attrs ≡ [])

  -- The record as it is locked: in use and retired.
  abbrev pub marked : IpInfo → ℕ → IpInfoCodec
  marked i n = with_status (codec_for i n) (mark i.status (in_use ∷ retired ∷ []))

  -- The address is given up: its record, not in use and without a borrower unless forced, is read
  -- and locked; then it is removed; then the address is free.
  abbrev pub Freed : Ip → Bool → WorldOf net → Unit {0} → WorldOf net → Type 0
  Freed ip force w _ w' =
      (i : IpInfo) × (n : ℕ) × Stored (V net laws w) ip i n
      × IsInUse i false
      × Spared force i
      × (x : WorldOf net) × HasRead net w x
      × (u : WorldOf net) × Locked net laws ip (marked i n) x u
      × (V net laws u (key_of ip) ≢ none)
      × (kv.view w'.shared.store ≡ replace (V net laws u) (key_of ip) none)
      × (free_or net laws w' ≡ assign (free_or net laws w) ip.address false)

  pub data Held (ip : Ip) (force : Bool) (w : WorldOf net) (e : Error) (w' : WorldOf net)
      : Type 0 where
    client_failed : IsForeign e → Held ip force w e w'
    gone_meanwhile : e ≡ kv_not_exists → Held ip force w e w'
    not_allocated :
        e ≡ fixed_ip_not_allocated
        → V net laws w (key_of ip) ≡ none
        → kv.view w'.shared.store ≡ V net laws w
        → Held ip force w e w'
    held :
        (i : IpInfo) (n : ℕ)
        → e ≡ ip_in_use
        → Stored (V net laws w) ip i n
        → IsInUse i true
        → kv.view w'.shared.store ≡ V net laws w
        → Held ip force w e w'
    borrowed :
        (i : IpInfo) (n : ℕ)
        → e ≡ fixed_ip_has_borrower
        → Stored (V net laws w) ip i n
        → force ≡ false
        → borrowers_of i.attrs ≢ []
        → kv.view w'.shared.store ≡ V net laws w
        → Held ip force w e w'
    overtaken : e ≡ ip_in_use → Lost net laws.kv_laws ip w w' → Held ip force w e w'

  -- The record is gone, and Calico has failed to release the address.
  abbrev pub Unreleased : Ip → WorldOf net → Error → WorldOf net → Type 0
  Unreleased ip w e w' =
      (u : WorldOf net) × (V net laws u (key_of ip) ≢ none)
      × (kv.view w'.shared.store ≡ replace (V net laws u) (key_of ip) none)
      × (cal.release_ip ip.address w.ipam ≡ (err e, w'.ipam))

  -- Calico is asked only once the record is gone.
  abbrev pub Keeps : Ip → Bool → WorldOf net → Error → WorldOf net → Type 0
  Keeps ip force w e w' = (Held ip force w e w' × (w'.ipam ≡ w.ipam)) ⊎ Unreleased ip w e w'

  locked_removed :
      (ip : Ip) (force : Bool) (w u : WorldOf net) (i : IpInfo) (n : ℕ)
      → (key_of ip == "") ≡ false
      → Stored (V net laws w) ip i n
      → IsInUse i false
      → Spared force i
      → HasRead net w u
      → Ends
          (Freed ip force w)
          (Keeps ip force w)
          ((lock net (marked i n) >> remove net ip (marked i n)) u)
  locked_removed ip force w u i n named st free spared h =
      >>-Ends (lock net c) (remove net ip c) u (lock-Ends net laws ip c u k)
        (λ u' (taken, same).
          Ends-mono (remove-Ends net laws ip c u' k named)
            (λ _ w' g. (
              i,
              n,
              st,
              free,
              spared,
              u,
              h,
              u',
              taken,
              g.0,
              g.1,
              g.2
                  ∙ ap (λ (s : cal.State). assign (cal.assigned s) ip.address false)
                      (same ∙ h.same_ipam),
            ))
            (λ e w' g. failed u' e w' (same ∙ h.same_ipam) g))
        (λ e w' g. inl (
          overtaken g.0 (record {
            info = i;
            version = n;
            between = u;
            read = st;
            acted = h;
            changed = g.1;
            kept = g.2;
          }),
          g.3 ∙ h.same_ipam,
        ))
    where
      c : IpInfoCodec
      c = marked i n

      k : ip_info_key c ≡ key_of ip
      k = ip_info_key_same _ (codec_of ip) st.same_pool st.same_address

      failed :
          (x : WorldOf net) (e : Error) (w' : WorldOf net)
          → x.ipam ≡ w.ipam
          → RemoveFailed net laws ip x e w'
          → Keeps ip force w e w'
      failed x e w' s (kept (inl f) same) = inl (client_failed f, same ∙ s)
      failed x e w' s (kept (inr g) same) = inl (gone_meanwhile g.0, same ∙ s)
      failed x e w' s (unreleased there gone r) = inr (
        x,
        there,
        gone,
        subst (λ (t : cal.State). cal.release_ip ip.address t ≡ (err e, w'.ipam)) s r,
      )

  not_lent :
      (force : Bool) (bs : List Container)
      → (not force && ltb 0 (length bs)) ≡ false
      → (force ≡ true) ⊎ (bs ≡ [])
  not_lent true bs e = inl refl
  not_lent false [] e = inr refl
  not_lent false (b ∷ bs) e = absurd (ground arith)

  lent :
      (force : Bool) (bs : List Container)
      → (not force && ltb 0 (length bs)) ≡ true
      → (force ≡ false) × (bs ≢ [])
  lent true bs e = cc
  lent false [] e = absurd (ground arith)
  lent false (b ∷ bs) e = (refl, λ same. cc)

  unalloc_read :
      (ip : Ip) (force : Bool) (w u : WorldOf net) (i : IpInfo) (n : ℕ)
      → (key_of ip == "") ≡ false
      → Stored (V net laws w) ip i n
      → HasRead net w u
      → Ends (Freed ip force w) (Keeps ip force w) (unalloc_got net ip force (codec_for i n) u)
  unalloc_read ip force w u i n named st h = elim (Bool-cases (is_in_use (codec_for i n))) [
    | inl busy ↦ rw busy (fails (inl (held i n refl st busy h.same_view, h.same_ipam)))
    | inr free ↦ rw free (elim (Bool-cases (not force && ltb 0 (length (borrowers_of i.attrs)))) [
      | inl owed ↦
          let l = lent force _ owed in
          rw owed (fails (inl (borrowed i n refl st l.0 l.1 h.same_view, h.same_ipam)))
      | inr clear ↦
          rw clear (locked_removed ip force w u i n named st free (not_lent force _ clear) h)
    ])
  ]

  unalloc_got-Ends :
      (ip : Ip) (force : Bool) (w u : WorldOf net) (c : IpInfoCodec)
      → (key_of ip == "") ≡ false
      → GotRecord net laws.kv_laws ip w c u
      → Ends (Freed ip force w) (Keeps ip force w) (unalloc_got net ip force c u)
  unalloc_got-Ends ip force w u c named ((i, n, st, same), h) =
      rw same (unalloc_read ip force w u i n named st h)

  NotFound-Held :
      (ip : Ip) (force : Bool) (w u : WorldOf net) (e : Error)
      → NotFound net laws.kv_laws ip w e u
      → Keeps ip force w e u
  NotFound-Held ip force w u e (inl f, h) = inl (client_failed f, h.same_ipam)
  NotFound-Held ip force w u e (inr (same, gone), h) =
      inl (not_allocated same gone h.same_view, h.same_ipam)

  -- Where the key of an address is not blank and holds a record of it or nothing,
  -- ``UnallocFixedIP`` succeeds only after it has read the record, not in use and without a
  -- borrower unless forced, has then marked it as in use and retired in one swap under the version
  -- that it read, or has had an error in doing so, and has then removed it; the address is then
  -- free in Calico. An error says why, and Calico has not been asked, or the record is gone and
  -- Calico failed to release the address.
  pub unalloc_fixed_ip-Ends :
      (ip : Ip) (force : Bool) (w : WorldOf net)
      → (key_of ip == "") ≡ false
      → IsOwn (V net laws w) ip
      → Ends (Freed ip force w) (Keeps ip force w) (unalloc_fixed_ip net ip force w)
  unfolding unalloc_fixed_ip
  unalloc_fixed_ip-Ends ip force w named own =
      >>=-Ends (get_fixed_ip net ip none) (unalloc_got net ip force) w
        (get_fixed_ip-Ends net laws.kv_laws ip w own)
        (λ c u h. unalloc_got-Ends ip force w u c named h) (λ e u h. NotFound-Held ip force w u e h)
