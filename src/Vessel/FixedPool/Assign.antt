-- ===== src/Vessel/FixedPool/Assign.antt =====
-- `AssignFixedIP` and `UnassignFixedIP`: who holds a fixed address, while other clients act.
use barrel.Prelude.{
  ℕ, Bool, true, false, not, [], ◌∷◌, ◌≡◌, ◌≢◌, refl, inl, inr, ◌⊎◌, none, Bool-cases,
}
use barrel.Types.{Error, kv_not_exists, ip_in_use, fixed_ip_not_allocated, IsForeign, Ip, IpInfo}
use barrel.Types.Status.{in_use, matches, mark, unmark}
use barrel.Store.Client.{KvLaws, written, version_of}
use barrel.Codecs.{IpInfoCodec, encode_ip_info}
use barrel.Codecs.Keys.{ip_info_key_same}
use barrel.Vessel.World.{
  Clients, WorldOf, Ends, returns, fails, >>=-Ends, Ends-mono, ◌>>=◌, ◌>>◌, fail_if,
}
use barrel.Vessel.FixedPool.{
  codec_of, with_status, is_in_use, get_fixed_ip, update, assign_fixed_ip, unassign_fixed_ip,
  assign_got, unassign_got,
}
use barrel.Vessel.FixedPool.Steps.{
  key_of, V as view_of, Stored, IsOwn, codec_for, HasRead, get_fixed_ip-Ends, update-Ends, Swapped,
  SwapFailed, GotRecord, NotFound,
}

abbrev pub set_status : IpInfo → ℕ → IpInfo
set_status i s = record i { status = s }

-- The record as `AssignFixedIP` writes it.
abbrev pub taken : IpInfo → IpInfo
taken i = set_status i (mark i.status (in_use ∷ []))

-- The record as `UnassignFixedIP` writes it.
abbrev pub given_back : IpInfo → IpInfo
given_back i = set_status i (unmark i.status (in_use ∷ []))

abbrev pub IsInUse : IpInfo → Bool → Type 0
IsInUse i b = matches i.status (in_use ∷ []) ≡ b

module _ (net : Clients) (laws : KvLaws net.kv) where
  open net use {kv}

  -- One method's swap: the record `i` was read at version `n`, the other clients acted, the version
  -- was still `n`, and the record `j` was written over what they left.
  pub record Wrote (ip : Ip) (i j : IpInfo) (w w' : WorldOf net) : Type 0 where
    pub version : ℕ
    pub between : WorldOf net
    pub read : Stored (view_of net laws w) ip i version
    pub acted : HasRead net w between
    pub unchanged : version_of (view_of net laws between (key_of ip)) ≡ version
    pub wrote :
        kv.view w'.shared.store ≡ written (view_of net laws between) (key_of ip) (encode_ip_info j)

  -- Another client changed the record between the read and the swap, and nothing was written.
  pub record Lost (ip : Ip) (w w' : WorldOf net) : Type 0 where
    pub info : IpInfo
    pub version : ℕ
    pub between : WorldOf net
    pub read : Stored (view_of net laws w) ip info version
    pub acted : HasRead net w between
    pub changed : version_of (view_of net laws between (key_of ip)) ≢ version
    pub kept : kv.view w'.shared.store ≡ view_of net laws between

  abbrev pub Takes : Ip → WorldOf net → Unit {0} → WorldOf net → Type 0
  Takes ip w _ w' = (i : IpInfo) × IsInUse i false × Wrote ip i (taken i) w w'

  pub data Refused (ip : Ip) (w : WorldOf net) (e : Error) (w' : WorldOf net) : Type 0 where
    client_failed : IsForeign e → Refused ip w e w'
    gone_meanwhile : e ≡ kv_not_exists → Refused ip w e w'
    not_allocated :
        e ≡ fixed_ip_not_allocated
        → view_of net laws w (key_of ip) ≡ none
        → kv.view w'.shared.store ≡ view_of net laws w
        → Refused ip w e w'
    held :
        (i : IpInfo) (n : ℕ)
        → e ≡ ip_in_use
        → Stored (view_of net laws w) ip i n
        → IsInUse i true
        → kv.view w'.shared.store ≡ view_of net laws w
        → Refused ip w e w'
    overtaken : e ≡ ip_in_use → Lost ip w w' → Refused ip w e w'

  NotFound-Refused :
      (ip : Ip) (w w' : WorldOf net) (e : Error) → NotFound net laws ip w e w' → Refused ip w e w'
  NotFound-Refused ip w w' e (inl f, h) = client_failed f
  NotFound-Refused ip w w' e (inr (same, gone), h) = not_allocated same gone h.same_view

  SwapFailed-Refused :
      (ip : Ip) (w w' : WorldOf net) (e : Error) → SwapFailed net laws e w' → Refused ip w e w'
  SwapFailed-Refused ip w w' e (inl f) = client_failed f
  SwapFailed-Refused ip w w' e (inr g) = gone_meanwhile g

  -- The swap is made in the state `u`.
  abbrev pub TakesAt : Ip → WorldOf net → WorldOf net → Unit {0} → WorldOf net → Type 0
  TakesAt ip w u _ w' =
      (i : IpInfo) × IsInUse i false × (o : Wrote ip i (taken i) w w') × (o.between ≡ u)

  Swapped-Takes :
      (ip : Ip) (w between w' : WorldOf net) (i : IpInfo) (n : ℕ) (b : Bool)
      → Stored (view_of net laws w) ip i n
      → IsInUse i false
      → HasRead net w between
      → Swapped net laws ip (with_status (codec_for i n) (mark i.status (in_use ∷ []))) between b w'
      → Ends (TakesAt ip w between) (Refused ip w) (fail_if (not b) ip_in_use w')
  Swapped-Takes ip w between w' i n true st free h (at, there, done) = returns (
    i,
    free,
    record { version = n; between = between; read = st; acted = h; unchanged = at; wrote = done },
    refl,
  )
  Swapped-Takes ip w between w' i n false st free h (differs, same) = fails (
      overtaken refl (record {
        info = i;
        version = n;
        between = between;
        read = st;
        acted = h;
        changed = differs;
        kept = same;
      }))

  assign_read :
      (ip : Ip) (w w' : WorldOf net) (i : IpInfo) (n : ℕ)
      → Stored (view_of net laws w) ip i n
      → HasRead net w w'
      → Ends (TakesAt ip w w') (Refused ip w) (
          (fail_if (is_in_use (codec_for i n)) ip_in_use
              >> (update net (with_status (codec_for i n) (mark i.status (in_use ∷ []))) >>= λ done.
                  fail_if (not done) ip_in_use))
            w')
  assign_read ip w w' i n st h = elim (Bool-cases (is_in_use (codec_for i n))) [
    | inl busy ↦ rw busy (fails (held i n refl st busy h.same_view))
    | inr free ↦ rw free (
        >>=-Ends (update net (with_status (codec_for i n) (mark i.status (in_use ∷ [])))) _ w'
          (update-Ends net laws ip _ w'
            (ip_info_key_same _ (codec_of ip) st.same_pool st.same_address))
          (λ b u s. Swapped-Takes ip w w' u i n b st free h s)
          (λ e u s. SwapFailed-Refused ip w u e s))
  ]

  pub assign_got-Ends :
      (ip : Ip) (w w' : WorldOf net) (c : IpInfoCodec)
      → GotRecord net laws ip w c w'
      → Ends (TakesAt ip w w') (Refused ip w) (assign_got net c w')
  assign_got-Ends ip w w' c ((i, n, st, same), h) = rw same (assign_read ip w w' i n st h)

  -- Where the key of an address holds a record of it or nothing, `AssignFixedIP` succeeds only by
  -- one swap over a record that was not in use when read and whose version has not changed;
  -- otherwise its error says why, and when the record is in use, absent, or changed meanwhile,
  -- nothing is written.
  pub assign_fixed_ip-Ends :
      (ip : Ip) (w : WorldOf net)
      → IsOwn (view_of net laws w) ip
      → Ends (Takes ip w) (Refused ip w) (assign_fixed_ip net ip w)
  unfolding assign_fixed_ip
  assign_fixed_ip-Ends ip w own =
      >>=-Ends (get_fixed_ip net ip none) (assign_got net) w (get_fixed_ip-Ends net laws ip w own)
        (λ c u h.
          Ends-mono (assign_got-Ends ip w u c h) (λ _ w' (i, free, o, at). (i, free, o))
            (λ e w' q. q))
        (λ e w' h. NotFound-Refused ip w w' e h)

  -- How a method succeeds that found nothing to do.
  abbrev pub Kept : Ip → WorldOf net → WorldOf net → Type 0
  Kept ip w w' = kv.view w'.shared.store ≡ view_of net laws w

  abbrev pub GivesBack : Ip → WorldOf net → Unit {0} → WorldOf net → Type 0
  GivesBack ip w _ w' =
      (i : IpInfo) × ((IsInUse i true × Wrote ip i (given_back i) w w')
        ⊎ ((n : ℕ) × Stored (view_of net laws w) ip i n × IsInUse i false × Kept ip w w'))

  Swapped-GivesBack :
      (ip : Ip) (w between w' : WorldOf net) (i : IpInfo) (n : ℕ) (b : Bool)
      → Stored (view_of net laws w) ip i n
      → IsInUse i true
      → HasRead net w between
      → Swapped net laws ip
          (with_status (codec_for i n) (unmark i.status (in_use ∷ [])))
          between
          b
          w'
      → Ends (GivesBack ip w) (Refused ip w) (fail_if (not b) ip_in_use w')
  Swapped-GivesBack ip w between w' i n true st busy h (at, there, done) = returns (
    i,
    inl (
      busy,
      record { version = n; between = between; read = st; acted = h; unchanged = at; wrote = done },
    ),
  )
  Swapped-GivesBack ip w between w' i n false st busy h (differs, same) = fails (
      overtaken refl (record {
        info = i;
        version = n;
        between = between;
        read = st;
        acted = h;
        changed = differs;
        kept = same;
      }))

  unassign_got-Ends :
      (ip : Ip) (w w' : WorldOf net) (c : IpInfoCodec)
      → GotRecord net laws ip w c w'
      → Ends (GivesBack ip w) (Refused ip w) (unassign_got net c w')
  unassign_got-Ends ip w w' c ((i, n, st, same), h) =
      rw same (elim (Bool-cases (is_in_use (codec_for i n))) [
        | inl busy ↦ rw busy (
            >>=-Ends (update net (with_status (codec_for i n) (unmark i.status (in_use ∷ [])))) _ w'
              (update-Ends net laws ip _ w'
                (ip_info_key_same _ (codec_of ip) st.same_pool st.same_address))
              (λ b u s. Swapped-GivesBack ip w w' u i n b st busy h s)
              (λ e u s. SwapFailed-Refused ip w u e s))
        | inr free ↦ rw free (returns (i, inr (n, st, free, h.same_view)))
      ])

  -- Where the key of an address holds a record of it or nothing, `UnassignFixedIP` succeeds by one
  -- swap that clears the mark of a record in use, or on a record that is not in use and nothing is
  -- written; otherwise its error says why.
  pub unassign_fixed_ip-Ends :
      (ip : Ip) (w : WorldOf net)
      → IsOwn (view_of net laws w) ip
      → Ends (GivesBack ip w) (Refused ip w) (unassign_fixed_ip net ip w)
  unfolding unassign_fixed_ip
  unassign_fixed_ip-Ends ip w own =
      >>=-Ends (get_fixed_ip net ip none) (unassign_got net) w (get_fixed_ip-Ends net laws ip w own)
        (λ c w' h. unassign_got-Ends ip w w' c h) (λ e w' h. NotFound-Refused ip w w' e h)
