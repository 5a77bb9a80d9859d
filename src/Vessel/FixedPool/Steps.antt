-- ===== src/Vessel/FixedPool/Steps.antt =====
-- The read of a record by the methods of `fixedIPPool`, and the compare-and-swap that writes it, with
-- other clients acting before each.
use barrel.Prelude.{
  ℕ, String, Bool, true, false, none, some, ◌≡◌, ◌≢◌, refl, sym, subst, ◌⊎◌, inl, inr,
  if◌then◌else◌,
}
use barrel.Types.{
  Result, ok, err, Error, other, kv_not_exists, fixed_ip_not_allocated, IsForeign, is_not_exists,
  Ip, IpInfo,
}
use barrel.Store.Client.{KeyValue, KvLaws, View, TxnResponse, written, version_of}
use barrel.Store.Etcd.{Shared, now, rest, get, update_else_get}
use barrel.Store.Etcd.Laws.{get-Gets, update_else_get-Swaps, Gets, Swaps, Missed-kind}
use barrel.Store.Etcd.Rounds.{others-get}
use barrel.Codecs.{IpInfoCodec, ip_info_codec, ip_info_key, encode_ip_info}
use barrel.Codecs.RoundTrip.{decode-encode_ip_info}
use barrel.Codecs.Lawful.{ip_info_laws}
use barrel.Vessel.World.{Clients, WorldOf, Ends, returns, fails, on_store, catch-Ends, pure, fail}
use barrel.Vessel.FixedPool.{codec_of, get_fixed_ip, update, swapped}

abbrev pub key_of : Ip → String
key_of ip = ip_info_key (codec_of ip)

-- The contents hold the record `i` of `ip`, at version `n`.
pub record Stored (v : View) (ip : Ip) (i : IpInfo) (n : ℕ) : Type 0 where
  pub entry : v (key_of ip) ≡ some (record { value = encode_ip_info i; version = n })
  pub same_pool : i.pool_id ≡ ip.pool_id
  pub same_address : i.address ≡ ip.address

-- What stands under the key of `ip` is a record of `ip`, if anything does.
abbrev pub IsOwn : View → Ip → Type 0
IsOwn v ip = (v (key_of ip) ≡ none) ⊎ ((i : IpInfo) × (n : ℕ) × Stored v ip i n)

abbrev pub codec_for : IpInfo → ℕ → IpInfoCodec
codec_for i n = record { ip_info = i; version = n }

-- A call has read the store: the contents are those that it found, and one round of the other
-- clients is over.
pub record HasRead (net : Clients) (w w' : WorldOf net) : Type 0 where
  pub same_view : net.kv.view w'.shared.store ≡ net.kv.view (now w.shared)
  pub later_others : w'.shared.others ≡ rest w.shared.others
  pub same_ipam : w'.ipam ≡ w.ipam

pub foreign_exists : (e : Error) → IsForeign e → is_not_exists e ≡ false
foreign_exists (other m) h = refl
foreign_exists _ h = absurd (h)

module _ (net : Clients) (laws : KvLaws net.kv) where
  open net use {kv}

  abbrev pub V : WorldOf net → View
  V w = kv.view (now w.shared)

  -- The read of a record: it is decoded as it was encoded.
  abbrev pub GotRecord : Ip → WorldOf net → IpInfoCodec → WorldOf net → Type 0
  GotRecord ip w c w' =
      ((i : IpInfo) × (n : ℕ) × Stored (V w) ip i n × (c ≡ codec_for i n)) × HasRead net w w'

  abbrev NoRecord : Ip → WorldOf net → Error → WorldOf net → Type 0
  NoRecord ip w e w' =
      (IsForeign e ⊎ ((e ≡ kv_not_exists) × (V w (key_of ip) ≡ none))) × HasRead net w w'

  decode_stored :
      (ip : Ip) (i : IpInfo) (n : ℕ) (c : IpInfoCodec)
      → ip_info_codec.decode (encode_ip_info i) (ip_info_codec.set_version n (codec_of ip)) ≡ ok c
      → c ≡ codec_for i n
  decode_stored ip i n c d =
      let read = rw (decode-encode_ip_info i (codec_of ip).ip_info) at d in cc

  read_own :
      (ip : Ip) (v : View) (c : IpInfoCodec)
      → IsOwn v ip
      → ((e : KeyValue) × (v (key_of ip) ≡ some e)
          × (ip_info_codec.decode e.value (ip_info_codec.set_version e.version (codec_of ip))
              ≡ ok c))
      → (i : IpInfo) × (n : ℕ) × Stored v ip i n × (c ≡ codec_for i n)
  read_own ip v c (inl gone) (e, at, d) = absurd (cc)
  read_own ip v c (inr (i, n, st)) (e, at, d) =
      let same : e ≡ record { value = encode_ip_info i; version = n } = cc (at, st.entry) in
      (
        i,
        n,
        st,
        decode_stored ip i n c (
            subst
              (λ (e : KeyValue).
                ip_info_codec.decode e.value (ip_info_codec.set_version e.version (codec_of ip))
                ≡ ok c)
              same d),
      )

  got-Ends :
      (ip : Ip) (w : WorldOf net) (r : Result IpInfoCodec) (s : Shared kv.State)
      → IsOwn (V w) ip
      → Gets kv laws ip_info_laws (codec_of ip) (V w) r (kv.view s.store)
      → s.others ≡ rest w.shared.others
      → Ends (GotRecord ip w) (NoRecord ip w) (r, record w { shared = s })
  got-Ends ip w (ok c) s own h later = returns (
    read_own ip (V w) c own h.1,
    record { same_view = h.0; later_others = later; same_ipam = refl },
  )
  got-Ends ip w (err e) s own h later =
      fails (h.1, record { same_view = h.0; later_others = later; same_ipam = refl })

  get-Ends :
      (ip : Ip) (w : WorldOf net)
      → IsOwn (V w) ip
      → Ends (GotRecord ip w) (NoRecord ip w) (on_store (get kv (codec_of ip)) w)
  get-Ends ip w own =
      let t = get kv (codec_of ip) w.shared in
      got-Ends ip w t.0 t.1 own (get-Gets kv laws ip_info_laws (codec_of ip) w.shared)
        (others-get kv (codec_of ip) w.shared)

  -- How `GetFixedIP` without an allocation may fail.
  abbrev pub NotFound : Ip → WorldOf net → Error → WorldOf net → Type 0
  NotFound ip w e w' =
      (IsForeign e ⊎ ((e ≡ fixed_ip_not_allocated) × (V w (key_of ip) ≡ none))) × HasRead net w w'

  not_found :
      (ip : Ip) (w w' : WorldOf net) (e : Error)
      → NoRecord ip w e w'
      → Ends
          (GotRecord ip w)
          (NotFound ip w)
          ((if is_not_exists e then fail fixed_ip_not_allocated else fail e) w')
  not_found ip w w' e (inr (same, gone), h) = rw same (fails (inr (refl, gone), h))
  not_found ip w w' e (inl foreign, h) = rw (foreign_exists e foreign) (fails (inl foreign, h))

  pub get_fixed_ip-Ends :
      (ip : Ip) (w : WorldOf net)
      → IsOwn (V w) ip
      → Ends (GotRecord ip w) (NotFound ip w) (get_fixed_ip net ip none w)
  unfolding get_fixed_ip
  get_fixed_ip-Ends ip w own =
      catch-Ends (on_store (get kv (codec_of ip))) pure _ w (get-Ends ip w own)
        (λ c w' h. returns h) (λ e w' h. not_found ip w w' e h)

  -- What the compare-and-swap of the codec `c` does under the key of `ip`.
  abbrev pub Swapped : Ip → IpInfoCodec → WorldOf net → Bool → WorldOf net → Type 0
  Swapped ip c w true w' =
      (version_of (V w (key_of ip)) ≡ c.version)
      × (V w (key_of ip) ≢ none)
      × (kv.view w'.shared.store ≡ written (V w) (key_of ip) (encode_ip_info c.ip_info))
  Swapped ip c w false w' =
      (version_of (V w (key_of ip)) ≢ c.version) × (kv.view w'.shared.store ≡ V w)

  abbrev pub SwapFailed : Error → WorldOf net → Type 0
  SwapFailed e w' = IsForeign e ⊎ (e ≡ kv_not_exists)

  swapped-Ends :
      (ip : Ip) (c : IpInfoCodec) (w : WorldOf net) (t : Result TxnResponse) (b : Bool)
      (r : Result IpInfoCodec) (s : Shared kv.State)
      → ip_info_key c ≡ key_of ip
      → Swaps kv laws ip_info_laws c (encode_ip_info c.ip_info) (V w) t (b, r) (kv.view s.store)
      → Ends (Swapped ip c w) SwapFailed (on_store (λ _. swapped ((b, r), s)) w)
  swapped-Ends ip c w t true (ok c') s k (at, there, done, same) =
      returns (rw (sym k) (at, there, done))
  swapped-Ends ip c w t true (err e) s k h = fails (inr h.3)
  swapped-Ends ip c w t false (ok c') s k h = returns (rw (sym k) (h.0, h.1))
  swapped-Ends ip c w t false (err e) s k h = fails (Missed-kind kv laws ip_info_laws h)

  pub update-Ends :
      (ip : Ip) (c : IpInfoCodec) (w : WorldOf net)
      → ip_info_key c ≡ key_of ip
      → Ends (Swapped ip c w) SwapFailed (update net c w)
  update-Ends ip c w k =
      let t = update_else_get kv c w.shared in
      swapped-Ends ip c w _ t.0.0 t.0.1 t.1 k
        (update_else_get-Swaps kv laws ip_info_laws c (encode_ip_info c.ip_info) w.shared refl)
