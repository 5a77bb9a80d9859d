-- ===== src/Vessel/Helper/Record.antt =====
-- The record of a container in the store: its read, and the swap that writes it.
use barrel.Prelude.{
  ℕ, String, Bool, true, false, none, some, ◌≡◌, ◌≢◌, refl, sym, ap, subst, ◌∙◌, ◌⊎◌, inl, inr,
}
use barrel.Types.{Result, ok, err, Error, kv_not_exists, IsForeign, Container, ContainerInfo}
use barrel.Store.Client.{KeyValue, KvLaws, View, TxnResponse, written, version_of}
use barrel.Store.Etcd.{Shared, rest, get, update_else_get}
use barrel.Store.Etcd.Laws.{get-Gets, update_else_get-Swaps, Gets, Swaps, Missed-kind}
use barrel.Store.Etcd.Rounds.{others-get, others-update_else_get}
use barrel.Codecs.{
  ContainerInfoCodec, container_info_codec, container_info_key, encode_container_info,
}
use barrel.Codecs.RoundTrip.{decode-encode_container_info}
use barrel.Codecs.Lawful.{container_info_laws}
use barrel.Vessel.World.{Clients, WorldOf, Ends, returns, fails, on_store}
use barrel.Vessel.FixedPool.Steps.{HasRead, V as view_of, SwapFailed}
use barrel.Vessel.Helper.{codec_of, update_record, swapped_codec}

abbrev pub key_of : Container → String
key_of ct = container_info_key (codec_of ct)

-- The contents hold the record `i` of the container, at version `n`.
pub record Stored (v : View) (ct : Container) (i : ContainerInfo) (n : ℕ) : Type 0 where
  pub entry : v (key_of ct) ≡ some (record { value = encode_container_info i; version = n })
  pub same_container : i.container ≡ ct

abbrev pub IsOwn : View → Container → Type 0
IsOwn v ct = (v (key_of ct) ≡ none) ⊎ ((i : ContainerInfo) × (n : ℕ) × Stored v ct i n)

abbrev pub codec_for : ContainerInfo → ℕ → ContainerInfoCodec
codec_for i n = record { info = i; version = n }

key_same :
    (c : ContainerInfoCodec) (ct : Container)
    → c.info.container ≡ ct
    → container_info_key c ≡ key_of ct
unfolding container_info_key
key_same c ct e = rw e

abbrev Reads : ContainerInfoCodec → KeyValue → ContainerInfoCodec → Type 0
Reads c e c' =
    container_info_codec.decode e.value (container_info_codec.set_version e.version c) ≡ ok c'

decode_stored :
    (c c' : ContainerInfoCodec) (i : ContainerInfo) (n : ℕ)
    → Reads c (record { value = encode_container_info i; version = n }) c'
    → c' ≡ codec_for i n
decode_stored c c' i n d = let read = rw (decode-encode_container_info i c.info) at d in cc

read_own :
    (ct : Container) (v : View) (c c' : ContainerInfoCodec)
    → IsOwn v ct
    → ((e : KeyValue) × (v (key_of ct) ≡ some e) × Reads c e c')
    → (i : ContainerInfo) × (n : ℕ) × Stored v ct i n × (c' ≡ codec_for i n)
read_own ct v c c' (inl gone) (e, at, d) = absurd (cc)
read_own ct v c c' (inr (i, n, st)) (e, at, d) =
    let same : e ≡ record { value = encode_container_info i; version = n } = cc (at, st.entry) in
    (i, n, st, decode_stored c c' i n (subst (λ (e : KeyValue). Reads c e c') same d))

module _ (net : Clients) (laws : KvLaws net.kv) (ct : Container) where
  open net use {kv}

  abbrev V : WorldOf net → View
  V = view_of net laws

  abbrev pub GotRecord : WorldOf net → ContainerInfoCodec → WorldOf net → Type 0
  GotRecord w c w' =
      ((i : ContainerInfo) × (n : ℕ) × Stored (V w) ct i n × (c ≡ codec_for i n)) × HasRead net w w'

  abbrev pub NoRecord : WorldOf net → Error → WorldOf net → Type 0
  NoRecord w e w' =
      (IsForeign e ⊎ ((e ≡ kv_not_exists) × (V w (key_of ct) ≡ none))) × HasRead net w w'

  got-Ends :
      (c : ContainerInfoCodec) (w : WorldOf net) (r : Result ContainerInfoCodec)
      (s : Shared kv.State)
      → container_info_key c ≡ key_of ct
      → IsOwn (V w) ct
      → Gets kv laws container_info_laws c (V w) r (kv.view s.store)
      → s.others ≡ rest w.shared.others
      → Ends (GotRecord w) (NoRecord w) (r, record w { shared = s })
  got-Ends c w (ok c') s k own (same, found) later = returns (
    read_own ct (V w) c c' own (rw k at found),
    record { same_view = same; later_others = later; same_ipam = refl },
  )
  got-Ends c w (err e) s k own (same, why) later =
      fails (rw k at why, record { same_view = same; later_others = later; same_ipam = refl })

  -- The read of the record, with any codec of the container.
  pub get-Ends :
      (c : ContainerInfoCodec) (w : WorldOf net)
      → c.info.container ≡ ct
      → IsOwn (V w) ct
      → Ends (GotRecord w) (NoRecord w) (on_store (get kv c) w)
  get-Ends c w of_ct own =
      let t = get kv c w.shared in
      got-Ends c w t.0 t.1 (key_same c ct of_ct) own
        (get-Gets kv laws container_info_laws c w.shared) (others-get kv c w.shared)

  abbrev pub Swapped :
      ContainerInfoCodec → WorldOf net → Bool × ContainerInfoCodec → WorldOf net → Type 0
  Swapped c w (true, c') w' =
      (version_of (V w (key_of ct)) ≡ c.version)
      × (V w (key_of ct) ≢ none)
      × (kv.view w'.shared.store ≡ written (V w) (key_of ct) (encode_container_info c.info))
  Swapped c w (false, c') w' =
      (version_of (V w (key_of ct)) ≢ c.version)
      × (kv.view w'.shared.store ≡ V w)
      × (w'.shared.others ≡ rest w.shared.others)
      × (c'.info.container ≡ ct)

  Swapped-Ends :
      (c : ContainerInfoCodec) (w : WorldOf net) (t : Result TxnResponse) (b : Bool)
      (r : Result ContainerInfoCodec) (s : Shared kv.State)
      → container_info_key c ≡ key_of ct
      → IsOwn (V w) ct
      → Swaps kv laws container_info_laws c
          (encode_container_info c.info)
          (V w)
          t
          (b, r)
          (kv.view s.store)
      → s.others ≡ rest w.shared.others
      → Ends (Swapped c w) (SwapFailed net laws) (swapped_codec (b, r), record w { shared = s })
  Swapped-Ends c w t true (ok c') s k own h later = returns (rw (sym k) (h.0, h.1, h.2))
  Swapped-Ends c w t true (err e) s k own h later = fails (inr h.3)
  Swapped-Ends c w t false (ok c') s k own (differs, same, found) later =
      let (i, n, st, read) = read_own ct (V w) c c' own (rw k at found) in
      returns (
        rw k at differs,
        same,
        later,
        ap (λ (d : ContainerInfoCodec). d.info.container) read ∙ st.same_container,
      )
  Swapped-Ends c w t false (err e) s k own h later =
      fails (Missed-kind kv laws container_info_laws h)

  -- The swap of the record, with any codec of the container.
  pub update_record-Ends :
      (c : ContainerInfoCodec) (w : WorldOf net)
      → c.info.container ≡ ct
      → IsOwn (V w) ct
      → Ends (Swapped c w) (SwapFailed net laws) (update_record net c w)
  update_record-Ends c w of_ct own =
      let t = update_else_get kv c w.shared in
      Swapped-Ends c w _ t.0.0 t.0.1 t.1 (key_same c ct of_ct) own
        (update_else_get-Swaps kv laws container_info_laws c (encode_container_info c.info) w.shared
          refl)
        (others-update_else_get kv c w.shared (encode_container_info c.info) refl)
