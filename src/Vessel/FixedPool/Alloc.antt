-- ===== src/Vessel/FixedPool/Alloc.antt =====
-- `AllocFixedIPFromPools`: what stands of an address whose record is to be written.
use barrel.Prelude.{
  String, true, false, List, ◌≡◌, refl, ap, subst, ◌∙◌, ◌⊎◌, inl, inr, Bool-cases, string_eq, ◌==◌,
}
use barrel.Types.{Result, ok, err, Error, key_is_blank, IsForeign, Pool, IpAddress}
use barrel.Store.Client.{written}
use barrel.Store.Etcd.{Shared, now, put}
use barrel.Store.Etcd.Laws.{put-Puts, Puts}
use barrel.Codecs.{IpInfoCodec, ip_info_codec, encode_ip_info}
use barrel.Codecs.Lawful.{ip_info_laws}
use barrel.Vessel.World.{
  Clients, ClientLaws, WorldOf, Ends, returns, fails, >>=-Ends, catch-Ends, pure, fail, on_store,
  log_error, ◌>>◌, catch,
}
use barrel.Vessel.CalicoClient.{Assigned, Grows, assign}
use barrel.Vessel.CalicoPool.{unalloc_ip, alloc_ip_from_pools}
use barrel.Vessel.CalicoPool.Alloc.{Took, Untouched, alloc_ip_from_pools-Ends}
use barrel.Vessel.FixedPool.{codec_of, alloc_fixed_ip_from_pools}
use barrel.Vessel.FixedPool.Steps.{key_of}
use barrel.Vessel.FixedPool.Remove.{V, free_or, unalloc_ip-Ends}

-- What both outcomes of a call imply of the state.
Ends-state :
    {W A : Type 0} {Q : A → W → Type 0} {E : Error → W → Type 0} {r : Result A × W} (P : W → Type 0)
    → Ends Q E r
    → ((a : A) (w : W) → Q a w → P w)
    → ((e : Error) (w : W) → E e w → P w)
    → P r.1
Ends-state P (returns {a} {w} q) f g = f a w q
Ends-state P (fails {e} {w} q) f g = g e w q

module _ (net : Clients) (laws : ClientLaws net) where
  open net use {kv, cal}

  -- The address was free; it is assigned, its record is written, and no other address is released.
  abbrev pub Recorded : WorldOf net → IpAddress → WorldOf net → Type 0
  Recorded w a w' =
      (v : Assigned) × Grows (free_or net laws w) v
      × (free_or net laws w a.address ≡ false)
      × (free_or net laws w' ≡ assign v a.address true)
      × (kv.view w'.shared.store
          ≡ written (V net laws w) (key_of a.ip) (encode_ip_info (codec_of a.ip).ip_info))

  -- The address is free again, or Calico has failed to release it.
  abbrev pub UndoneAt : IpAddress → WorldOf net → WorldOf net → Type 0
  UndoneAt a x w' =
      (free_or net laws w' ≡ assign (free_or net laws x) a.address false)
      ⊎ ((d : Error) × (cal.release_ip a.address x.ipam ≡ (err d, w'.ipam)))

  -- Nothing is reserved: the cluster is untouched; or an address was taken whose record could not be
  -- written, and it is free again unless Calico has failed to release it.
  abbrev pub NotRecorded : WorldOf net → Error → WorldOf net → Type 0
  NotRecorded w e w' =
      Untouched net laws w e w'
      ⊎ ((a : IpAddress) × (x : WorldOf net) × Took net laws w a x
          × (IsForeign e ⊎ (e ≡ key_is_blank))
          × UndoneAt a x w')

  abbrev PutFailed : WorldOf net → Error → WorldOf net → Type 0
  PutFailed x e y = (IsForeign e ⊎ (e ≡ key_is_blank)) × (y.ipam ≡ x.ipam)

  put_by :
      (c : IpInfoCodec) (x : WorldOf net) (r : Result IpInfoCodec) (s : Shared kv.State)
      → Puts kv laws.kv_laws ip_info_laws c
          (encode_ip_info c.ip_info)
          (V net laws x)
          r
          (kv.view s.store)
      → Ends
          (λ _ y.
            (kv.view y.shared.store
              ≡ written (V net laws x) (ip_info_codec.key c) (encode_ip_info c.ip_info))
            × (y.ipam ≡ x.ipam))
          (PutFailed x)
          (r, record x { shared = s })
  put_by c x (ok _) s h = returns (h, refl)
  put_by c x (err e) s h = fails (inl h, refl)

  put-Ends :
      (c : IpInfoCodec) (x : WorldOf net)
      → Ends
          (λ _ y.
            (kv.view y.shared.store
              ≡ written (V net laws x) (ip_info_codec.key c) (encode_ip_info c.ip_info))
            × (y.ipam ≡ x.ipam))
          (PutFailed x)
          (on_store (put kv c) x)
  unfolding put
  put-Ends c x = elim (Bool-cases (ip_info_codec.key c == "")) [
    | inl blank ↦ rw blank (fails {w = x} (inr refl, refl))
    | inr named ↦
        let t = put kv c x.shared in
        put_by c x t.0 t.1
          (put-Puts kv laws.kv_laws ip_info_laws c (encode_ip_info c.ip_info) x.shared named refl)
  ]

  given_up :
      (w x y : WorldOf net) (a : IpAddress) (e : Error)
      → Took net laws w a x
      → PutFailed x e y
      → NotRecorded w e (unalloc_ip net a.ip y).1
  given_up w x y a e took (why, same) =
      Ends-state (NotRecorded w e) (unalloc_ip-Ends net laws a.ip y)
        (λ _ u g. inr (
          a,
          x,
          took,
          why,
          inl (g.0 ∙ ap (λ (s : cal.State). assign (cal.assigned s) a.address false) same),
        ))
        (λ d u g. inr (
          a,
          x,
          took,
          why,
          inr (d, subst (λ (s : cal.State). cal.release_ip a.address s ≡ (err d, u.ipam)) same g.0),
        ))

  -- An address that ``AllocFixedIPFromPools`` hands out was free in Calico when it was called, is
  -- assigned, and has a record, and no address has been released. On an error the cluster is
  -- untouched and no address has been released, or an address was taken whose record could not be
  -- written, and then it has been released, or Calico has failed to release it.
  pub alloc_fixed_ip_from_pools-Ends :
      (hostname : String) (pools : List Pool) (w : WorldOf net)
      → Ends (Recorded w) (NotRecorded w) (alloc_fixed_ip_from_pools net hostname pools w)
  unfolding alloc_fixed_ip_from_pools
  alloc_fixed_ip_from_pools-Ends hostname pools w =
      >>=-Ends (alloc_ip_from_pools net hostname pools)
        (λ ip.
          catch (on_store (put kv (codec_of ip.ip))) (λ _. pure ip)
            (λ e. log_error (unalloc_ip net ip.ip) >> fail e))
        w (alloc_ip_from_pools-Ends net laws hostname pools w)
        (λ a x took.
          catch-Ends (on_store (put kv (codec_of a.ip))) (λ _. pure a)
            (λ e. log_error (unalloc_ip net a.ip) >> fail e) x (put-Ends (codec_of a.ip) x)
            (λ _ y g. returns {w = y} (recorded a x y took g))
            (λ e y g. fails (given_up w x y a e took g)))
        (λ e u h. inl h)
    where
      recorded :
          (a : IpAddress) (x y : WorldOf net)
          → Took net laws w a x
          → ((kv.view y.shared.store
                ≡ written (V net laws x) (key_of a.ip) (encode_ip_info (codec_of a.ip).ip_info))
              × (y.ipam ≡ x.ipam))
          → Recorded w a y
      recorded a x y (v, grows, free, taken, same) (done, quiet) = (
        v,
        grows,
        free,
        ap cal.assigned quiet ∙ taken,
        done
            ∙ ap
                (λ (s : Shared kv.State).
                  written (kv.view (now s)) (key_of a.ip) (encode_ip_info (codec_of a.ip).ip_info))
                same,
      )
