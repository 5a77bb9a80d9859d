-- ===== src/Vessel/Helper/Release.antt =====
-- `ReleaseContainerAddressesByIPPools`: which addresses leave the record of a container.
use barrel.Prelude.{
  ℕ, List, [], ◌∷◌, Bool, true, false, none, some, ◌≡◌, refl, ap, ◌∙◌, inl, inr, length, nat_eq,
  ◌==◌, Bool-cases, arith, if◌then◌else◌, Option,
}
use barrel.Types.{ok, Error, is_not_exists, Pool, Ip, Container, ContainerInfo}
use barrel.Store.Client.{KvLaws, View, written, version_of}
use barrel.Store.Etcd.{get}
use barrel.Codecs.{ContainerInfoCodec, container_info_codec, encode_container_info}
use barrel.Vessel.World.{
  Clients, WorldOf, Ends, returns, fails, >>=-Ends, catch-Ends, on_store, ◌>>=◌, pure, fail,
}
use barrel.Vessel.FixedPool.Steps.{HasRead, V as view_of, foreign_exists}
use barrel.Vessel.Helper.{
  done, turns, enough, in_pools, outside_pools, with_addresses, codec_of, update_record,
  stop_or_turn, release_got, release_turn, unalloc_all, unalloc_released,
  release_container_addresses_by_ip_pools,
}
use barrel.Vessel.Helper.Record.{
  key_of, Stored, codec_for, GotRecord, NoRecord, get-Ends, Swapped, update_record-Ends,
}
use barrel.Vessel.Helper.Turns.{
  IsReady, IsOwn-ready, IsReady-read, Failed, Turn, Finished, turns-Ends,
}

abbrev pub set_addresses : ContainerInfo → List Ip → ContainerInfo
set_addresses i ips = record i { addresses = ips }

module _ (net : Clients) (laws : KvLaws net.kv) (ct : Container) where
  open net use {kv}

  abbrev V : WorldOf net → View
  V = view_of net laws

  -- The record of the container was read and, unchanged, written back with these addresses.
  pub record Rewrote (i : ContainerInfo) (ips : List Ip) (w w' : WorldOf net) : Type 0 where
    pub version : ℕ
    pub between : WorldOf net
    pub read : Stored (V w) ct i version
    pub acted : HasRead net w between
    pub unchanged : version_of (V between (key_of ct)) ≡ version
    pub wrote :
        kv.view w'.shared.store
        ≡ written (V between) (key_of ct) (encode_container_info (set_addresses i ips))

  -- A turn's swap of the record with other addresses.
  pub swap-Turn :
      {A : Type 0} (P : WorldOf net → A → WorldOf net → Type 0) (a : A) (ips : List Ip)
      (i : ContainerInfo) (n : ℕ) (w u : WorldOf net)
      → IsReady net laws ct u
      → Stored (V w) ct i n
      → HasRead net w u
      → ((w' : WorldOf net) → Rewrote i ips w w' → P w a w')
      → Ends
          (Turn net laws ct P w)
          (Failed net laws ct)
          ((update_record net (with_addresses (codec_for i n) ips) >>= stop_or_turn net a) u)
  swap-Turn P a ips i n w u ready st h found =
      >>=-Ends (update_record net (with_addresses (codec_for i n) ips)) (stop_or_turn net a) u
        (update_record-Ends net laws ct (with_addresses (codec_for i n) ips) u st.same_container
          (IsOwn-ready net laws ct u ready))
        (λ r x g. turned r x g) (λ e x g. g)
    where
      turned :
          (r : Bool × ContainerInfoCodec) (x : WorldOf net)
          → Swapped net laws ct (with_addresses (codec_for i n) ips) u r x
          → Ends (Turn net laws ct P w) (Failed net laws ct) (stop_or_turn net a r x)
      turned (true, c) x g = returns {w = x} (
          found x (record {
            version = n;
            between = u;
            read = st;
            acted = h;
            unchanged = g.0;
            wrote = g.2;
          }))
      turned (false, c) x g = returns {w = x} (
        record {
          between = u;
          acted = h;
          changed = λ same. g.0 (same ∙ ap version_of st.entry);
          kept = g.1;
          later_others = g.2;
        },
        g.3,
      )

  module _ (pools : List Pool) where
    -- What the loop decides to release, in its last turn.
    pub data Releases (w : WorldOf net) (ips : List Ip) (w' : WorldOf net) : Type 0 where
      no_record : ips ≡ [] → V w (key_of ct) ≡ none → Releases w ips w'
      no_address :
          (i : ContainerInfo) (n : ℕ)
          → ips ≡ []
          → Stored (V w) ct i n
          → i.addresses ≡ []
          → Releases w ips w'
      rewrote :
          (i : ContainerInfo)
          → ips ≡ in_pools pools i.addresses
          → Rewrote i (outside_pools pools i.addresses) w w'
          → Releases w ips w'

    no_length : (ips : List Ip) → (length ips == 0) ≡ true → ips ≡ []
    no_length [] e = refl
    no_length (ip ∷ ips) e = absurd (ground arith)

    release_got-Turn :
        (w u : WorldOf net) (c : ContainerInfoCodec)
        → IsReady net laws ct w
        → GotRecord net laws ct w c u
        → Ends (Turn net laws ct Releases w) (Failed net laws ct) (release_got net pools c u)
    release_got-Turn w u c ready ((i, n, st, same), h) =
        rw same (elim (Bool-cases (length i.addresses == 0)) [
          | inl bare ↦
              rw bare (returns {w = u} (no_address i n refl st (no_length i.addresses bare)))
          | inr some_left ↦ rw some_left (
              swap-Turn Releases (in_pools pools i.addresses) (outside_pools pools i.addresses) i n
                w u (IsReady-read net laws ct w u ready h) st h (λ w' g. rewrote i refl g))
        ])

    unread :
        (w u : WorldOf net) (e : Error)
        → NoRecord net laws ct w e u
        → Ends
            (Turn net laws ct Releases w)
            (Failed net laws ct)
            ((if is_not_exists e then pure (done []) else fail e) u)
    unread w u e (inr (same, gone), h) = rw same (returns {w = u} (no_record refl gone))
    unread w u e (inl f, h) = rw (foreign_exists e f) (fails (inl f))

    release_turn-Ends :
        (c : ContainerInfoCodec) (w : WorldOf net)
        → c.info.container ≡ ct
        → IsReady net laws ct w
        → Ends (Turn net laws ct Releases w) (Failed net laws ct) (release_turn net pools c w)
    release_turn-Ends c w of_ct ready =
        catch-Ends (on_store (get kv c)) (release_got net pools)
          (λ e. if is_not_exists e then pure (done []) else fail e) w
          (get-Ends net laws ct c w of_ct (IsOwn-ready net laws ct w ready))
          (λ c' u g. release_got-Turn w u c' ready g) (λ e u g. unread w u e g)

    unalloc_all-ok :
        (ips : List Ip) (w : WorldOf net)
        → unalloc_all net ips w ≡ (ok tt, (unalloc_all net ips w).1)
    unalloc_all-ok [] w = refl
    unalloc_all-ok (ip ∷ ips) w = unalloc_all-ok ips _

    -- The loop ended with these addresses to release, and each was given up in turn.
    abbrev pub HasReleased : WorldOf net → Unit {0} → WorldOf net → Type 0
    HasReleased w _ w' =
        (ips : List Ip) × (x : WorldOf net) × Finished net laws ct Releases w (some ips) x
        × (w' ≡ (unalloc_all net ips x).1)

    -- Where the record of a container is its own and the other clients keep it so,
    -- `ReleaseContainerAddressesByIPPools` ends: it finds nothing to release, or it swaps the
    -- record for one with exactly the addresses outside the pools and gives the others up; an
    -- error is that of a library, or says that the record is gone.
    pub release_container_addresses_by_ip_pools-Ends :
        (w : WorldOf net)
        → IsReady net laws ct w
        → Ends
            (HasReleased w)
            (Failed net laws ct)
            (release_container_addresses_by_ip_pools net ct pools w)
    unfolding release_container_addresses_by_ip_pools
    release_container_addresses_by_ip_pools-Ends w ready =
        >>=-Ends (turns net (enough net w) (release_turn net pools) (codec_of ct))
          (unalloc_released net) w
          (turns-Ends net laws ct Releases (release_turn net pools) release_turn-Ends (enough net w)
            (codec_of ct) w refl (omega arith) ready)
          (λ o x g. unalloced o x g) (λ e x g. g)
      where
        unalloced :
            (o : Option (List Ip)) (x : WorldOf net)
            → Finished net laws ct Releases w o x
            → Ends (HasReleased w) (Failed net laws ct) (unalloc_released net o x)
        unalloced none x g = absurd (cc (g.1))
        unalloced (some ips) x g = rw (unalloc_all-ok ips x) (returns (ips, x, g, refl))
