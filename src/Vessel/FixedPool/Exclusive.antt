-- ===== src/Vessel/FixedPool/Exclusive.antt =====
-- `AssignFixedIP` against the other clients of the cluster, and a second time.
use barrel.Prelude.{
  ℕ, suc, String, true, false, Option, List, [], ◌∷◌, some, none, ◌≡◌, ◌≢◌, refl, sym, ap, ◌∙◌, All,
  inr, subst, string_eq, beq_refl, arith,
}
use barrel.Types.{ok, Ip, IpInfo}
use barrel.Types.Status.{in_use}
use barrel.Types.Status.Laws.{matches-mark}
use barrel.Json.{Any}
use barrel.Store.Client.{Kv, KvLaws, View, KeyValue, written, version_of}
use barrel.Store.Etcd.{rest, reached}
use barrel.Codecs.{encode_ip_info, decode_ip_info}
use barrel.Codecs.RoundTrip.{decode-encode_ip_info}
use barrel.Vessel.World.{Clients, WorldOf, Ends, Ends_returned, Ends-and, Ends-mono, >>=-Ends}
use barrel.Vessel.FixedPool.{get_fixed_ip, assign_got, assign_fixed_ip}
use barrel.Vessel.FixedPool.Steps.{key_of, V as view_of, Stored, IsOwn, HasRead, get_fixed_ip-Ends}
use barrel.Vessel.FixedPool.Assign.{taken, IsInUse, Wrote, assign_got-Ends, assign_fixed_ip-Ends}

-- Another client gives a key that it changes a version that the key did not have: it does not delete
-- a record and make it again up to the same version.
abbrev pub IsHonest : (kv : Kv) → (kv.State → kv.State) → Type 0
IsHonest kv f =
    (s : kv.State) (k : String)
    → version_of (kv.view (f s) k) ≡ version_of (kv.view s k)
    → kv.view (f s) k ≡ kv.view s k

-- Another client leaves the record of `ip` as it is.
abbrev pub Spares : (kv : Kv) → Ip → (kv.State → kv.State) → Type 0
Spares kv ip f = (s : kv.State) → kv.view (f s) (key_of ip) ≡ kv.view s (key_of ip)

reached-IsHonest :
    (kv : Kv) (s : kv.State) (os : List (kv.State → kv.State)) (k : String)
    → All (IsHonest kv) os
    → version_of (kv.view (reached s os) k) ≡ version_of (kv.view s k)
    → kv.view (reached s os) k ≡ kv.view s k
reached-IsHonest kv s [] k h e = refl
reached-IsHonest kv s (f ∷ fs) k h e = h.0 s k e

reached-Spares :
    (kv : Kv) (ip : Ip) (s : kv.State) (os : List (kv.State → kv.State))
    → All (Spares kv ip) os
    → kv.view (reached s os) (key_of ip) ≡ kv.view s (key_of ip)
reached-Spares kv ip s [] h = refl
reached-Spares kv ip s (f ∷ fs) h = h.0 s

pub All-rest : {S : Type 0} (P : (S → S) → Type 0) (os : List (S → S)) → All P os → All P (rest os)
All-rest P [] h = tt
All-rest P (f ∷ fs) h = h.1

encode_injective : (i j : IpInfo) → encode_ip_info i ≡ encode_ip_info j → i ≡ j
encode_injective i j e =
    let same =
      sym (decode-encode_ip_info i i)
      ∙ ap (λ x. decode_ip_info x i) e
      ∙ decode-encode_ip_info j i in
    cc

module _ (net : Clients) (laws : KvLaws net.kv) where
  open net use {kv}

  -- What an honest cluster holds under the key of `ip` when the swap finds the version that was read.
  between-Stored :
      (ip : Ip) (i : IpInfo) (n : ℕ) (w u : WorldOf net)
      → All (IsHonest kv) w.shared.others
      → Stored (view_of net laws w) ip i n
      → HasRead net w u
      → version_of (view_of net laws u (key_of ip)) ≡ n
      → Stored (view_of net laws u) ip i n
  between-Stored ip i n w u honest st h e = record {
    entry = same ∙ before ∙ st.entry;
    same_pool = st.same_pool;
    same_address = st.same_address;
  }
    where
      before : kv.view u.shared.store (key_of ip) ≡ view_of net laws w (key_of ip)
      before = ap (λ (v : View). v (key_of ip)) h.same_view

      calm : All (IsHonest kv) u.shared.others
      calm = subst (All (IsHonest kv)) (sym h.later_others) (All-rest _ w.shared.others honest)

      same : view_of net laws u (key_of ip) ≡ kv.view u.shared.store (key_of ip)
      same =
          reached-IsHonest kv u.shared.store u.shared.others (key_of ip) calm
            (e ∙ sym (ap version_of (before ∙ st.entry)))

  -- The contents at the swap of a method that starts in `w`: those after its read, and after the change
  -- that the next other client makes.
  abbrev pub at_swap : Ip → WorldOf net → View
  at_swap ip w = view_of net laws (get_fixed_ip net ip none w).1

  assign-Wrote :
      (ip : Ip) (w : WorldOf net)
      → IsOwn (view_of net laws w) ip
      → Ends
          (λ _ w'.
            (i : IpInfo) × IsInUse i false
            × (o : Wrote net laws ip i (taken i) w w') × (o.between
                ≡ (get_fixed_ip net ip none w).1))
          (λ e w'. Unit)
          (assign_fixed_ip net ip w)
  unfolding assign_fixed_ip
  assign-Wrote ip w own =
      >>=-Ends (get_fixed_ip net ip none) (assign_got net) w
        (Ends-and (λ u. u ≡ (get_fixed_ip net ip none w).1) (get_fixed_ip-Ends net laws ip w own)
          refl)
        (λ c u (h, at).
          Ends-mono (assign_got-Ends net laws ip w u c h)
            (λ _ w' (i, free, o, b). (i, free, o, b ∙ at)) (λ e w' q. tt))
        (λ e u h. tt)

  -- If every other client changes the version of a key whose record it changes, and what stands
  -- under the key of an address is a record of it, then the contents at the moment of the swap of
  -- a successful ``AssignFixedIP``, which are those after its read and after the next change of
  -- another client, hold a record of the address that is not in use, and ``AssignFixedIP`` has
  -- written that record, marked, over those contents.
  pub assign_exclusive :
      (ip : Ip) (w w' : WorldOf net)
      → All (IsHonest kv) w.shared.others
      → IsOwn (view_of net laws w) ip
      → assign_fixed_ip net ip w ≡ (ok tt, w')
      → (i : IpInfo) × (n : ℕ) × IsInUse i false
        × Stored (at_swap ip w) ip i n
        × (kv.view w'.shared.store ≡ written (at_swap ip w) (key_of ip) (encode_ip_info (taken i)))
  assign_exclusive ip w w' honest own e =
      let (i, free, wrote, at) = Ends_returned (assign-Wrote ip w own) tt w' e in
      subst
        (λ (u : WorldOf net).
          (i : IpInfo) × (n : ℕ) × IsInUse i false
          × Stored (view_of net laws u) ip i n
          × (kv.view w'.shared.store
              ≡ written (view_of net laws u) (key_of ip) (encode_ip_info (taken i))))
        at
        (
          i,
          wrote.version,
          free,
          between-Stored ip i wrote.version w wrote.between honest wrote.read wrote.acted
              wrote.unchanged,
          wrote.wrote,
        )

  -- After a swap the record that was written is there, until another client changes it.
  Wrote-Stored :
      (ip : Ip) (i j : IpInfo) (w w' : WorldOf net)
      → All (Spares kv ip) w'.shared.others
      → j.pool_id ≡ i.pool_id
      → j.address ≡ i.address
      → (wrote : Wrote net laws ip i j w w') → Stored (view_of net laws w') ip j (suc wrote.version)
  Wrote-Stored ip i j w w' spared p a wrote = record {
    entry = reached-Spares kv ip w'.shared.store w'.shared.others spared ∙ written_entry;
    same_pool = p ∙ wrote.read.same_pool;
    same_address = a ∙ wrote.read.same_address;
  }
    where
      written_entry :
          kv.view w'.shared.store (key_of ip)
          ≡ some (record { value = encode_ip_info j; version = suc wrote.version })
      written_entry =
          ap (λ (v : View). v (key_of ip)) wrote.wrote ∙ rw (beq_refl (key_of ip), wrote.unchanged)

  Stored-unique :
      (v : View) (ip : Ip) (i j : IpInfo) (m n : ℕ) → Stored v ip i m → Stored v ip j n → i ≡ j
  Stored-unique v ip i j m n a b = encode_injective i j (ap value_of (sym a.entry ∙ b.entry))
    where
      value_of : Option KeyValue → Any
      value_of none = encode_ip_info i
      value_of (some e) = e.value

  taken-IsInUse : (i : IpInfo) → IsInUse (taken i) true
  taken-IsInUse i = matches-mark i.status (in_use ∷ []) (omega arith)

  -- Where the key of an address holds a record of it or nothing: after a successful
  -- `AssignFixedIP` of it, while the other clients spare the record of the address, a second
  -- `AssignFixedIP` of it does not succeed.
  pub assign_twice :
      (ip : Ip) (w w' w'' : WorldOf net)
      → IsOwn (view_of net laws w) ip
      → assign_fixed_ip net ip w ≡ (ok tt, w')
      → All (Spares kv ip) w'.shared.others
      → assign_fixed_ip net ip w' ≢ (ok tt, w'')
  assign_twice ip w w' w'' own first spared second =
      let t = Ends_returned (assign_fixed_ip-Ends net laws ip w own) tt w' first in
      let i = t.0 in
      let st = Wrote-Stored ip i (taken i) w w' spared refl refl t.2 in
      let own' : IsOwn (view_of net laws w') ip = inr (taken i, _, st) in
      let u = Ends_returned (assign_fixed_ip-Ends net laws ip w' own') tt w'' second in
      let same = Stored-unique _ ip (taken i) u.0 _ _ st u.2.read in
      cc (taken-IsInUse i, subst (λ (j : IpInfo). IsInUse j false) (sym same) u.1)
