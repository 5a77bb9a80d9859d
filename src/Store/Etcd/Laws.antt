-- ===== src/Store/Etcd/Laws.antt =====
-- What each call of `etcdStore` does to the cluster, from the documented behaviour of the client.
use barrel.Prelude.{
  ℕ, suc, Bool, true, false, Option, none, some, List, [], ◌∷◌, ◌==◌, ◌≡◌, ◌≢◌, refl, ◌⊎◌, sym, ap,
  subst, ◌∙◌, inl, inr, ◌&&◌, Bool-cases, string_eq, nat_eq, if◌then◌else◌, arith,
}
use barrel.Types.{Result, ok, err, Error, kv_not_exists, IsForeign}
use barrel.Json.{Any}
use barrel.Store.Client.{
  KeyValue, version_is, op_put, op_get, TxnResponse, Kv, KvLaws, View, written, replace, version_of,
  Commits, Reads, Changes, Op, put_reply, range_reply, run_ops,
}
use barrel.Store.Codec.{Codec, CodecLaws}
use barrel.Store.Etcd.{
  Shared, now, get, put, delete, update_else_get, outcome, put_outcome, get_outcome, found,
  put_version, deleted,
}

module _ (kv : Kv) (laws : KvLaws kv) {C : Type 0} ⦃codec : Codec C⦄
    (good : CodecLaws C codec) where
  open codec use {key, encode, decode, version, set_version}

  -- The client's answer to the transaction of a compare-and-swap.
  abbrev pub committed : C → Any → kv.State → Result TxnResponse
  committed c x s =
      (kv.txn (version_is (key c) (version c) ∷ []) (op_put (key c) x ∷ []) (op_get (key c) ∷ [])
        s).0

  -- Why a compare-and-swap that was not made has an error: the client's, that there is no record, or
  -- that the record is no document of the codec.
  pub data Missed (c : C) (v : View) (t : Result TxnResponse) (e : Error) (v' : View) : Type 0 where
    uncommitted : t ≡ err e → IsForeign e → Missed c v t e v'
    absent : e ≡ kv_not_exists → v (key c) ≡ none → version c ≢ 0 → v' ≡ v → Missed c v t e v'
    unreadable :
        (kept : KeyValue)
        → v (key c) ≡ some kept
        → kept.version ≢ version c
        → decode kept.value (set_version kept.version c) ≡ err e
        → IsForeign e
        → v' ≡ v
        → Missed c v t e v'

  pub Missed-kind :
      {c : C} {v v' : View} {t : Result TxnResponse} {e : Error}
      → Missed c v t e v'
      → IsForeign e ⊎ (e ≡ kv_not_exists)
  Missed-kind (uncommitted a f) = inl f
  Missed-kind (absent e n z s) = inr e
  Missed-kind (unreadable k a d r f s) = inl f

  -- What a compare-and-swap of the text `x` under the key of `c` may answer, on the contents `v`, where
  -- `t` is the client's answer.
  abbrev pub Swaps : C → Any → View → Result TxnResponse → Bool × Result C → View → Type 0
  Swaps c x v t (true, ok c') v' =
      (version_of (v (key c)) ≡ version c)
      × (v (key c) ≢ none)
      × (v' ≡ written v (key c) x)
      × (c' ≡ set_version (suc (version c)) c)
  Swaps c x v t (true, err e) v' =
      (v (key c) ≡ none) × (version c ≡ 0) × (v' ≡ written v (key c) x) × (e ≡ kv_not_exists)
  Swaps c x v t (false, ok c') v' =
      (version_of (v (key c)) ≢ version c)
      × (v' ≡ v)
      × ((e : KeyValue) × (v (key c) ≡ some e) × (decode e.value (set_version e.version c) ≡ ok c'))
  Swaps c x v t (false, err e) v' = Missed c v t e v'

  put_outcome-Swaps :
      (c : C) (x : Any) (v v' : View) (t : Result TxnResponse) (e : Option KeyValue)
      → v (key c) ≡ e
      → version_of e ≡ version c
      → v' ≡ written v (key c) x
      → Swaps c x v t (put_outcome kv c (put_reply e)) v'
  put_outcome-Swaps c x v v' t none at same done = (at, sym same, done, refl)
  put_outcome-Swaps c x v v' t (some e) at same done =
      (ap version_of at ∙ same, (λ gone. cc), done, ap (λ (n : ℕ). set_version (suc n) c) same)

  get_outcome-Swaps :
      (c : C) (x : Any) (v v' : View) (t : Result TxnResponse) (e : KeyValue) (r : Result C)
      → v (key c) ≡ some e
      → decode e.value (set_version e.version c) ≡ r
      → version_of (v (key c)) ≢ version c
      → v' ≡ v
      → Swaps c x v t (false, r) v'
  get_outcome-Swaps c x v v' t e (err f) at d differs same =
      unreadable e at (subst (λ (o : Option KeyValue). version_of o ≢ version c) at differs) d
        (good.decode_foreign e.value _ f d) same
  get_outcome-Swaps c x v v' t e (ok c') at d differs same = (differs, same, (e, at, d))

  missed-Swaps :
      (c : C) (x : Any) (v v' : View) (t : Result TxnResponse) (e : Option KeyValue)
      → v (key c) ≡ e
      → version_of (v (key c)) ≢ version c
      → v' ≡ v
      → Swaps c x v t (get_outcome kv c (range_reply e)) v'
  missed-Swaps c x v v' t none at differs same =
      absent refl at (λ z. differs (ap version_of at ∙ sym z)) same
  missed-Swaps c x v v' t (some e) at differs same =
      get_outcome-Swaps c x v v' t e _ at refl differs same

  outcome-Swaps :
      (c : C) (x : Any) (v v' : View) (t r : Result TxnResponse)
      → t ≡ r
      → Commits v
          (version_is (key c) (version c) ∷ [])
          (op_put (key c) x ∷ [])
          (op_get (key c) ∷ [])
          r
          v'
      → Swaps c x v t (outcome kv c r) v'
  outcome-Swaps c x v v' t (err e) same h = uncommitted same h
  outcome-Swaps c x v v' t (ok r) at (s, rs, done) =
      elim (Bool-cases (version_of (v (key c)) == version c)) [
        | inl same ↦
            rw (s, rs, same)
              (put_outcome-Swaps c x v v' t (v (key c)) refl (ground arith)
                (done ∙ ap (λ (b : Bool). run_ops v (if b && true then put_ops else get_ops)) same))
        | inr differs ↦
            rw (s, rs, differs)
              (missed-Swaps c x v v' t (v (key c)) refl (ground arith) (
                done
                ∙ ap (λ (b : Bool). run_ops v (if b && true then put_ops else get_ops)) differs))
      ]
    where
      put_ops : List Op
      put_ops = op_put (key c) x ∷ []

      get_ops : List Op
      get_ops = op_get (key c) ∷ []

  -- When the codec encodes, ``UpdateElseGet`` writes if the stored version is that of the codec,
  -- and answers with the next version; with no record and version 0 it writes and still answers
  -- that the key does not exist. Where the versions differ it writes nothing, and answers with the
  -- stored document decoded under its version, with the error of the decoding, or, only where
  -- there is no record, that the key does not exist. Any other error is that of the transaction.
  pub update_else_get-Swaps :
      (c : C) (x : Any) (w : Shared kv.State)
      → encode c ≡ ok x
      → let (r, w') = update_else_get kv c w in
        Swaps c x (kv.view (now w)) (committed c x (now w)) r (kv.view w'.store)
  unfolding update_else_get
  update_else_get-Swaps c x w e =
      let t =
        kv.txn (version_is (key c) (version c) ∷ []) (op_put (key c) x ∷ []) (op_get (key c) ∷ [])
          (now w) in
      rw e (
        outcome-Swaps c x (kv.view (now w)) (kv.view t.1) _ t.0 refl
          (laws.txn_Commits _ _ _ (now w)))

  -- What a read of the key of `c` may answer.
  abbrev pub Gets : C → View → Result C → View → Type 0
  Gets c v (ok c') v' =
      (v' ≡ v)
      × ((e : KeyValue) × (v (key c) ≡ some e) × (decode e.value (set_version e.version c) ≡ ok c'))
  Gets c v (err e) v' = (v' ≡ v) × (IsForeign e ⊎ ((e ≡ kv_not_exists) × (v (key c) ≡ none)))

  decoded-Gets :
      (c : C) (v v' : View) (e : KeyValue) (r : Result C)
      → v (key c) ≡ some e
      → decode e.value (set_version e.version c) ≡ r
      → v' ≡ v
      → Gets c v r v'
  decoded-Gets c v v' e (ok c') at d same = (same, (e, at, d))
  decoded-Gets c v v' e (err f) at d same = (same, inl (good.decode_foreign e.value _ f d))

  found-Gets :
      (c : C) (v v' : View) (r : Result (Option KeyValue))
      → Reads v (key c) r v'
      → Gets c v (found kv c r) v'
  found-Gets c v v' (err e) h = (h.1, inl h.0)
  found-Gets c v v' (ok none) h = (h.1, inr (refl, sym h.0))
  found-Gets c v v' (ok (some e)) h = decoded-Gets c v v' e _ (sym h.0) refl h.1

  -- `Get` changes nothing; it answers with the stored document decoded under the stored version,
  -- or with the error of an absent key, or with an error of a library.
  pub get-Gets :
      (c : C) (w : Shared kv.State)
      → let (r, w') = get kv c w in Gets c (kv.view (now w)) r (kv.view w'.store)
  unfolding get
  get-Gets c w =
      let t = kv.get (key c) (now w) in
      found-Gets c (kv.view (now w)) (kv.view t.1) t.0 (laws.get_Reads (key c) (now w))

  -- What a blind write of the text `x` may answer.
  abbrev pub Puts : C → Any → View → Result C → View → Type 0
  Puts c x v (ok c') v' = v' ≡ written v (key c) x
  Puts c x v (err e) v' = IsForeign e

  put_version-Puts :
      (c : C) (x : Any) (v v' : View) (r : Result (Option KeyValue))
      → Changes v (key c) (written v (key c) x) r v'
      → Puts c x v (put_version kv c r) v'
  put_version-Puts c x v v' (err e) h = h
  put_version-Puts c x v v' (ok none) h = h.1
  put_version-Puts c x v v' (ok (some e)) h = h.1

  -- When the key is not blank and the codec encodes, a `Put` that succeeds has written the
  -- document under the key and nothing else; one that fails has an error of a library.
  pub put-Puts :
      (c : C) (x : Any) (w : Shared kv.State)
      → (key c == "") ≡ false
      → encode c ≡ ok x
      → let (r, w') = put kv c w in Puts c x (kv.view (now w)) r (kv.view w'.store)
  unfolding put
  put-Puts c x w k e =
      let t = kv.put (key c) x (now w) in
      rw (k, e)
        (put_version-Puts c x (kv.view (now w)) (kv.view t.1) t.0 (laws.put_Changes _ _ (now w)))

  -- What a deletion of the key of `c` may answer.
  abbrev pub Deletes : C → View → Result C → View → Type 0
  Deletes c v (ok c') v' = (v (key c) ≢ none) × (v' ≡ replace v (key c) none)
  Deletes c v (err e) v' =
      IsForeign e ⊎ ((e ≡ kv_not_exists) × (v (key c) ≡ none) × (v' ≡ replace v (key c) none))

  deleted-Deletes :
      (c : C) (v v' : View) (r : Result (Option KeyValue))
      → Changes v (key c) (replace v (key c) none) r v'
      → Deletes c v (deleted kv c r) v'
  deleted-Deletes c v v' (err e) h = inl h
  deleted-Deletes c v v' (ok none) h = inr (refl, sym h.0, h.1)
  deleted-Deletes c v v' (ok (some e)) h = ((λ gone. cc (h.0, gone)), h.1)

  -- When the key is not blank, a `Delete` that succeeds has removed a record that was there; one
  -- that fails says that there was none, or has an error of a library.
  pub delete-Deletes :
      (c : C) (w : Shared kv.State)
      → (key c == "") ≡ false
      → let (r, w') = delete kv c w in Deletes c (kv.view (now w)) r (kv.view w'.store)
  unfolding delete
  delete-Deletes c w k =
      let t = kv.delete (key c) (now w) in
      rw k (deleted-Deletes c (kv.view (now w)) (kv.view t.1) t.0 (laws.delete_Changes _ (now w)))
