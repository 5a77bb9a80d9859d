-- ===== src/Store/Etcd.antt =====
-- `etcdStore` of store/etcd/etcd.go, over the etcd client. Other clients of the cluster act between
-- two calls: the world holds what each of them will do.
pub mod Laws
pub mod Rounds
pub mod Batch
use barrel.Prelude.{
  ℕ, zero, suc, String, Bool, true, false, Option, none, some, List, [], ◌∷◌, ◌==◌, string_eq,
  if◌then◌else◌,
}
use barrel.Types.{Result, ok, err, Error, kv_not_exists, unexpected_txn_resp, key_is_blank, other}
use barrel.Json.{Any}
use barrel.Store.Client.{
  KeyValue, Cmp, version_is, Op, op_put, op_get, Reply, put_reply, range_reply, TxnResponse, Kv,
}
use barrel.Store.Codec.{Codec}

-- The cluster, and the changes that other clients make, one before each call.
pub record Shared (S : Type 0) : Type 0 where
  pub store : S
  pub others : List (S → S)

-- The state in which the next call runs.
abbrev pub reached : {S : Type 0} → S → List (S → S) → S
reached s [] = s
reached s (f ∷ fs) = f s

abbrev pub rest : {S : Type 0} → List (S → S) → List (S → S)
rest [] = []
rest (f ∷ fs) = fs

abbrev pub now : {S : Type 0} → Shared S → S
now w = reached w.store w.others

abbrev pub call : {S A : Type 0} → (S → A × S) → Shared S → A × Shared S
call op w = let (r, s) = op (now w) in (r, record { store = s; others = rest w.others })

module _ (kv : Kv) {C : Type 0} ⦃codec : Codec C⦄ where
  open codec use {key, encode, decode, version, set_version}

  abbrev found : C → Result (Option KeyValue) → Result C
  found c (err e) = err e
  found c (ok none) = err kv_not_exists
  found c (ok (some e)) = decode e.value (set_version e.version c)

  -- `Get`
  unfoldable pub get : C → Shared kv.State → Result C × Shared kv.State
  get c w = let (r, w') = call (kv.get (key c)) w in (found c r, w')

  abbrev put_version : C → Result (Option KeyValue) → Result C
  put_version c (err e) = err e
  put_version c (ok none) = ok (set_version 0 c)
  put_version c (ok (some e)) = ok (set_version (suc e.version) c)

  abbrev put_encoded : C → Result Any → Shared kv.State → Result C × Shared kv.State
  put_encoded c (err e) w = (err e, w)
  put_encoded c (ok x) w = let (r, w') = call (kv.put (key c) x) w in (put_version c r, w')

  -- `Put`
  unfoldable pub put : C → Shared kv.State → Result C × Shared kv.State
  put c w = if key c == "" then (err key_is_blank, w) else put_encoded c (encode c) w

  abbrev deleted : C → Result (Option KeyValue) → Result C
  deleted c (err e) = err e
  deleted c (ok none) = err kv_not_exists
  deleted c (ok (some e)) = ok c

  -- `Delete`
  unfoldable pub delete : C → Shared kv.State → Result C × Shared kv.State
  delete c w =
      let (r, w') = call (kv.delete (key c)) w in
      if key c == "" then (err key_is_blank, w) else (deleted c r, w')

  abbrev got_deleted : C → Result (Option KeyValue) → Result C
  got_deleted c (err e) = err e
  got_deleted c (ok none) = err kv_not_exists
  got_deleted c (ok (some e)) = decode e.value (set_version 0 c)

  -- `GetAndDelete`
  unfoldable pub get_and_delete : C → Shared kv.State → Result C × Shared kv.State
  get_and_delete c w =
      let (r, w') = call (kv.delete (key c)) w in
      if key c == "" then (err key_is_blank, w) else (got_deleted c r, w')

  abbrev put_outcome : C → Reply → Bool × Result C
  put_outcome c (put_reply none) = (true, err kv_not_exists)
  put_outcome c (put_reply (some e)) = (true, ok (set_version (suc e.version) c))
  put_outcome c (range_reply _) = (true, err unexpected_txn_resp)

  abbrev get_outcome : C → Reply → Bool × Result C
  get_outcome c (put_reply _) = (false, err unexpected_txn_resp)
  get_outcome c (range_reply none) = (false, err kv_not_exists)
  get_outcome c (range_reply (some e)) = (false, decode e.value (set_version e.version c))

  abbrev txn_outcome : C → Bool → List Reply → Bool × Result C
  txn_outcome c s (r ∷ []) = if s then put_outcome c r else get_outcome c r
  txn_outcome c s _ = (s, err unexpected_txn_resp)

  abbrev outcome : C → Result TxnResponse → Bool × Result C
  outcome c (err e) = (false, err e)
  outcome c (ok r) = txn_outcome c r.succeeded r.responses

  abbrev update_encoded : C → Result Any → Shared kv.State → (Bool × Result C) × Shared kv.State
  update_encoded c (err e) w = ((false, err e), w)
  update_encoded c (ok x) w =
      let (r, w') =
        call
          (kv.txn (version_is (key c) (version c) ∷ []) (op_put (key c) x ∷ [])
            (op_get (key c) ∷ []))
          w in
      (outcome c r, w')

  -- `UpdateElseGet`: the flag that it returns, and the codec or an error.
  unfoldable pub update_else_get : C → Shared kv.State → (Bool × Result C) × Shared kv.State
  update_else_get c w = update_encoded c (encode c) w
