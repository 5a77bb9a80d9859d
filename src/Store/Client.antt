-- ===== src/Store/Client.antt =====
-- The etcd client of store/etcd/etcd.go, a package that is not in the repository: its calls are a
-- parameter, and its documented behaviour is a record of hypotheses.
use barrel.Prelude.{
  ℕ, suc, String, Bool, true, ◌&&◌, Option, none, some, List, [], ◌∷◌, ◌≡◌, ◌==◌, nat_eq, string_eq,
  if◌then◌else◌,
}
use barrel.Types.{Result, ok, err, IsForeign}
use barrel.Json.{Any}

-- `mvccpb.KeyValue`, less the key that was asked for. A value is the document that its text holds.
pub record KeyValue : Type 0 where
  pub value : Any
  pub version : ℕ

pub data Cmp : Type 0 where
  version_is : String → ℕ → Cmp

pub data Op : Type 0 where
  op_put : String → Any → Op
  op_get : String → Op

pub data Reply : Type 0 where
  put_reply range_reply : Option KeyValue → Reply

pub record TxnResponse : Type 0 where
  pub succeeded : Bool
  pub responses : List Reply

-- The calls of `clientv3.KV`, each on a state of the etcd cluster. A key has at most one value, so
-- `resp.Kvs`, `PrevKv` and `PrevKvs` are options.
pub record Kv : Type 1 where
  pub State : Type 0
  pub view : State → String → Option KeyValue
  pub get : String → State → Result (Option KeyValue) × State
  pub put : String → Any → State → Result (Option KeyValue) × State
  pub delete : String → State → Result (Option KeyValue) × State
  pub txn : List Cmp → List Op → List Op → State → Result TxnResponse × State

-- What the cluster holds.
abbrev pub View : Type 0
View = String → Option KeyValue

abbrev pub replace : View → String → Option KeyValue → View
replace v k e j = if k == j then e else v j

-- The version of a key counts its changes since it was made; it is 0 for a key that is not there.
abbrev pub version_of : Option KeyValue → ℕ
version_of none = 0
version_of (some e) = e.version

abbrev pub written : View → String → Any → View
written v k x = replace v k (some (record { value = x; version = suc (version_of (v k)) }))

abbrev pub holds : View → List Cmp → Bool
holds v [] = true
holds v (version_is k n ∷ cs) = (version_of (v k) == n) && holds v cs

abbrev pub run_ops : View → List Op → View
run_ops v [] = v
run_ops v (op_put k x ∷ ops) = run_ops (written v k x) ops
run_ops v (op_get k ∷ ops) = run_ops v ops

abbrev pub replies : View → List Op → List Reply
replies v [] = []
replies v (op_put k x ∷ ops) = put_reply (v k) ∷ replies (written v k x) ops
replies v (op_get k ∷ ops) = range_reply (v k) ∷ replies v ops

-- A read changes nothing; a write that fails may or may not have been applied. The errors are the
-- client's own.
abbrev pub Reads : View → String → Result (Option KeyValue) → View → Type 0
Reads v k (ok e) v' = (e ≡ v k) × (v' ≡ v)
Reads v k (err e) v' = IsForeign e × (v' ≡ v)

abbrev pub Changes : View → String → View → Result (Option KeyValue) → View → Type 0
Changes v k after (ok e) v' = (e ≡ v k) × (v' ≡ after)
Changes v k after (err e) v' = IsForeign e

abbrev pub Commits : View → List Cmp → List Op → List Op → Result TxnResponse → View → Type 0
Commits v cs ts es (ok r) v' =
    let ops = if holds v cs then ts else es in
    (r.succeeded ≡ holds v cs) × (r.responses ≡ replies v ops) × (v' ≡ run_ops v ops)
Commits v cs ts es (err e) v' = IsForeign e

pub record KvLaws (kv : Kv) : Type 0 where
  pub get_Reads :
      (k : String) (s : kv.State) → let (r, s') = kv.get k s in Reads (kv.view s) k r (kv.view s')
  pub put_Changes :
      (k : String) (x : Any) (s : kv.State)
      → let (r, s') = kv.put k x s in Changes (kv.view s) k (written (kv.view s) k x) r (kv.view s')
  pub delete_Changes :
      (k : String) (s : kv.State)
      → let (r, s') = kv.delete k s in
        Changes (kv.view s) k (replace (kv.view s) k none) r (kv.view s')
  pub txn_Commits :
      (cs : List Cmp) (ts es : List Op) (s : kv.State)
      → let (r, s') = kv.txn cs ts es s in Commits (kv.view s) cs ts es r (kv.view s')
