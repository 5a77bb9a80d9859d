-- ===== src/Types/Errors.antt =====
-- types/errors.go, store/store.go and store/etcd/etcd.go: the errors that the code tells apart.
use barrel.Prelude.{String, Bool, true, false, Option, none, some, not}

-- An error that another program returns, or that the code makes with `errors.Errorf`, is a text.
pub data Error : Type 0 where
  critical_error cidr_not_in_pool no_hosts service_shutdown cannot_dispose_service : Error
  system_terminate_signal no_listener no_container_ident wrong_api_version : Error
  container_not_exists unsupervised_network configured_pool_unfound : Error
  ip_in_use fixed_ip_not_allocated fixed_ip_has_borrower max_retry_count_exceeded : Error
  kv_not_exists unexpected_txn_resp key_is_blank no_ops : Error
  other : String → Error

-- The error is of another program's making, so it is none of the variables above.
abbrev pub IsForeign : Error → Type 0
IsForeign (other _) = Unit
IsForeign _ = ⊥

-- A Go pair `(value, error)` of which only one part is read.
pub data Result {ℓ} (A : Type ℓ) : Type ℓ where
  ok : A → Result A
  err : Error → Result A

-- The early returns of Go: `if v, err := m; err != nil { return err }`.
infixl 5 ◌>>=◌
abbrev pub ◌>>=◌ {ℓ κ} : {A : Type ℓ} {B : Type κ} → Result A → (A → Result B) → Result B
ok a >>= f = f a
err e >>= f = err e

-- `store.IsNotExists`
abbrev pub is_not_exists : Error → Bool
is_not_exists kv_not_exists = true
is_not_exists _ = false

-- `store.ErrButOtherThenKVUnexistsErr`; `none` is a nil error.
abbrev pub err_but_other_then_kv_unexists_err : Option Error → Bool
err_but_other_then_kv_unexists_err none = false
err_but_other_then_kv_unexists_err (some e) = not (is_not_exists e)
