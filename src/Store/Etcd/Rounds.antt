-- ===== src/Store/Etcd/Rounds.antt =====
-- Each call of `etcdStore` lets the other clients act once.
use barrel.Prelude.{false, ◌≡◌, refl, ◌==◌, string_eq}
use barrel.Types.{ok}
use barrel.Json.{Any}
use barrel.Store.Client.{Kv}
use barrel.Store.Codec.{Codec}
use barrel.Store.Etcd.{Shared, rest, get, put, delete, update_else_get}

module _ (kv : Kv) {C : Type 0} ⦃codec : Codec C⦄ (c : C) (w : Shared kv.State) where
  open codec use {key, encode}

  pub others-get : (get kv c w).1.others ≡ rest w.others
  unfolding get
  others-get = refl

  pub others-update_else_get :
      (x : Any) → encode c ≡ ok x → (update_else_get kv c w).1.others ≡ rest w.others
  unfolding update_else_get
  others-update_else_get x e = rw e

  pub others-put :
      (x : Any) → (key c == "") ≡ false → encode c ≡ ok x → (put kv c w).1.others ≡ rest w.others
  unfolding put
  others-put x k e = rw (k, e)

  pub others-delete : (key c == "") ≡ false → (delete kv c w).1.others ≡ rest w.others
  unfolding delete
  others-delete k = rw k
