-- ===== src/Store/Codec.antt =====
-- The interface `Codec` of store/store.go: what a record must offer to be stored.
use barrel.Prelude.{ℕ, String, ◌≡◌}
use barrel.Types.{Result, err, Error, IsForeign}
use barrel.Json.{Any}

pub record Codec (C : Type 0) : Type 0 where
  pub key : C → String
  pub encode : C → Result Any
  pub decode : Any → C → Result C
  pub version : C → ℕ
  pub set_version : ℕ → C → C

-- What the code relies on: the version is no part of the key or of the text, and a text that cannot
-- be read is an error of encoding/json.
pub record CodecLaws (C : Type 0) (codec : Codec C) : Type 0 where
  pub version-set_version : (n : ℕ) (c : C) → codec.version (codec.set_version n c) ≡ n
  pub key-set_version : (n : ℕ) (c : C) → codec.key (codec.set_version n c) ≡ codec.key c
  pub encode-set_version : (n : ℕ) (c : C) → codec.encode (codec.set_version n c) ≡ codec.encode c
  pub decode_foreign : (x : Any) (c : C) (e : Error) → codec.decode x c ≡ err e → IsForeign e
