-- ===== src/Codecs/Document.antt =====
-- What encoding/json does with the fields of a struct, on documents.
use barrel.Prelude.{ℕ, String, Option, none, some, List, [], ◌∷◌}
use barrel.Prelude.Int.{pos}
use barrel.Types.{Result, ok, err, other, ◌>>=◌}
use barrel.Json.{Any, null, int, string, array, object, Items, nil, cons, Fields}

abbrev pub encode_items {ℓ} : {A : Type ℓ} → (A → Any) → List A → Items
encode_items f [] = nil
encode_items f (x ∷ xs) = cons (f x) (encode_items f xs)

-- A nil slice is written as null. The code makes no slice that is empty and not nil.
abbrev pub encode_list {ℓ} : {A : Type ℓ} → (A → Any) → List A → Any
encode_list f [] = null
encode_list f (x ∷ xs) = array (encode_items f (x ∷ xs))

abbrev pub mismatch {ℓ} : {A : Type ℓ} → Result A
mismatch = err (other "json: cannot unmarshal")

-- A field that the document lacks, and a null in a field that is no pointer, leave the old value.
abbrev pub decode_string : Option Any → String → Result String
decode_string none old = ok old
decode_string (some null) old = ok old
decode_string (some (string s)) old = ok s
decode_string (some _) old = mismatch

abbrev pub decode_uint : Option Any → ℕ → Result ℕ
decode_uint none old = ok old
decode_uint (some null) old = ok old
decode_uint (some (int (pos n))) old = ok n
decode_uint (some _) old = mismatch

abbrev pub decode_items {ℓ} : {A : Type ℓ} → (Any → Result A) → Items → Result (List A)
decode_items f nil = ok []
decode_items f (cons x xs) = f x >>= λ a. decode_items f xs >>= λ rest. ok (a ∷ rest)

abbrev pub decode_list {ℓ} : {A : Type ℓ} → (Any → Result A) → Option Any → List A → Result (List A)
decode_list f none old = ok old
decode_list f (some null) old = ok []
decode_list f (some (array xs)) old = decode_items f xs
decode_list f (some _) old = mismatch

-- A struct is read from an object; a null leaves it as it is.
abbrev pub decode_object {ℓ} : {A : Type ℓ} → (Fields → A → Result A) → Any → A → Result A
decode_object f null old = ok old
decode_object f (object fs) old = f fs old
decode_object f _ old = mismatch
