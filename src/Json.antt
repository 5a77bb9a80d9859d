-- ===== src/Json.antt =====
-- utils/json.go and utils/jsonnodes.go: the nodes behind the interface `Any`, as immutable trees.
-- An object's map is a list of members; a number that is no integer is the bits of its float64.
pub mod Object
pub mod Raw
use barrel.Prelude.{ℕ, String, Bool, true, false, Option, none, some}
use barrel.Prelude.Int.{ℤ}

mutual
  pub data Any : Type 0 where
    null : Any
    bool : Bool → Any
    int : ℤ → Any
    float : ℕ → Any
    string : String → Any
    array : Items → Any
    object : Fields → Any

  pub data Items : Type 0 where
    nil : Items
    cons : Any → Items → Items

  pub data Fields : Type 0 where
    end : Fields
    field : String → Any → Fields → Fields

-- The accessors return `none` for Go's `ok == false`.
abbrev pub is_null : Any → Bool
is_null null = true
is_null _ = false

abbrev pub string_value : Any → Option String
string_value (string s) = some s
string_value _ = none

abbrev pub int_value : Any → Option ℤ
int_value (int i) = some i
int_value _ = none

abbrev pub bool_value : Any → Option Bool
bool_value (bool b) = some b
bool_value _ = none

abbrev pub array_value : Any → Option Items
array_value (array xs) = some xs
array_value _ = none

abbrev pub object_value : Any → Option Fields
object_value (object fs) = some fs
object_value _ = none

-- `FloatValue` succeeds on every number; an integer node carries the zero value of its other field.
abbrev pub float_value : Any → Option ℕ
float_value (float f) = some f
float_value (int i) = some 0
float_value _ = none

-- `arrayNode.Add` of one node.
unfoldable pub add : Items → Any → Items
add nil x = cons x nil
add (cons y ys) x = cons y (add ys x)
