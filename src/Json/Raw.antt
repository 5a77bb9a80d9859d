-- ===== src/Json/Raw.antt =====
-- `newNode`, `RawValue`, `Marshal` and `Unmarshal` of utils/json.go and utils/jsonnodes.go: nodes
-- against the values of encoding/json.
use barrel.Prelude.{ℕ, String, Bool, true, false, none, some, ◌≡◌, refl, if◌then◌else◌}
use barrel.Prelude.Int.{ℤ}
use barrel.Types.{Result, ok, err, other, ◌>>=◌}
use barrel.Json.{
  Any, null, bool, int, float, string, array, object, Items, nil, cons, Fields, end, field,
  object_value, array_value,
}

-- float64 and its conversions from and to int64, over bit patterns, and which are finite.
pub record Float64 : Type 0 where
  pub to_int64 : ℕ → ℤ
  pub of_int64 : ℤ → ℕ
  pub float_eq : ℕ → ℕ → Bool
  pub is_finite : ℕ → Bool

-- A value of type `interface{}`; `unsupported` is one of any other type.
mutual
  pub data Raw : Type 0 where
    untyped_nil unsupported : Raw
    text : String → Raw
    float64 : ℕ → Raw
    int64 : ℤ → Raw
    boolean : Bool → Raw
    slice : RawItems → Raw
    mapping : RawMembers → Raw

  pub data RawItems : Type 0 where
    no_item : RawItems
    item : Raw → RawItems → RawItems

  pub data RawMembers : Type 0 where
    no_member : RawMembers
    member : String → Raw → RawMembers → RawMembers

mutual
  pub raw_value : Any → Raw
  raw_value null = untyped_nil
  raw_value (bool b) = boolean b
  raw_value (int i) = int64 i
  raw_value (float f) = float64 f
  raw_value (string s) = text s
  raw_value (array xs) = slice (raw_items xs)
  raw_value (object fs) = mapping (raw_members fs)

  pub raw_items : Items → RawItems
  raw_items nil = no_item
  raw_items (cons x xs) = item (raw_value x) (raw_items xs)

  pub raw_members : Fields → RawMembers
  raw_members end = no_member
  raw_members (field k v fs) = member k (raw_value v) (raw_members fs)

module _ (f64 : Float64) where
  open f64 use {to_int64, of_int64, float_eq, is_finite}

  unfoldable pub new_number_node : ℕ → Any
  new_number_node value =
      if float_eq value (of_int64 (to_int64 value)) then int (to_int64 value) else float value

  unfoldable mutual
    unfolding new_number_node

    pub new_node : Raw → Result Any
    new_node untyped_nil = ok null
    new_node unsupported = err (other "Unsupport type conversion")
    new_node (text s) = ok (string s)
    new_node (float64 v) = ok (new_number_node v)
    new_node (int64 i) = err (other "Unsupport type conversion")
    new_node (boolean b) = ok (bool b)
    new_node (slice xs) = new_array_node xs >>= λ ys. ok (array ys)
    new_node (mapping ms) = new_object_node ms >>= λ fs. ok (object fs)

    pub new_array_node : RawItems → Result Items
    new_array_node no_item = ok nil
    new_array_node (item r rs) = new_node r >>= λ x. new_array_node rs >>= λ xs. ok (cons x xs)

    pub new_object_node : RawMembers → Result Fields
    new_object_node no_member = ok end
    new_object_node (member k r ms) =
        new_node r >>= λ v. new_object_node ms >>= λ fs. ok (field k v fs)

  -- What `json.Unmarshal` reads from the text that `json.Marshal` wrote: each number as a float64. A
  -- float64 that is not finite is not written.
  mutual
    pub reread : Raw → Result Raw
    reread untyped_nil = ok untyped_nil
    reread unsupported = err (other "json: unsupported type")
    reread (text s) = ok (text s)
    reread (float64 v) =
        if is_finite v then ok (float64 v) else err (other "json: unsupported value")
    reread (int64 i) = ok (float64 (of_int64 i))
    reread (boolean b) = ok (boolean b)
    reread (slice xs) = reread_items xs >>= λ ys. ok (slice ys)
    reread (mapping ms) = reread_members ms >>= λ ns. ok (mapping ns)

    pub reread_items : RawItems → Result RawItems
    reread_items no_item = ok no_item
    reread_items (item r rs) = reread r >>= λ x. reread_items rs >>= λ xs. ok (item x xs)

    pub reread_members : RawMembers → Result RawMembers
    reread_members no_member = ok no_member
    reread_members (member k r ms) =
        reread r >>= λ v. reread_members ms >>= λ ns. ok (member k v ns)

  -- Each integer survives the way through a float64, and each other number is finite and no integer.
  abbrev mutual
    pub Exact : Any → Type 0
    Exact null = Unit
    Exact (bool b) = Unit
    Exact (int i) =
        (float_eq (of_int64 i) (of_int64 (to_int64 (of_int64 i))) ≡ true)
        × (to_int64 (of_int64 i) ≡ i)
    Exact (float v) = (is_finite v ≡ true) × (float_eq v (of_int64 (to_int64 v)) ≡ false)
    Exact (string s) = Unit
    Exact (array xs) = ExactItems xs
    Exact (object fs) = ExactFields fs

    pub ExactItems : Items → Type 0
    ExactItems nil = Unit
    ExactItems (cons x xs) = Exact x × ExactItems xs

    pub ExactFields : Fields → Type 0
    ExactFields end = Unit
    ExactFields (field k v fs) = Exact v × ExactFields fs

  mutual
    unfolding new_node raw_value reread

    node_back :
        (n : Any) → Exact n → (r : Raw) × (reread (raw_value n) ≡ ok r) × (new_node r ≡ ok n)
    node_back null h = (untyped_nil, refl, refl)
    node_back (bool b) h = (boolean b, refl, refl)
    node_back (int i) h = (float64 (of_int64 i), refl, rw (h.0, h.1) refl)
    node_back (float v) h = (float64 v, rw h.0 refl, rw h.1 refl)
    node_back (string s) h = (text s, refl, refl)
    node_back (array xs) h =
        let (ys, written, back) = items_back xs h in (slice ys, rw written refl, rw back refl)
    node_back (object fs) h =
        let (ms, written, back) = fields_back fs h in (mapping ms, rw written refl, rw back refl)

    items_back :
        (xs : Items)
        → ExactItems xs
        → (ys : RawItems) × (reread_items (raw_items xs) ≡ ok ys) × (new_array_node ys ≡ ok xs)
    items_back nil h = (no_item, refl, refl)
    items_back (cons x xs) h =
        let (r, w, b) = node_back x h.0 in
        let (rs, ws, bs) = items_back xs h.1 in (item r rs, rw (w, ws) refl, rw (b, bs) refl)

    fields_back :
        (fs : Fields)
        → ExactFields fs
        → (ms : RawMembers) × (reread_members (raw_members fs) ≡ ok ms)
          × (new_object_node ms ≡ ok fs)
    fields_back end h = (no_member, refl, refl)
    fields_back (field k v fs) h =
        let (r, w, b) = node_back v h.0 in
        let (rs, ws, bs) = fields_back fs h.1 in (member k r rs, rw (w, ws) refl, rw (b, bs) refl)

  -- A node whose integers survive the way through a float64, and whose other numbers are finite
  -- and no integers, is written by encoding/json without an error and comes back unchanged when it
  -- is read.
  pub new_node-reread : (n : Any) → Exact n → (reread (raw_value n) >>= new_node) ≡ ok n
  new_node-reread n h = let (r, w, b) = node_back n h in rw w b

  -- `UnmarshalObject` of the value that `json.Unmarshal` read.
  unfoldable pub unmarshal_object : Raw → Result Fields
  unmarshal_object src = new_node src >>= λ node. elim (object_value node) [
    | none ↦ err (other "not object")
    | some fs ↦ ok fs
  ]

  -- `UnmarshalArray`
  unfoldable pub unmarshal_array : Raw → Result Items
  unmarshal_array src = new_node src >>= λ node. elim (array_value node) [
    | none ↦ err (other "not array")
    | some xs ↦ ok xs
  ]
