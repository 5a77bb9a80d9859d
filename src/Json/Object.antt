-- ===== src/Json/Object.antt =====
-- `objectNode` of utils/jsonnodes.go: a map from names to nodes.
use barrel.Prelude.{
  String, Bool, true, false, Option, none, some, List, [], ◌∷◌, ◌≡◌, refl, string_eq, ◌==◌,
  if◌then◌else◌, beq_iff, arith,
}
use barrel.Json.{Any, Fields, end, field}

-- `Get`
unfoldable pub get : Fields → String → Option Any
get end k = none
get (field j v fs) k = if j == k then some v else get fs k

-- `Has`
unfoldable pub has : Fields → String → Bool
unfolding get
has fs k = elim (get fs k) [ none ↦ false | some _ ↦ true ]

-- `Set`
unfoldable pub set : Fields → String → Any → Fields
set end k v = field k v end
set (field j w fs) k v = if j == k then field j v fs else field j w (set fs k v)

-- `Del`
unfoldable pub del : Fields → String → Fields
del end k = end
del (field j w fs) k = let rest = del fs k in if j == k then rest else field j w rest

-- `Keys`, in the order of the list; Go's order is not specified.
unfoldable pub keys : Fields → List String
keys end = []
keys (field j w fs) = j ∷ keys fs

-- After a member is set, its name reads the new node and any other name reads as before.
pub get-set :
    (fs : Fields) (k j : String) (v : Any)
    → get (set fs k v) j ≡ (if k == j then some v else get fs j)
unfolding get set
get-set end k j v = refl
get-set (field i w fs) k j v =
    ground (arith, beq_iff k j, beq_iff i k, beq_iff i j, get-set fs k j v)

-- After a member is removed, its name is not found and any other name reads as before.
pub get-del : (fs : Fields) (k j : String) → get (del fs k) j ≡ (if k == j then none else get fs j)
unfolding get del
get-del end k j = ground arith
get-del (field i w fs) k j = ground (arith, beq_iff k j, beq_iff i k, beq_iff i j, get-del fs k j)

pub get-set_self : (fs : Fields) (k : String) (v : Any) → get (set fs k v) k ≡ some v
get-set_self fs k v = ground (arith, get-set fs k k v, beq_iff k k)
