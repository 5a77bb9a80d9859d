-- ===== src/Proxy/Members.antt =====
-- proxy/docker/helper.go: what the handlers read in the members of a request.
use barrel.Prelude.{String, Bool, true, false, not, ◌&&◌, ◌||◌, Option, none, some, string_eq, ◌==◌}
use barrel.Prelude.Texts.{same_char}
use barrel.Prelude.Int.{pos, int_eq}
use barrel.Types.{Result, ok, err, other}
use barrel.Json.{Any, null, bool, int, string, object, Fields, end}
use barrel.Json.Object.{get, set}

abbrev pub fixed_ip_label : String
fixed_ip_label = "fixed-ip"

-- `strings.ToLower(value)` is the first text, whose upper case is the second.
abbrev pub lowers_to : String → String → String → Bool
lowers_to String.[] upper String.[] = true
lowers_to (String.◌∷◌ l ls) (String.◌∷◌ u us) (String.◌∷◌ c cs) =
    (same_char c l || same_char c u) && lowers_to ls us cs
lowers_to _ _ _ = false

-- `isFixedIPEnableByStringValue`
abbrev pub is_fixed_ip_enable_by_string_value : String → Bool
is_fixed_ip_enable_by_string_value value =
    not (value == "0") && not (lowers_to "false" "FALSE" value)

-- `flagEnabled`
abbrev pub flag_enabled : Any → Bool
flag_enabled (string s) = is_fixed_ip_enable_by_string_value s
flag_enabled (int i) = not (i == pos 0)
flag_enabled (bool b) = b
flag_enabled _ = true

abbrev pub member : Option Any → Option Any
member (some null) = none
member o = o

-- The child of `ensureObjectMember` and the parent, which shares it: who changes the child sets it in
-- the parent again.
abbrev pub ensured : Fields → String → Option Any → Result (Fields × Fields)
ensured parent key none = ok (end, set parent key (object end))
ensured parent key (some (object fs)) = ok (fs, parent)
ensured parent key (some _) = err (other "parse object error")

-- `ensureObjectMember`
unfoldable pub ensure_object_member : Fields → String → Result (Fields × Fields)
ensure_object_member parent key = ensured parent key (member (get parent key))

abbrev pub as_text : Option Any → Result String
as_text none = ok ""
as_text (some (string s)) = ok s
as_text (some _) = err (other "parse object as string error")

-- `getStringMember`
unfoldable pub get_string_member : Fields → String → Result String
get_string_member parent key = as_text (member (get parent key))
