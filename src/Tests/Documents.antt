-- ===== src/Tests/Documents.antt =====
-- The theorems on keys, nodes and status bits at concrete inputs.
use barrel.Prelude.{String, ◌≡◌, refl, true, nat_eq, string_eq, ◌==◌}
use barrel.Prelude.Int.{pos}
use barrel.Types.{ok, ◌>>=◌}
use barrel.Json.{null, int, bool, array, nil, cons, Fields, end, field, Any}
use barrel.Json.Raw.{Float64, new_node, reread, raw_value, new_node-reread}
use barrel.Codecs.{IpInfoCodec}
use barrel.Codecs.Keys.{ip_info_key_injective}
use barrel.Vessel.FixedPool.{codec_of}
use barrel.Tests.Memory.{ip9}

abbrev codec9 : IpInfoCodec
codec9 = codec_of ip9

ip_info_key_injective_example :
    (codec9.ip_info.pool_id ≡ codec9.ip_info.pool_id)
    × (codec9.ip_info.address ≡ codec9.ip_info.address)
ip_info_key_injective_example =
    ip_info_key_injective codec9 codec9 refl refl refl refl
      ((λ e. cc), ((λ e. cc), ((λ e. cc), ((λ e. cc), tt))))
      ((λ e. cc), ((λ e. cc), ((λ e. cc), ((λ e. cc), tt)))) refl

-- Numbers below 2 ^ 53 as their own bit patterns.
abbrev pub small_floats : Float64
small_floats = record {
  to_int64 = λ n. pos n;
  of_int64 = λ i. elim i [ pos n ↦ n | _ ↦ 0 ];
  float_eq = λ a b. a == b;
  is_finite = λ a. true;
}

abbrev numbers : Any
numbers = array (cons (int (pos 3)) (cons (bool true) nil))

new_node-reread_example :
    (reread small_floats (raw_value numbers) >>= new_node small_floats) ≡ ok numbers
new_node-reread_example = new_node-reread small_floats numbers ((refl, refl), (tt, tt))

abbrev str : String → String
str s = s

abbrev members : Fields
members = field "a" null (field "b" (bool true) end)
