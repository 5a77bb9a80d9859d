-- ===== src/Tests/Stores.antt =====
-- The theorems on the store and the codecs at concrete inputs.
use barrel.Prelude.{◌≡◌, refl, [], string_eq}
use barrel.Store.Client.{View}
use barrel.Store.Etcd.{Shared, now, update_else_get}
use barrel.Store.Etcd.Laws.{Swaps, committed, update_else_get-Swaps}
use barrel.Prelude.{ℕ, zero, suc, List, ◌∷◌, All}
use barrel.Store.Client.{op_put}
use barrel.Store.Etcd.Batch.{collect, batches, put_multi}
use barrel.Store.Etcd.Batch.Laws.{join, join-batches, IsFit, batches-IsFit}
use barrel.Types.{ok}
use barrel.Codecs.{
  IpInfoCodec, ip_info_codec, ip_info_key, encode_ip_info, decode_ip_info, encode_container_info,
  decode_container_info,
}
use barrel.Codecs.RoundTrip.{decode-encode_ip_info, decode-encode_container_info}
use barrel.Codecs.Lawful.{ip_info_laws}
use barrel.Tests.Memory.{memory, memory_laws, holding, info9, container9}

abbrev pub cluster : Shared View
cluster = record { store = holding; others = [] }

abbrev pub second : IpInfoCodec
second = record { ip_info = info9; version = 2 }

update_else_get-Swaps_example :
    let (r, w') = update_else_get memory second cluster in
    Swaps memory memory_laws ip_info_laws second
      (encode_ip_info info9)
      (now cluster)
      (committed memory memory_laws ip_info_laws second (encode_ip_info info9) (now cluster))
      r
      w'.store
update_else_get-Swaps_example =
    update_else_get-Swaps memory memory_laws ip_info_laws second (encode_ip_info info9) cluster refl

decode-encode_ip_info_example : decode_ip_info (encode_ip_info info9) info9 ≡ ok info9
decode-encode_ip_info_example = decode-encode_ip_info info9 info9

decode-encode_container_info_example :
    decode_container_info (encode_container_info container9) container9 ≡ ok container9
decode-encode_container_info_example = decode-encode_container_info container9 container9

abbrev numbers : ℕ → List ℕ
numbers zero = []
numbers (suc n) = n ∷ numbers n

join-batches_example : join (batches (numbers 130)) ≡ numbers 130
join-batches_example = join-batches (numbers 130)

batches-IsFit_example : All IsFit (batches (numbers 130))
batches-IsFit_example = batches-IsFit (numbers 130)

-- Two records with one key make one operation, with the later document.
one_operation :
    put_multi (second ∷ second ∷ [])
    ≡ ok ((op_put (ip_info_key second) (encode_ip_info info9) ∷ []) ∷ [])
unfolding put_multi collect batches ip_info_key encode_ip_info
one_operation = refl
