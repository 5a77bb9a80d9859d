-- ===== src/Codecs/RoundTrip.antt =====
-- What `Decode` of both codecs makes of what `Encode` wrote.
use barrel.Prelude.{Option, none, some, List, [], ◌∷◌, ◌≡◌, refl, ap}
use barrel.Types.{Result, ok, ◌>>=◌, Ip, Container, IpAttributes, IpInfo, Network, ContainerInfo}
use barrel.Json.{Any}
use barrel.Codecs.Document.{encode_items, encode_list, decode_items, decode_list}
use barrel.Codecs.{
  encode_ip, decode_ip, encode_container, decode_container, encode_attrs, decode_attrs,
  encode_ip_info, decode_ip_info, encode_network, decode_network, encode_container_info,
  decode_container_info, zero_ip, zero_container, attrs_or_new,
}

module _ {A : Type 0} (enc : A → Any) (dec : Any → Result A)
    (back : (a : A) → dec (enc a) ≡ ok a) where
  decode-encode_items : (xs : List A) → decode_items dec (encode_items enc xs) ≡ ok xs
  decode-encode_items [] = refl
  decode-encode_items (x ∷ xs) = rw (back x, decode-encode_items xs)

  decode-encode_list : (xs old : List A) → decode_list dec (some (encode_list enc xs)) old ≡ ok xs
  decode-encode_list [] old = refl
  decode-encode_list (x ∷ xs) old = decode-encode_items (x ∷ xs)

decode-encode_ip : (ip old : Ip) → decode_ip (encode_ip ip) old ≡ ok ip
unfolding decode_ip encode_ip
decode-encode_ip ip old = refl

decode-encode_container : (c old : Container) → decode_container (encode_container c) old ≡ ok c
unfolding decode_container encode_container
decode-encode_container c old = refl

decode-encode_attrs :
    (a old : Option IpAttributes) → decode_attrs (some (encode_attrs a)) old ≡ ok a
unfolding decode_attrs encode_attrs
decode-encode_attrs none old = refl
decode-encode_attrs (some a) old =
    ap (λ r. (r >>= λ bs. ok (record { borrowers = bs })) >>= λ b. ok (some b))
      (decode-encode_list encode_container (λ y. decode_container y zero_container)
        (λ c. decode-encode_container c zero_container) a.borrowers (attrs_or_new old).borrowers)

-- The document of an IP record is read back as that record, whatever the codec held before.
pub decode-encode_ip_info : (i old : IpInfo) → decode_ip_info (encode_ip_info i) old ≡ ok i
unfolding decode_ip_info encode_ip_info
decode-encode_ip_info i old = rw (decode-encode_attrs i.attrs old.attrs)

decode-encode_network : (n : Network) → decode_network (encode_network n) ≡ ok n
unfolding decode_network encode_network
decode-encode_network n = refl

-- The document of a container record is read back as that record, whatever the codec held before.
pub decode-encode_container_info :
    (i old : ContainerInfo) → decode_container_info (encode_container_info i) old ≡ ok i
unfolding decode_container_info encode_container_info
decode-encode_container_info i old = rw (
  decode-encode_list encode_network decode_network decode-encode_network i.networks old.networks,
  decode-encode_list encode_ip (λ y. decode_ip y zero_ip) (λ a. decode-encode_ip a zero_ip)
      i.addresses old.addresses,
)
