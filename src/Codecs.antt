-- ===== src/Codecs.antt =====
-- vessel/codecs/codecs.go: the records of etcd, their keys and their documents.
mod Document
pub mod RoundTrip
pub mod Keys
pub mod Lawful
use barrel.Prelude.{
  ℕ, String, Option, none, some, List, [], ◌∷◌, ◌==◌, string_eq, if◌then◌else◌, concat,
}
use barrel.Types.{
  Result, ok, err, other, ◌>>=◌, Ip, Container, IpAttributes, IpInfo, Network, ContainerInfo,
}
use barrel.Json.{Any, null, int, string, object, Fields, end, field}
use barrel.Json.Object.{get}
use barrel.Store.Codec.{Codec}
use barrel.Prelude.Int.{pos}
use Document.{encode_list, decode_string, decode_uint, decode_list, decode_object}

pub record IpInfoCodec : Type 0 where
  pub ip_info : IpInfo
  pub version : ℕ

pub record ContainerInfoCodec : Type 0 where
  pub info : ContainerInfo
  pub version : ℕ

-- `IPInfoCodec.Key`
unfoldable pub ip_info_key : IpInfoCodec → String
ip_info_key c =
    if c.ip_info.address == ""
    then ""
    else if c.ip_info.pool_id == ""
    then concat ("/barrel/addresses/" ∷ c.ip_info.address ∷ [])
    else concat ("/barrel/pools/" ∷ c.ip_info.pool_id ∷ "/addresses/" ∷ c.ip_info.address ∷ [])

-- `ContainerInfoCodec.Key`
unfoldable pub container_info_key : ContainerInfoCodec → String
container_info_key c =
    if c.info.id == ""
    then ""
    else if c.info.host_name == ""
    then ""
    else concat ("/barrel/hosts/" ∷ c.info.host_name ∷ "/containers/" ∷ c.info.id ∷ [])

abbrev zero_ip : Ip
zero_ip = record { pool_id = ""; address = "" }

abbrev zero_container : Container
zero_container = record { id = ""; host_name = "" }

unfoldable pub encode_ip : Ip → Any
encode_ip ip = object (field "PoolID" (string ip.pool_id) (field "Address" (string ip.address) end))

unfoldable pub decode_ip : Any → Ip → Result Ip
unfolding get
decode_ip = decode_object λ fs old. do
  pool_id ← decode_string (get fs "PoolID") old.pool_id
  address ← decode_string (get fs "Address") old.address
  ok (record { pool_id = pool_id; address = address })

unfoldable pub encode_container : Container → Any
encode_container c = object (field "ID" (string c.id) (field "HostName" (string c.host_name) end))

unfoldable pub decode_container : Any → Container → Result Container
unfolding get
decode_container = decode_object λ fs old. do
  id ← decode_string (get fs "ID") old.id
  host_name ← decode_string (get fs "HostName") old.host_name
  ok (record { id = id; host_name = host_name })

unfoldable pub encode_attrs : Option IpAttributes → Any
unfolding encode_container
encode_attrs none = null
encode_attrs (some a) = object (field "Borrowers" (encode_list encode_container a.borrowers) end)

abbrev some_attrs : Result IpAttributes → Result (Option IpAttributes)
some_attrs r = r >>= λ a. ok (some a)

abbrev attrs_or_new : Option IpAttributes → IpAttributes
attrs_or_new none = record { borrowers = [] }
attrs_or_new (some a) = a

-- A pointer is set to nil by a null, and is made where there is none.
unfoldable pub decode_attrs : Option Any → Option IpAttributes → Result (Option IpAttributes)
unfolding decode_container get
decode_attrs none old = ok old
decode_attrs (some null) old = ok none
decode_attrs (some x) old = some_attrs (
    decode_object
      (λ fs a. do
        borrowers ←
            decode_list (λ y. decode_container y zero_container) (get fs "Borrowers") a.borrowers
        ok (record { borrowers = borrowers }))
      x (attrs_or_new old))

-- `IPInfoCodec.Encode`
unfoldable pub encode_ip_info : IpInfo → Any
unfolding encode_attrs
encode_ip_info i = object (
    field "ContainerID" (string i.container_id) (
      field "PoolID" (string i.pool_id) (
        field "Address" (string i.address)
          (field "Status" (int (pos i.status)) (field "Attrs" (encode_attrs i.attrs) end)))))

-- `IPInfoCodec.Decode`
unfoldable pub decode_ip_info : Any → IpInfo → Result IpInfo
unfolding decode_attrs get
decode_ip_info = decode_object λ fs old. do
  container_id ← decode_string (get fs "ContainerID") old.container_id
  pool_id ← decode_string (get fs "PoolID") old.pool_id
  address ← decode_string (get fs "Address") old.address
  status ← decode_uint (get fs "Status") old.status
  attrs ← decode_attrs (get fs "Attrs") old.attrs
  ok (record {
    container_id = container_id;
    pool_id = pool_id;
    address = address;
    status = status;
    attrs = attrs;
  })

unfoldable pub encode_network : Network → Any
unfolding encode_ip
encode_network n = object (
    field "NetworkID" (string n.network_id)
      (field "EndpointID" (string n.endpoint_id) (field "Address" (encode_ip n.address) end)))

abbrev decode_ip_member : Option Any → Ip → Result Ip
decode_ip_member none old = ok old
decode_ip_member (some x) old = decode_ip x old

unfoldable pub decode_network : Any → Result Network
unfolding decode_ip get
decode_network x =
    decode_object
      (λ fs old. do
        network_id ← decode_string (get fs "NetworkID") old.network_id
        endpoint_id ← decode_string (get fs "EndpointID") old.endpoint_id
        address ← decode_ip_member (get fs "Address") old.address
        ok (record { network_id = network_id; endpoint_id = endpoint_id; address = address }))
      x (record { network_id = ""; endpoint_id = ""; address = zero_ip })

-- `ContainerInfoCodec.Encode`: the fields of the embedded `Container` stand among the others.
unfoldable pub encode_container_info : ContainerInfo → Any
unfolding encode_network encode_ip
encode_container_info i = object (
    field "ID" (string i.id) (
      field "HostName" (string i.host_name) (
        field "Networks" (encode_list encode_network i.networks)
          (field "Addresses" (encode_list encode_ip i.addresses) end))))

-- `ContainerInfoCodec.Decode`
unfoldable pub decode_container_info : Any → ContainerInfo → Result ContainerInfo
unfolding decode_network decode_ip get
decode_container_info = decode_object λ fs old. do
  id ← decode_string (get fs "ID") old.id
  host_name ← decode_string (get fs "HostName") old.host_name
  networks ← decode_list decode_network (get fs "Networks") old.networks
  addresses ← decode_list (λ y. decode_ip y zero_ip) (get fs "Addresses") old.addresses
  ok (record {
    container = record { id = id; host_name = host_name };
    networks = networks;
    addresses = addresses;
  })

instance abbrev pub ip_info_codec : Codec IpInfoCodec
ip_info_codec = record {
  key = ip_info_key;
  encode = λ c. ok (encode_ip_info c.ip_info);
  decode = λ x c. decode_ip_info x c.ip_info >>= λ i. ok (record c { ip_info = i });
  version = λ c. c.version;
  set_version = λ n c. record c { version = n };
}

instance abbrev pub container_info_codec : Codec ContainerInfoCodec
container_info_codec = record {
  key = container_info_key;
  encode = λ c. ok (encode_container_info c.info);
  decode = λ x c. decode_container_info x c.info >>= λ i. ok (record c { info = i });
  version = λ c. c.version;
  set_version = λ n c. record c { version = n };
}
