-- ===== src/Codecs/Lawful.antt =====
-- Both codecs keep the laws that the store relies on.
use barrel.Prelude.{ℕ, String, Option, none, some, List, ◌≡◌, refl, subst}
use barrel.Prelude.Int.{pos, negsuc}
use barrel.Types.{
  Result, ok, err, Error, IsForeign, ◌>>=◌, Ip, Container, IpAttributes, IpInfo, ContainerInfo,
}
use barrel.Json.{Any, null, bool, int, float, string, array, object, Items, nil, cons, Fields}
use barrel.Json.Object.{get}
use barrel.Store.Codec.{CodecLaws}
use barrel.Codecs.Document.{decode_string, decode_uint, decode_items, decode_list, decode_object}
use barrel.Codecs.{
  IpInfoCodec, ContainerInfoCodec, ip_info_codec, container_info_codec, decode_ip, decode_container,
  decode_attrs, decode_ip_info, decode_network, decode_container_info, zero_ip, zero_container,
  attrs_or_new, decode_ip_member, ip_info_key, container_info_key,
}

-- The result is a value or an error of encoding/json.
data Reads {A : Type 0} : Result A → Type 0 where
  done : (a : A) → Reads (ok a)
  failed : (e : Error) → IsForeign e → Reads (err e)

bind-Reads :
    {A B : Type 0} {m : Result A} {f : A → Result B}
    → Reads m
    → ((a : A) → Reads (f a))
    → Reads (m >>= f)
bind-Reads (done a) g = g a
bind-Reads (failed e h) g = failed e h

string-Reads : (x : Option Any) (old : String) → Reads (decode_string x old)
string-Reads none old = done _
string-Reads (some null) old = done _
string-Reads (some (string s)) old = done _
string-Reads (some (bool b)) old = failed _ tt
string-Reads (some (int i)) old = failed _ tt
string-Reads (some (float f)) old = failed _ tt
string-Reads (some (array xs)) old = failed _ tt
string-Reads (some (object fs)) old = failed _ tt

uint-Reads : (x : Option Any) (old : ℕ) → Reads (decode_uint x old)
uint-Reads none old = done _
uint-Reads (some null) old = done _
uint-Reads (some (int (pos n))) old = done _
uint-Reads (some (int (negsuc n))) old = failed _ tt
uint-Reads (some (string s)) old = failed _ tt
uint-Reads (some (bool b)) old = failed _ tt
uint-Reads (some (float f)) old = failed _ tt
uint-Reads (some (array xs)) old = failed _ tt
uint-Reads (some (object fs)) old = failed _ tt

module _ {A : Type 0} where
  items-Reads :
      (f : Any → Result A) (xs : Items) → ((x : Any) → Reads (f x)) → Reads (decode_items f xs)
  items-Reads f nil h = done _
  items-Reads f (cons x xs) h =
      bind-Reads (h x) (λ a. bind-Reads (items-Reads f xs h) (λ rest. done _))

  list-Reads :
      (f : Any → Result A) (x : Option Any) (old : List A)
      → ((y : Any) → Reads (f y))
      → Reads (decode_list f x old)
  list-Reads f none old h = done _
  list-Reads f (some null) old h = done _
  list-Reads f (some (array xs)) old h = items-Reads f xs h
  list-Reads f (some (string s)) old h = failed _ tt
  list-Reads f (some (bool b)) old h = failed _ tt
  list-Reads f (some (int i)) old h = failed _ tt
  list-Reads f (some (float v)) old h = failed _ tt
  list-Reads f (some (object fs)) old h = failed _ tt

  object-Reads :
      (f : Fields → A → Result A) (x : Any) (old : A)
      → ((fs : Fields) → Reads (f fs old))
      → Reads (decode_object f x old)
  object-Reads f null old h = done _
  object-Reads f (object fs) old h = h fs
  object-Reads f (string s) old h = failed _ tt
  object-Reads f (bool b) old h = failed _ tt
  object-Reads f (int i) old h = failed _ tt
  object-Reads f (float v) old h = failed _ tt
  object-Reads f (array xs) old h = failed _ tt

ip-Reads : (x : Any) (old : Ip) → Reads (decode_ip x old)
unfolding decode_ip
ip-Reads x old = object-Reads _ x old λ fs. search (bind-Reads, done, string-Reads) depth 8

container-Reads : (x : Any) (old : Container) → Reads (decode_container x old)
unfolding decode_container
container-Reads x old = object-Reads _ x old λ fs. search (bind-Reads, done, string-Reads) depth 8

attrs-Reads : (x : Option Any) (old : Option IpAttributes) → Reads (decode_attrs x old)
unfolding decode_attrs
attrs-Reads none old = done _
attrs-Reads (some null) old = done _
attrs-Reads (some (bool b)) old = failed _ tt
attrs-Reads (some (int i)) old = failed _ tt
attrs-Reads (some (float v)) old = failed _ tt
attrs-Reads (some (string s)) old = failed _ tt
attrs-Reads (some (array xs)) old = failed _ tt
attrs-Reads (some (object fs)) old =
    let bs =
      list-Reads (λ y. decode_container y zero_container) (get fs "Borrowers")
        (attrs_or_new old).borrowers (λ y. container-Reads y zero_container) in
    search (bind-Reads, done, bs) depth 8

ip_info-Reads : (x : Any) (old : IpInfo) → Reads (decode_ip_info x old)
unfolding decode_ip_info
ip_info-Reads x old =
    object-Reads _ x old
      λ fs. search (bind-Reads, done, string-Reads, uint-Reads, attrs-Reads) depth 16

ip_member-Reads : (x : Option Any) (old : Ip) → Reads (decode_ip_member x old)
ip_member-Reads none old = done _
ip_member-Reads (some x) old = ip-Reads x old

network-Reads : (x : Any) → Reads (decode_network x)
unfolding decode_network
network-Reads x =
    object-Reads _ x _ λ fs. search (bind-Reads, done, string-Reads, ip_member-Reads) depth 12

container_info-Reads : (x : Any) (old : ContainerInfo) → Reads (decode_container_info x old)
unfolding decode_container_info
container_info-Reads x old = object-Reads _ x old λ fs.
    let ns = list-Reads decode_network (get fs "Networks") old.networks network-Reads in
    let as' =
      list-Reads (λ y. decode_ip y zero_ip) (get fs "Addresses") old.addresses
        (λ y. ip-Reads y zero_ip) in
    search (bind-Reads, done, string-Reads, ns, as') depth 16

err_injective : {A : Type 0} (d e : Error) → err d ≡ (let r : Result A = err e in r) → d ≡ e
err_injective d e p = cc

IsForeign-of : {A : Type 0} {r : Result A} {e : Error} → Reads r → r ≡ err e → IsForeign e
IsForeign-of (done a) same = absurd (cc)
IsForeign-of {e = e} (failed f h) same = subst IsForeign (err_injective f e same) h

pub ip_info_laws : CodecLaws IpInfoCodec ip_info_codec
unfolding ip_info_key
ip_info_laws = record {
  version-set_version = λ n c. refl;
  key-set_version = λ n c. refl;
  encode-set_version = λ n c. refl;
  decode_foreign = λ x c e. IsForeign-of (
      bind-Reads {f = λ i. ok (record c { ip_info = i })} (ip_info-Reads x c.ip_info)
        (λ i. done _));
}

pub container_info_laws : CodecLaws ContainerInfoCodec container_info_codec
unfolding container_info_key
container_info_laws = record {
  version-set_version = λ n c. refl;
  key-set_version = λ n c. refl;
  encode-set_version = λ n c. refl;
  decode_foreign = λ x c e. IsForeign-of (
      bind-Reads {f = λ i. ok (record c { info = i })} (container_info-Reads x c.info)
        (λ i. done _));
}
