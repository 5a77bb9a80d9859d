-- ===== src/Driver/Requests.antt =====
-- driver/calico/network.go: what its methods read of their requests, without the datastore.
use barrel.Prelude.{
  String, Bool, true, false, List, [], ◌∷◌, Option, none, some, string_eq, ◌==◌, if◌then◌else◌,
  concat,
}
use barrel.Prelude.Texts.{after_prefix, or_later, first_chars}
use barrel.Resources.{sort_strings}
use barrel.Types.{Result, ok, err, Error, other}
use barrel.Method.{M}
use barrel.Driver.Cluster.{PoolObject, WorkloadEndpoint}

-- The fields of `Driver` that these methods read, and the variable `IFPrefix`.
pub record Settings : Type 0 where
  pub container_name : String
  pub orchestrator_id : String
  pub namespace : String
  pub hostname : String
  pub dummy_ipv4_nexthop : String
  pub create_profiles : Bool
  pub interface_prefix : String

-- What package net and Calico's library make of texts: an address and a network of a CIDR, a MAC, and
-- the name of an endpoint from its node, its orchestrator and its identifier.
pub record Readers : Type 0 where
  pub parse_cidr : String → Result (String × String)
  pub parse_mac : String → Result String
  pub endpoint_name : String → String → String → Result String

-- The requests and answers of `go-plugins-helpers/network`, less the fields that are not read.
pub data OptionValue : Type 0 where
  flag : Bool → OptionValue
  flags : List String → OptionValue
  text : String → OptionValue

pub record Ipv4Data : Type 0 where
  pub gateway : String
  pub pool : String

pub record Ipv6Data : Type 0 where
  pub address_space : String
  pub pool : String

pub record CreateNetworkRequest : Type 0 where
  pub network_id : String
  pub options : List (String × OptionValue)
  pub ipv4_data : List Ipv4Data
  pub ipv6_data : List Ipv6Data

pub record CreateEndpointRequest : Type 0 where
  pub network_id : String
  pub endpoint_id : String
  pub address : String
  pub address_ipv6 : String
  pub mac_address : String

pub record JoinResponse : Type 0 where
  pub src_name : String
  pub dst_prefix : String
  pub gateway : String
  pub gateway_ipv6 : String
  pub static_routes : List String

abbrev network_annotation : String
network_annotation = "org.projectcalico.label.network.ID"

abbrev join_names : List String → String
join_names [] = ""
join_names (f ∷ []) = f
join_names (f ∷ g ∷ fs) = concat (f ∷ ", " ∷ join_names (g ∷ fs) ∷ [])

abbrev unsupported : String → String → Error
unsupported kind name =
    other (concat ("Calico driver does not support the " ∷ kind ∷ " " ∷ name ∷ "." ∷ []))

abbrev several : List String → String
several (f ∷ g ∷ fs) = "flags"
several fs = "flag"

-- The error of an option that is set.
abbrev refusal : String × OptionValue → Option Error
refusal (k, flag false) = none
refusal (k, flag true) =
    some
      (unsupported "flag" (concat ("--" ∷ or_later (after_prefix "com.docker.network." k) k ∷ [])))
refusal (k, flags []) = none
refusal (k, flags (f ∷ fs)) =
    some (unsupported (several (f ∷ fs)) (join_names (sort_strings (f ∷ fs))))
refusal (k, text v) =
    some (unsupported "flag" (if v == "" then k else concat (k ∷ " (" ∷ v ∷ ")" ∷ [])))

abbrev or_refusal : Option Error → Option Error → Option Error
or_refusal (some e) later = some e
or_refusal none later = later

-- The loop over the options, in the order of the list.
unfoldable pub refused_option : List (String × OptionValue) → Option Error
refused_option [] = none
refused_option (o ∷ os) =
    let later = refused_option os in
    if o.0 == "com.docker.network.enable_ipv6" then later else or_refusal (refusal o) later

abbrev more : String → Result (List String) → Result (List String)
more p (ok ps) = ok (p ∷ ps)
more p (err e) = err e

abbrev pub host_network : Result (String × String) → Result (List String)
host_network (ok (ip, net)) = ok (concat (ip ∷ "/32" ∷ []) ∷ [])
host_network (err e) = err e

abbrev pub own_network : Result (String × String) → Result (List String)
own_network (ok (ip, net)) = ok (net ∷ [])
own_network (err e) = err e

abbrev pub ipv4_pools : List Ipv4Data → Result (List String)
ipv4_pools [] = ok []
ipv4_pools (d ∷ ds) =
    if d.gateway == "0.0.0.0/0"
    then more d.pool (ipv4_pools ds)
    else err (other "Non-Calico IPAM driver is used. Note: Docker before 1.12.3 is unsupported")

abbrev pub ipv6_pools : List Ipv6Data → Result (List String)
ipv6_pools [] = ok []
ipv6_pools (d ∷ ds) =
    if d.address_space == "CalicoGlobalAddressSpace"
    then more d.pool (ipv6_pools ds)
    else err (other "Non-Calico IPAM driver is used")

-- The annotation that names a pool's network.
abbrev annotation : List (String × String) → Option String
annotation [] = none
annotation ((k, v) ∷ kvs) = if k == network_annotation then some v else annotation kvs

abbrev pub annotated : String → PoolObject → PoolObject
annotated network p = record p { annotations = (network_annotation, network) ∷ p.annotations }

abbrev names_network : String → Option String → Bool
names_network network none = false
names_network network (some n) = n == network

abbrev pub is_of : String → PoolObject → Bool
is_of network p = names_network network (annotation p.annotations)

abbrev pub find_pool : String → List PoolObject → Option PoolObject
find_pool network [] = none
find_pool network (p ∷ ps) = if is_of network p then some p else find_pool network ps

-- `request.EndpointID[:mathutils.MinInt(11, len(request.EndpointID))]`
abbrev id_prefix : String → String
id_prefix id = first_chars 11 id

abbrev pub veth_name : String → String
veth_name id = concat ("cali" ∷ id_prefix id ∷ [])

abbrev pub temp_name : String → String
temp_name id = concat ("temp" ∷ id_prefix id ∷ [])

abbrev pub of_option : {A : Type 0} → Option Error → A → Result A
of_option none a = ok a
of_option (some e) a = err e

abbrev pub result : {H A : Type 0} → Result A → M H A
result r h = (r, h)

-- With `createProfiles` the network's profile is set on the endpoint.
abbrev pub in_profile : Bool → WorkloadEndpoint → PoolObject → WorkloadEndpoint
in_profile profiles e p = if profiles then record e { profiles = p.name ∷ [] } else e
