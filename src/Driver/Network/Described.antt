-- ===== src/Driver/Network/Described.antt =====
-- The endpoint that a request of docker describes, part by part.
use barrel.Prelude.{
  String, true, List, [], ◌∷◌, ◌++◌, ◌≡◌, refl, subst, ◌⊎◌, inl, inr, Bool-cases, string_eq, ◌==◌,
  concat,
}
use barrel.Types.{Result, ok, err, ◌>>=◌}
use barrel.Driver.Cluster.{Cluster, WorkloadEndpoint}
use barrel.Driver.Network.{
  generate_endpoint_name, ipv4_network, ipv6_network, mac_text, new_endpoint, read_endpoint,
}
use barrel.Driver.Requests.{
  Settings, Readers, CreateEndpointRequest, veth_name, host_network, own_network as whole_network,
}

module _ (driver : Settings) (readers : Readers) {H : Type 0} (cluster : Cluster H) where
  -- The networks of an IPv4 address, alone in its own, and of an IPv6 address, in that of its text.
  abbrev pub OwnNetwork : String → List String → Type 0
  OwnNetwork address ns =
      (((address == "") ≡ true) × (ns ≡ []))
      ⊎ ((ip : String) × (net : String) × (readers.parse_cidr address ≡ ok (ip, net))
          × (ns ≡ concat (ip ∷ "/32" ∷ []) ∷ []))

  abbrev pub TextNetwork : String → List String → Type 0
  TextNetwork address ns =
      (((address == "") ≡ true) × (ns ≡ []))
      ⊎ ((ip : String) × (net : String) × (readers.parse_cidr address ≡ ok (ip, net))
          × (ns ≡ net ∷ []))

  abbrev pub MacOf : String → String → Type 0
  MacOf address mac = (((address == "") ≡ true) × (mac ≡ "")) ⊎ (readers.parse_mac address ≡ ok mac)

  pub record Describes (r : CreateEndpointRequest) (e : WorkloadEndpoint) : Type 0 where
    pub v4 : List String
    pub v6 : List String
    pub of_address : OwnNetwork r.address v4
    pub of_address_ipv6 : TextNetwork r.address_ipv6 v6
    pub networks : e.ip_networks ≡ v4 ++ v6
    pub of_mac : MacOf r.mac_address e.mac
    pub named :
        readers.endpoint_name driver.hostname driver.orchestrator_id r.endpoint_id ≡ ok e.name
    pub of_id : (e.endpoint ≡ r.endpoint_id) × (e.interface_name ≡ veth_name r.endpoint_id)
    pub of_driver : (e.node ≡ driver.hostname) × (e.namespace ≡ driver.namespace)

  own_network :
      (address : String) (ns : List String)
      → ipv4_network driver readers cluster address ≡ ok ns
      → OwnNetwork address ns
  own_network address ns e = elim (Bool-cases (address == "")) [
    | inl blank ↦ inl (blank, cc (rw blank at e))
    | inr named ↦ inr (read (readers.parse_cidr address) refl (rw named at e))
  ]
    where
      read :
          (o : Result (String × String))
          → readers.parse_cidr address ≡ o
          → host_network o ≡ ok ns
          → (ip : String) × (net : String) × (readers.parse_cidr address ≡ ok (ip, net))
            × (ns ≡ concat (ip ∷ "/32" ∷ []) ∷ [])
      read (ok (ip, net)) p h = (ip, net, p, cc)
      read (err d) p h = absurd (cc)

  text_network :
      (address : String) (ns : List String)
      → ipv6_network driver readers cluster address ≡ ok ns
      → TextNetwork address ns
  text_network address ns e = elim (Bool-cases (address == "")) [
    | inl blank ↦ inl (blank, cc (rw blank at e))
    | inr named ↦ inr (read (readers.parse_cidr address) refl (rw named at e))
  ]
    where
      read :
          (o : Result (String × String))
          → readers.parse_cidr address ≡ o
          → whole_network o ≡ ok ns
          → (ip : String) × (net : String) × (readers.parse_cidr address ≡ ok (ip, net))
            × (ns ≡ net ∷ [])
      read (ok (ip, net)) p h = (ip, net, p, cc)
      read (err d) p h = absurd (cc)

  mac_of :
      (address mac : String) → mac_text driver readers cluster address ≡ ok mac → MacOf address mac
  mac_of address mac e = elim (Bool-cases (address == "")) [
    | inl blank ↦ inl (blank, cc (rw blank at e))
    | inr named ↦ inr (rw named at e)
  ]

  described :
      (r : CreateEndpointRequest) (e : WorkloadEndpoint) (a b : Result (List String))
      (n m : Result String)
      → ipv4_network driver readers cluster r.address ≡ a
      → ipv6_network driver readers cluster r.address_ipv6 ≡ b
      → generate_endpoint_name driver readers cluster r.endpoint_id ≡ n
      → mac_text driver readers cluster r.mac_address ≡ m
      → (a >>= λ v4. b >>= λ v6.
          n >>= λ name. m >>= λ mac. ok (new_endpoint driver readers cluster r (v4 ++ v6) name mac))
        ≡ ok e
      → Describes r e
  described r e (ok v4) (ok v6) (ok name) (ok mac) four six named is_mac h =
      subst (Describes r) (ok_same h) (record {
        v4 = v4;
        v6 = v6;
        of_address = own_network r.address v4 four;
        of_address_ipv6 = text_network r.address_ipv6 v6 six;
        networks = refl;
        of_mac = mac_of r.mac_address mac is_mac;
        named = named;
        of_id = (refl, refl);
        of_driver = (refl, refl);
      })
    where
      ok_same : {x y : WorkloadEndpoint} → ok x ≡ ok y → x ≡ y
      ok_same p = cc
  described r e (err d) b n m four six named is_mac h = absurd (cc)
  described r e (ok v4) (err d) n m four six named is_mac h = absurd (cc)
  described r e (ok v4) (ok v6) (err d) m four six named is_mac h = absurd (cc)
  described r e (ok v4) (ok v6) (ok name) (err d) four six named is_mac h = absurd (cc)

  pub read_endpoint-Describes :
      (r : CreateEndpointRequest) (e : WorkloadEndpoint)
      → read_endpoint driver readers cluster r ≡ ok e
      → Describes r e
  read_endpoint-Describes r e h = described r e _ _ _ _ refl refl refl refl h
