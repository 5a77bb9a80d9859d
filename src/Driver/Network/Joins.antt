-- ===== src/Driver/Network/Joins.antt =====
-- What `Join` of driver/calico/network.go leaves on the host and in the datastore.
use barrel.Prelude.{String, true, Option, none, some, ◌≡◌, refl, inl, inr, ◌∙◌, ap, sym}
use barrel.Types.{Result, ok, err, Error}
use barrel.Method.{M, Ends, returns, fails, >>=-Ends, >>-Ends, Ends-own, ◌>>=◌, ◌>>◌}
use barrel.Driver.Cluster.{
  Cluster, ClusterLaws, WorkloadEndpoint, View, with_endpoint, with_link, Perhaps,
}
use barrel.Driver.Network.{generate_endpoint_name, joined, join, link_routes}
use barrel.Driver.Requests.{Settings, Readers, JoinResponse, veth_name, temp_name, result}

src_name_kept :
    (driver : Settings) (readers : Readers) {H : Type 0} (cluster : Cluster H) (o : Option String)
    (r : JoinResponse)
    → (link_routes driver readers cluster o r).src_name ≡ r.src_name
src_name_kept driver readers cluster none r = refl
src_name_kept driver readers cluster (some link) r = refl

module _ (driver : Settings) (readers : Readers) {H : Type 0} (cluster : Cluster H)
    (laws : ClusterLaws cluster) (id : String) where
  open laws use {view}

  abbrev linked : View → View
  linked v = with_link (veth_name id) true v

  -- The address of the link's other end, which is asked once the link stands.
  abbrev pub Addressed : H → String → Type 0
  Addressed h mac =
      (u : H) × (x : H) × (view u ≡ linked (view h))
      × (cluster.link_mac (temp_name id) u ≡ (ok mac, x))

  -- The host has the link, and the endpoint of the container the address of its other end.
  pub data Joined (h : H) (resp : JoinResponse) (h' : H) : Type 0 where
    joins :
        (name mac : String) (wep : WorkloadEndpoint)
        → generate_endpoint_name driver readers cluster id ≡ ok name
        → (view h).endpoints driver.namespace name ≡ some wep
        → Addressed h mac
        → view h' ≡ with_endpoint (record wep { mac = mac }) (linked (view h))
        → resp.src_name ≡ temp_name id
        → Joined h resp h'

  -- The link cannot be made; or it is left behind, and the endpoint is as it was, or has the address
  -- where the call that writes it failed.
  pub data NotJoined (h : H) (d : Error) (h' : H) : Type 0 where
    unlinked : cluster.create_veth (veth_name id) (temp_name id) h ≡ (err d, h') → NotJoined h d h'
    link_left : view h' ≡ linked (view h) → NotJoined h d h'
    link_left_updated :
        (name mac : String) (wep : WorkloadEndpoint)
        → (view h).endpoints driver.namespace name ≡ some wep
        → Addressed h mac
        → view h' ≡ with_endpoint (record wep { mac = mac }) (linked (view h))
        → NotJoined h d h'

  module _ (h : H) where
    abbrev Joins : M H JoinResponse → H → Type 0
    Joins m u = Ends (Joined h) (NotJoined h) (m u)

    updated :
        (name mac : String) (wep : WorkloadEndpoint) (u : H)
        → generate_endpoint_name driver readers cluster id ≡ ok name
        → (view h).endpoints driver.namespace name ≡ some wep
        → Addressed h mac
        → view u ≡ linked (view h)
        → Joins
            (cluster.update_endpoint (record wep { mac = mac }) >> joined driver readers cluster id)
            u
    updated name mac wep u named there known s =
        >>-Ends (cluster.update_endpoint (record wep { mac = mac }))
          (joined driver readers cluster id) u
          (laws.update_endpoint_Ends (record wep { mac = mac }) u)
          (λ x e. returns (
            joins name mac wep named there known
              (e ∙ ap (with_endpoint (record wep { mac = mac })) s)
              (src_name_kept driver readers cluster (cluster.link_local (veth_name id) x) _)))
          (λ d x (f, p). failed x p)
      where
        failed :
            (x : H) {d : Error}
            → Perhaps (view u) (with_endpoint (record wep { mac = mac }) (view u)) (view x)
            → NotJoined h d x
        failed x (inl e) = link_left (e ∙ s)
        failed x (inr e) =
            link_left_updated name mac wep there known
              (e ∙ ap (with_endpoint (record wep { mac = mac })) s)

    got :
        (o : Result String) (u : H)
        → generate_endpoint_name driver readers cluster id ≡ o
        → view u ≡ linked (view h)
        → Joins
            (result o >>= λ name. cluster.get_endpoint driver.namespace name >>= λ wep.
              cluster.link_mac (temp_name id) >>= λ mac.
              cluster.update_endpoint (record wep { mac = mac })
              >> joined driver readers cluster id)
            u
    got (err d) u named s = fails (link_left s)
    got (ok name) u named s =
        >>=-Ends (cluster.get_endpoint driver.namespace name) _ u
          (laws.get_endpoint_Ends driver.namespace name u)
          (λ wep x (there, e).
            >>=-Ends (cluster.link_mac (temp_name id))
              (λ mac.
                cluster.update_endpoint (record wep { mac = mac })
                >> joined driver readers cluster id)
              x (Ends-own (laws.link_mac_Ends (temp_name id) x))
              (λ mac y (e', o).
                updated name mac wep y named
                  (ap (λ (v : View). v.endpoints driver.namespace name) (sym s) ∙ there)
                  (x, y, e ∙ s, o) (e' ∙ e ∙ s))
              (λ d y ((f, e'), o). link_left (e' ∙ e ∙ s)))
          (λ d x (f, e). link_left (e ∙ s))

    -- On a cluster with the laws of `ClusterLaws`, `Join` succeeds only for an endpoint that the
    -- datastore has; then the link of the host has been made, of the endpoint only the MAC has
    -- changed, to the address that the link's other end had once the link stood, and the answer
    -- names that end. An error is that of making the link, or the link is left behind, and the
    -- datastore is as it was, but for the MAC where the call that writes it has failed.
    pub join-Ends : Joins (join driver readers cluster id) h
    unfolding join
    join-Ends =
        >>-Ends (cluster.create_veth (veth_name id) (temp_name id)) _ h
          (Ends-own (laws.create_veth_Ends (veth_name id) (temp_name id) h))
          (λ u (s, o). got (generate_endpoint_name driver readers cluster id) u refl s)
          (λ d u (q, o). unlinked o)
