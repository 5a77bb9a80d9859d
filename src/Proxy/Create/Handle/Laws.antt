-- ===== src/Proxy/Create/Handle/Laws.antt =====
-- What becomes of the addresses that containerCreateHandler reserves.
use barrel.Prelude.{String, Bool, true, false, List, ◌≡◌, nat_eq, string_eq, ◌==◌}
use barrel.Types.{Result, ok, err, Error, Ip}
use barrel.Json.{Fields}
use barrel.Vessel.World.{Clients, ClientLaws, WorldOf, M, Ends}
use barrel.Vessel.Helper.{unalloc_all, init_container_info_record}
use barrel.Proxy.Daemon.{Daemon, Site, Response}
use barrel.Proxy.Connect.{Answer, passed_on, forwarded}
use barrel.Proxy.Create.{adapt_request_for_cni}
use barrel.Proxy.Create.Handle.{id_in}
use barrel.Proxy.Create.Handle.Reserves.{Reserves, Stuck}

module _ (net : Clients) (laws : ClientLaws net) {D : Type 0} (docker : Daemon D)
    (driver_name hostname : String) where
  module _ (read_id : String → Result String) (is_create : String → Bool) (enabled : Bool) where
    -- The request as it is rewritten for CNI, before any address is reserved.
    abbrev pub Adapts : Site net D → Site net D → Type 0
    Adapts w u = (body : Fields) × (u.vessel ≡ (adapt_request_for_cni net enabled body w.vessel).1)

    -- The addresses that are reserved for a request after it has been rewritten.
    abbrev pub Reserved : Site net D → List Ip → Site net D → Type 0
    Reserved w ips x = (u : Site net D) × Adapts w u × Reserves net laws u ips x

    -- The container's record after its creation: where the answer holds an identifier, `ips` are in it.
    pub data Kept (ips : List Ip) (resp : Response) (v v' : WorldOf net) : Type 0 where
      unreadable :
          (e : Error)
          → id_in net docker driver_name hostname read_id resp.body ≡ err e
          → v' ≡ v
          → Kept ips resp v v'
      unnamed :
          (id : String)
          → id_in net docker driver_name hostname read_id resp.body ≡ ok id
          → (id == "") ≡ true
          → v' ≡ v
          → Kept ips resp v v'
      in_record :
          (id : String)
          → id_in net docker driver_name hostname read_id resp.body ≡ ok id
          → (id == "") ≡ false
          → v' ≡ (init_container_info_record net (record { id = id; host_name = hostname }) ips v).1
          → Kept ips resp v v'

    -- A container that is created keeps its addresses, and where the answer holds an identifier they
    -- are in its record; for any other answer they are given back.
    pub data Created (w : Site net D) : Answer → Site net D → Type 0 where
      passed : Created w passed_on w
      created :
          {resp : Response} {w' : Site net D}
          → (ips : List Ip) (x : Site net D) → (resp.status == 201) ≡ true
          → Reserved w ips x
          → Kept ips resp x.vessel w'.vessel
          → Created w (forwarded resp) w'
      given_back :
          {resp : Response} {w' : Site net D}
          → (ips : List Ip) (x : Site net D) → (resp.status == 201) ≡ false
          → Reserved w ips x
          → w'.vessel ≡ (unalloc_all net ips x.vessel).1
          → Created w (forwarded resp) w'

    -- After an error of the reservation the addresses are given back; after a later error they stay
    -- reserved.
    pub data NotCreated (w : Site net D) (e : Error) (w' : Site net D) : Type 0 where
      unread : w' ≡ w → NotCreated w e w'
      unadapted : Adapts w w' → NotCreated w e w'
      unserved :
          (u : Site net D) (ips : List Ip) (x : Site net D)
          → Adapts w u
          → Stuck net laws u e ips x
          → w'.vessel ≡ (unalloc_all net ips x.vessel).1
          → NotCreated w e w'
      left :
          (ips : List Ip) (x : Site net D)
          → Reserved w ips x
          → w'.vessel ≡ x.vessel
          → NotCreated w e w'

    abbrev Creates : Site net D → M (Site net D) Answer → Site net D → Type 0
    Creates w m u = Ends (Created w) (NotCreated w) (m u)
