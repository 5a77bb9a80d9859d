-- ===== src/Proxy/Connect/Pending.antt =====
-- An address that networkConnectHandler has reserved, until the daemon has answered.
use barrel.Prelude.{
  String, true, false, Option, none, some, ◌≡◌, refl, inl, inr, Bool-cases, nat_eq, string_eq, ◌==◌,
}
use barrel.Types.{Result, ok, err, Error, Ip, IpAddress}
use barrel.Vessel.World.{Clients, ClientLaws, Ends, returns, fails, catch-Ends}
use barrel.Vessel.FixedPool.{unalloc_fixed_ip}
use barrel.Vessel.FixedPool.Alloc.{Recorded, NotRecorded}
use barrel.Proxy.Daemon.{Daemon, Site, Request, Response, on_daemon}
use barrel.Proxy.Daemon.Calm.{Calm}
use barrel.Proxy.Connect.{
  Answer, forwarded, release_reserved, write_server_response, release_and_fail, send,
}

module _ (net : Clients) (laws : ClientLaws net) {D : Type 0} (docker : Daemon D) where
  abbrev pub S : Type 0
  S = Site net D

  abbrev pub C : S → S → Type 0
  C = Calm net laws

  -- An address was free and has been reserved with a record, and nothing else has been done.
  abbrev pub Reserved : S → IpAddress → S → Type 0
  Reserved w a x = (u : S) × C w u × Recorded net laws u.vessel a x.vessel

  -- The vessel after UnallocFixedIP of a reserved address.
  abbrev pub Released : S → S → Type 0
  Released w w' =
      (a : IpAddress) × (x : S) × Reserved w a x
      × (w'.vessel ≡ (unalloc_fixed_ip net a.ip false x.vessel).1)

  -- An address stays reserved exactly where the daemon's answer is 200.
  pub data Connected (w : S) : Answer → S → Type 0 where
    unreserved : {answer : Answer} {w' : S} → C w w' → Connected w answer w'
    reserved :
        {resp : Response} {w' : S}
        → (a : IpAddress) (x : S) → (resp.status == 200) ≡ true
        → Reserved w a x
        → w'.vessel ≡ x.vessel
        → Connected w (forwarded resp) w'
    released :
        {resp : Response} {w' : S}
        → (resp.status == 200) ≡ false
        → Released w w'
        → Connected w (forwarded resp) w'

  -- After an error no address is reserved: none was asked for, the allocator had none, or it was
  -- given back.
  pub data NotConnected (w : S) (e : Error) (w' : S) : Type 0 where
    unreserved : C w w' → NotConnected w e w'
    not_reserved : (u : S) → C w u → NotRecorded net laws u.vessel e w'.vessel → NotConnected w e w'
    released : Released w w' → NotConnected w e w'

  -- What stands reserved for a request that is still to be sent.
  pub data Pending (w : S) : Option Ip → S → Type 0 where
    nothing : {x : S} → C w x → Pending w none x
    pending : {x : S} → (a : IpAddress) → Reserved w a x → Pending w (some a.ip) x

  release_reserved_lem :
      (w x : S) (a : IpAddress)
      → Reserved w a x
      → Released w (release_reserved net docker (some a.ip) x).1
  release_reserved_lem w x a h = (a, x, h, refl)

  pub given_up :
      {A : Type 0} {Q : A → S → Type 0} {r : Option Ip} (w x : S) (e : Error)
      → Pending w r x
      → Ends Q (NotConnected w) (release_and_fail net docker r e x)
  given_up w x e (nothing q) = fails (unreserved q)
  given_up w x e (pending a h) = fails (released (release_reserved_lem w x a h))

  answered :
      {r : Option Ip} (w x : S) (resp : Response)
      → Pending w r x
      → Ends (Connected w) (NotConnected w) (write_server_response net docker r resp x)
  unfolding write_server_response
  answered w x resp (nothing q) = elim (Bool-cases (resp.status == 200)) [
    | inl fine ↦ rw fine (returns (unreserved q))
    | inr bad ↦ rw bad (returns (unreserved q))
  ]
  answered w x resp (pending a h) = elim (Bool-cases (resp.status == 200)) [
    | inl fine ↦ rw fine (returns (reserved a x fine h refl))
    | inr bad ↦ rw bad (returns (released bad (release_reserved_lem w x a h)))
  ]

  elsewhere :
      {r : Option Ip} (w x : S) (d : D) → Pending w r x → Pending w r (record x { daemon = d })
  elsewhere w x d (nothing q) = nothing q
  elsewhere w x d (pending a h) = pending a h

  asked :
      {A : Type 0} {r : Option Ip} (w x : S) (o : Result A) (d : D)
      → Pending w r x
      → Ends (λ _ u. Pending w r u) (λ _ u. Pending w r u) (o, record x { daemon = d })
  asked w x (ok a) d p = returns (elsewhere w x d p)
  asked w x (err e) d p = fails (elsewhere w x d p)

  pub sent :
      (r : Option Ip) (text : String) (req : Request) (w x : S)
      → Pending w r x
      → Ends (Connected w) (NotConnected w) (send net docker req (r, text) x)
  sent r text req w x p =
      let q = record req { body = ok text } in
      let t = docker.request q x.daemon in
      catch-Ends (on_daemon (docker.request q)) (write_server_response net docker r)
        (release_and_fail net docker r) x (asked w x t.0 t.1 p) (λ resp u h. answered w u resp h)
        (λ e u h. given_up w u e h)
