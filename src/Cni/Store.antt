-- ===== src/Cni/Store.antt =====
-- cni/store/store.go: what a store of network endpoints offers, and what its calls promise.
use barrel.Prelude.{
  ℕ, zero, suc, String, Bool, true, false, Option, none, some, ◌≡◌, ◌≢◌, ◌⊎◌, string_eq, ◌==◌,
  if◌then◌else◌,
}
use barrel.Types.{Result, ok, err, Error, IsForeign}
use barrel.Method.{M, Ends, returns, fails}
use barrel.Cni.Endpoint.{FilePath, NetEndpoint, base}

pub record EndpointStore (S : Type 0) : Type 1 where
  pub Flock : Type 0
  pub get_net_endpoint_by_id : String → M S (Option NetEndpoint)
  pub get_net_endpoint_by_ip : String → M S (Option NetEndpoint)
  pub connect_net_endpoint : String → NetEndpoint → M S (Unit {0})
  pub disconnect_net_endpoint : String → NetEndpoint → M S (Unit {0})
  pub create_net_endpoint : String → String → String → M S NetEndpoint
  pub delete_net_endpoint : NetEndpoint → M S (Unit {0})
  pub occupy_net_endpoint : String → NetEndpoint → M S (Unit {0})
  pub free_net_endpoint : String → NetEndpoint → M S (Unit {0})
  pub get_net_endpoint_refcount : NetEndpoint → M S ℕ
  pub get_flock : String → M S Flock
  pub lock : Flock → M S (Unit {0})
  pub unlock : Flock → M S (Unit {0})

-- What a store keeps: the namespace that a container is linked to, and for an address its owner,
-- its tenant and whether its namespace is there.
pub record Book : Type 0 where
  pub linked : String → Option FilePath
  pub owner : String → Option String
  pub tenant : String → Option String
  pub present : String → Bool

abbrev pub update : {A : Type 0} → (String → A) → String → A → String → A
update f k v j = if k == j then v else f j

-- What a call may answer in a book, and which book it leaves.
abbrev pub Contract : Type 0 → Type 1
Contract A = Book → Result A → Book → Type 0

abbrev pub created : Book → String → String → Book
created b id ip = record b {
  owner = update b.owner ip (some id);
  present = update b.present ip true;
}

abbrev pub erased : Book → String → Book
erased b ip = record b {
  owner = update b.owner ip none;
  tenant = update b.tenant ip none;
  present = update b.present ip false;
}

-- The namespaces of the addresses.
module _ (at : String → FilePath) where
  abbrev pub LeadsNowhere : Book → String → Type 0
  LeadsNowhere b id = (ip : String) → b.linked id ≡ some (at ip) → b.present ip ≡ false

  abbrev pub IsEndpoint : NetEndpoint → Type 0
  IsEndpoint nep = nep.netns ≡ at nep.ipv4

  abbrev pub GetsById : String → Contract (Option NetEndpoint)
  GetsById id b (ok (some nep)) b' =
      (b' ≡ b)
      × (b.linked id ≡ some nep.netns)
      × (nep.ipv4 ≡ base nep.netns)
      × (b.owner nep.ipv4 ≡ some nep.owner)
  GetsById id b (ok none) b' = (b' ≡ b) × LeadsNowhere b id
  GetsById id b (err e) b' = IsForeign e × (b' ≡ b)

  abbrev pub GetsByIp : String → Contract (Option NetEndpoint)
  GetsByIp ip b (ok (some nep)) b' =
      (b' ≡ b) × (nep.ipv4 ≡ ip) × IsEndpoint nep × (b.owner ip ≡ some nep.owner)
  GetsByIp ip b (ok none) b' = (b' ≡ b) × (b.present ip ≡ false)
  GetsByIp ip b (err e) b' = IsForeign e × (b' ≡ b)

  -- A link that is there already is left as it is.
  abbrev pub Connects : String → NetEndpoint → Contract (Unit {0})
  Connects id nep b (ok _) b' =
      ((b.linked id ≡ none) × (b' ≡ record b { linked = update b.linked id (some nep.netns) }))
      ⊎ (((b.linked id ≢ none) ⊎ (b.present id ≡ true)) × (b' ≡ b))
  Connects id nep b (err e) b' = IsForeign e × (b' ≡ b)

  abbrev pub Disconnects : String → Contract (Unit {0})
  Disconnects id b (ok _) b' =
      (b' ≡ record b { linked = update b.linked id none; present = update b.present id false })
      ⊎ (LeadsNowhere b id × (b' ≡ b))
  Disconnects id b (err e) b' = IsForeign e × (b' ≡ b)

  -- An endpoint is made once; an attempt that fails touches no link and no tenant.
  abbrev pub Creates : String → String → Contract NetEndpoint
  Creates id ip b (ok nep) b' =
      (nep.ipv4 ≡ ip)
      × IsEndpoint nep
      × (nep.owner ≡ id)
      × (b.owner ip ≡ none)
      × (b' ≡ created b id ip)
  Creates id ip b (err e) b' = IsForeign e × (b'.linked ≡ b.linked) × (b'.tenant ≡ b.tenant)

-- No link has changed, and no tenant of another address.
abbrev pub Near : String → Book → Book → Type 0
Near ip b b' =
    (b'.linked ≡ b.linked) × ((j : String) → (ip == j) ≡ false → b'.tenant j ≡ b.tenant j)

abbrev pub Deletes : NetEndpoint → Contract (Unit {0})
Deletes nep b (ok _) b' = b' ≡ erased b nep.ipv4
Deletes nep b (err e) b' = IsForeign e × Near nep.ipv4 b b'

-- There is no second tenant. Where the write of the name fails, a nameless tenant is left.
abbrev pub Occupies : String → NetEndpoint → Contract (Unit {0})
Occupies id nep b (ok _) b' =
    (b.tenant nep.ipv4 ≡ none) × (b' ≡ record b { tenant = update b.tenant nep.ipv4 (some id) })
Occupies id nep b (err e) b' =
    IsForeign e
    × ((b' ≡ b)
        ⊎ ((b.tenant nep.ipv4 ≡ none)
            × (b' ≡ record b { tenant = update b.tenant nep.ipv4 (some "") })))

-- Only the tenant frees an endpoint.
abbrev pub Frees : String → NetEndpoint → Contract (Unit {0})
Frees id nep b (ok _) b' =
    (b.tenant nep.ipv4 ≡ some id) × (b' ≡ record b { tenant = update b.tenant nep.ipv4 none })
Frees id nep b (err e) b' = IsForeign e × (b' ≡ b)

abbrev pub Unused : Book → NetEndpoint → Type 0
Unused b nep = ((id : String) → b.linked id ≢ some nep.netns) × (b.tenant nep.ipv4 ≡ none)

abbrev pub Used : Book → NetEndpoint → Type 0
Used b nep = ((id : String) × (b.linked id ≡ some nep.netns)) ⊎ (b.tenant nep.ipv4 ≢ none)

abbrev pub Counts : NetEndpoint → Contract ℕ
Counts nep b (ok zero) b' = (b' ≡ b) × Unused b nep
Counts nep b (ok (suc n)) b' = (b' ≡ b) × Used b nep
Counts nep b (err e) b' = IsForeign e × (b' ≡ b)

abbrev pub Untouched : {A : Type 0} → Contract A
Untouched b (ok _) b' = b' ≡ b
Untouched b (err e) b' = IsForeign e × (b' ≡ b)

-- A state stands for a book, and the call meets its contract in every state that does.
abbrev pub Meets : {S A : Type 0} → (Book → S → Type 0) → Contract A → Book → M S A → Type 0
Meets {S} Stands C b m =
    (s : S) → Stands b s → let (r, s') = m s in (b' : Book) × C b r b' × Stands b' s'

-- The same of a call's end: what it answers, and how it fails.
module _ {S A : Type 0} (Stands : Book → S → Type 0) (C : Contract A) (b : Book) where
  abbrev pub Answers : A → S → Type 0
  Answers a s' = (b' : Book) × C b (ok a) b' × Stands b' s'

  abbrev pub Fails : Error → S → Type 0
  Fails e s' = (b' : Book) × C b (err e) b' × Stands b' s'

  pub refines : {m : M S A} → ((s : S) → Stands b s → Ends Answers Fails (m s)) → Meets Stands C b m
  refines h s st = read (h s st)
    where
      read : {r : Result A × S} → Ends Answers Fails r → (b' : Book) × C b r.0 b' × Stands b' r.1
      read (returns q) = q
      read (fails q) = q

  ended : (r : Result A × S) → (b' : Book) × C b r.0 b' × Stands b' r.1 → Ends Answers Fails r
  ended (ok a, s) q = returns q
  ended (err e, s) q = fails q

  pub Meets-Ends :
      {m : M S A} → Meets Stands C b m → (s : S) → Stands b s → Ends Answers Fails (m s)
  Meets-Ends {m} h s st = ended (m s) (h s st)

-- The addresses at which endpoints are made and deleted are no names of containers.
pub record EndpointStoreLaws (S : Type 0) (store : EndpointStore S) (Stands : Book → S → Type 0)
    (at : String → FilePath) : Type 0 where
  pub gets_by_id :
      (id : String) (b : Book) → Meets Stands (GetsById at id) b (store.get_net_endpoint_by_id id)
  pub gets_by_ip :
      (ip : String) (b : Book) → Meets Stands (GetsByIp at ip) b (store.get_net_endpoint_by_ip ip)
  pub connects :
      (id : String) (nep : NetEndpoint) (b : Book)
      → Meets Stands (Connects at id nep) b (store.connect_net_endpoint id nep)
  pub disconnects :
      (id : String) (nep : NetEndpoint) (b : Book)
      → Meets Stands (Disconnects at id) b (store.disconnect_net_endpoint id nep)
  pub creates :
      (netns id ip : String) (b : Book)
      → b.linked ip ≡ none
      → Meets Stands (Creates at id ip) b (store.create_net_endpoint netns id ip)
  pub deletes :
      (nep : NetEndpoint) (b : Book)
      → b.linked nep.ipv4 ≡ none
      → Meets Stands (Deletes nep) b (store.delete_net_endpoint nep)
  pub occupies :
      (id : String) (nep : NetEndpoint) (b : Book)
      → Meets Stands (Occupies id nep) b (store.occupy_net_endpoint id nep)
  pub frees :
      (id : String) (nep : NetEndpoint) (b : Book)
      → Meets Stands (Frees id nep) b (store.free_net_endpoint id nep)
  pub counts :
      (nep : NetEndpoint) (b : Book)
      → Meets Stands (Counts nep) b (store.get_net_endpoint_refcount nep)
  pub gets_flock : (ip : String) (b : Book) → Meets Stands Untouched b (store.get_flock ip)
  pub locks : (f : store.Flock) (b : Book) → Meets Stands Untouched b (store.lock f)
  pub unlocks : (f : store.Flock) (b : Book) → Meets Stands Untouched b (store.unlock f)
