-- ===== src/Proxy/Removal/Disconnect.antt =====
-- When disconnection releases the addresses of a container.
use barrel.Prelude.{
  String, Bool, true, false, ◌&&◌, List, Option, none, some, ◌≡◌, refl, ap, sym, subst, ◌∙◌, inl,
  inr, Bool-cases, nat_eq, string_eq, ◌==◌, if◌then◌else◌,
}
use barrel.Types.{Result, ok, err, Error, Pool}
use barrel.Json.{Fields}
use barrel.Json.Object.{get}
use barrel.Method.{M, Ends, returns, fails, >>=-Ends, catch-Ends, Ends-own, fail, ◌>>=◌}
use barrel.Method.Keeps.{Keeps, Keeps-result, Keeps->>=}
use barrel.Vessel.World.{Clients, ClientLaws}
use barrel.Proxy.Members.{member}
use barrel.Proxy.Daemon.{
  Daemon, Site, Request, Response, ContainerInspect, on_daemon, given, get_pools_by_network_name,
}
use barrel.Proxy.Daemon.Calm.{Calm, Calm-refl, Calm-trans, daemon-Calm, inspect-Calm, pools-Calm}
use barrel.Proxy.Connect.{
  passed_on, forwarded, is_unsupervised, is_fixed_ip_label_enabled, identifier_in,
  get_container_info,
}
use barrel.Proxy.Removal.{
  Task, release_by_pools, Reply, answered, done, after_disconnect, disconnect, disconnect_matched,
  handle_disconnect, handle_delete_container,
}
use barrel.Proxy.Removal.Laws.{Deletes, handle_delete_container-Ends}

module _ (net : Clients) (laws : ClientLaws net) {D : Type 0} (docker : Daemon D) where
  module _ (driver_name : String) (find : String → Option (String × String)) (req : Request)
      (w : Site net D) where
    abbrev pub target : Option (String × String)
    target = if req.method == "POST" then find req.path else none

    -- What the handler has asked: the pools of the network, what the container of the body is, and that
    -- the daemon disconnect it.
    pub record Asked (info : ContainerInspect) (pools : List Pool) (resp : Response) : Type 0 where
      pub version : String
      pub network : String
      pub text : String
      pub body : Fields
      pub listed : Site net D
      pub seen : Site net D
      pub last : Site net D
      pub of_path : target ≡ some (version, network)
      pub of_network :
          get_pools_by_network_name net docker driver_name network w ≡ (ok pools, listed)
      pub of_body : req.body ≡ ok text
      pub of_text : docker.unmarshal_object text ≡ ok body
      pub of_container : get_container_info net docker version body listed ≡ (ok info, seen)
      pub of_daemon :
          on_daemon (docker.request (record req { body = ok text })) seen ≡ (ok resp, last)

    -- A request is passed on that is none to disconnect, or whose network is not the driver's.
    pub data Passes : Type 0 where
      elsewhere : target ≡ none → Passes
      foreign :
          (version network : String) (e : Error) (u : Site net D)
          → target ≡ some (version, network)
          → get_pools_by_network_name net docker driver_name network w ≡ (err e, u)
          → is_unsupervised e ≡ true
          → Passes

    -- The addresses of a container with the label are released exactly where the daemon has
    -- disconnected it.
    pub data Disconnected : Reply → Option Task → Type 0 where
      passed : Passes → Disconnected (answered passed_on) none
      stays :
          {resp : Response}
          → (info : ContainerInspect) (pools : List Pool) → Asked info pools resp
          → (is_fixed_ip_label_enabled info && (resp.status == 200)) ≡ false
          → Disconnected (answered (forwarded resp)) none
      left :
          {resp : Response}
          → (info : ContainerInspect) (pools : List Pool) → Asked info pools resp
          → (is_fixed_ip_label_enabled info && (resp.status == 200)) ≡ true
          → Disconnected (answered (forwarded resp)) (some (release_by_pools info.id pools))

    abbrev pub Disconnects : M (Site net D) (Reply × Option Task) → Site net D → Type 0
    Disconnects m u =
        Ends {A = Reply × Option Task} (λ p x. Disconnected p.0 p.1 × Calm net laws w x)
          (λ e x. Calm net laws w x) (m u)

    after :
        {A : Type 0} (m : M (Site net D) A) (f : A → M (Site net D) (Reply × Option Task))
        (u : Site net D)
        → Keeps (Calm net laws) m
        → Calm net laws w u
        → ((a : A) (x : Site net D) → m u ≡ (ok a, x) → Calm net laws w x → Disconnects (f a) x)
        → Disconnects (m >>= f) u
    after m f u keeps q k =
        >>=-Ends m f u (Ends-own (keeps u)) (λ a x (p, e). k a x e (Calm-trans net laws w u x q p))
          (λ e x (p, d). Calm-trans net laws w u x q p)

  constant : {A : Type 0} (r : Result A) → Keeps (Calm net laws {D = D}) (given r)
  constant r = Keeps-result (Calm net laws) (Calm-refl net laws) r

  inspected :
      (version : String) (body : Fields)
      → Keeps (Calm net laws) (get_container_info net docker version body)
  unfolding get_container_info
  inspected version body =
      Keeps->>= (Calm net laws) (Calm-trans net laws)
        (given (identifier_in (member (get body "Container")))) _
        (constant (identifier_in (member (get body "Container"))))
        (λ identifier. inspect-Calm net laws docker identifier version)

  module _ (driver_name : String) (find : String → Option (String × String)) (req : Request)
      (w : Site net D) where
    asked :
        (info : ContainerInspect) (pools : List Pool) (resp : Response) (u : Site net D)
        → Asked driver_name find req w info pools resp
        → Calm net laws w u
        → Disconnects driver_name find req w (after_disconnect net docker info pools resp) u
    asked info pools resp u h q =
        elim (Bool-cases (is_fixed_ip_label_enabled info && (resp.status == 200))) [
          | inl t ↦ rw t (returns (left info pools h t, q))
          | inr f ↦ rw f (returns (stays info pools h f, q))
        ]

    disconnected :
        (version network : String) (pools : List Pool) (u : Site net D)
        → target driver_name find req w ≡ some (version, network)
        → get_pools_by_network_name net docker driver_name network w ≡ (ok pools, u)
        → Calm net laws w u
        → Disconnects driver_name find req w (disconnect net docker req version pools) u
    disconnected version network pools u at served q =
        after driver_name find req w (given req.body) _ u (constant req.body) q (λ text x t p.
          after driver_name find req w (given (docker.unmarshal_object text)) _ x
            (constant (docker.unmarshal_object text)) p
            (λ body y b p'.
              after driver_name find req w (get_container_info net docker version body) _ y
                (inspected version body) p'
                (λ info z i p''.
                  after driver_name find req w
                    (on_daemon (docker.request (record req { body = ok text })))
                    (after_disconnect net docker info pools) z
                    (daemon-Calm net laws (docker.request (record req { body = ok text }))) p''
                    (λ resp v d h.
                      asked info pools resp v
                        (record {
                          version = version;
                          network = network;
                          text = text;
                          body = body;
                          listed = u;
                          seen = z;
                          last = v;
                          of_path = at;
                          of_network = served;
                          of_body = given_ok t;
                          of_text = given_ok b;
                          of_container =
                              subst
                                (λ (s : Site net D).
                                  get_container_info net docker version body s ≡ (ok info, z))
                                (given_same b ∙ given_same t) i;
                          of_daemon = d;
                        })
                        h))))
      where
        given_ok :
            {A : Type 0} {r : Result A} {u x : Site net D} {a : A}
            → given r u ≡ (ok a, x)
            → r ≡ ok a
        given_ok e = ap (λ p. p.0) e

        given_same :
            {A : Type 0} {r : Result A} {u x : Site net D} {a : A} → given r u ≡ (ok a, x) → x ≡ u
        given_same e = sym (ap (λ p. p.1) e)

    unsupervised :
        (version network : String) (e : Error) (u : Site net D)
        → target driver_name find req w ≡ some (version, network)
        → get_pools_by_network_name net docker driver_name network w ≡ (err e, u)
        → Calm net laws w u
        → Disconnects driver_name find req w
            (if is_unsupervised e then done net docker (answered passed_on) else fail e)
            u
    unsupervised version network e u at failed q = elim (Bool-cases (is_unsupervised e)) [
      | inl t ↦ rw t (returns (passed (foreign version network e u at failed t), q))
      | inr f ↦ rw f (fails q)
    ]

    matched :
        (m : Option (String × String))
        → target driver_name find req w ≡ m
        → Disconnects driver_name find req w (disconnect_matched net docker driver_name req m) w
    matched none at = returns (passed (elsewhere at), Calm-refl net laws w)
    matched (some (version, network)) at =
        catch-Ends (get_pools_by_network_name net docker driver_name network)
          (disconnect net docker req version)
          (λ e. if is_unsupervised e then done net docker (answered passed_on) else fail e) w
          (Ends-own (pools-Calm net laws docker driver_name network w))
          (λ pools u (q, e). disconnected version network pools u at e q)
          (λ d u (q, e). unsupervised version network d u at e q)

  pub handle_disconnect-Ends :
      (driver_name : String) (find : String → Option (String × String)) (req : Request)
      (w : Site net D)
      → Disconnects driver_name find req w (handle_disconnect net docker driver_name find req) w
  unfolding handle_disconnect
  handle_disconnect-Ends driver_name find req w = matched driver_name find req w _ refl

  -- A request to remove a container always ends in an answer: it is passed on where its path names
  -- none, refused where the inspection or the request to the daemon fails, and otherwise the
  -- release of the network of the container that the daemon described, and of its volumes where
  -- they are asked for and its labels do not keep them, is started exactly where the daemon
  -- answers 204 or 404. A request to disconnect a container is passed on where its path names no
  -- network or the network is not the driver's; otherwise the release, in that network's pools, of
  -- the addresses of the container that the body names and the daemon described is started exactly
  -- where the container has the label and the daemon answers 200, or there is an error and none is
  -- started. Neither handler itself changes a record or an address.
  pub handlers_release :
      (driver_name : String) (find : String → Option (String × String)) (volumes : Bool)
      (removal disconnection : Request) (w : Site net D)
      → Deletes net laws docker find volumes removal w
          (handle_delete_container net docker find volumes removal)
          w
        × Disconnects driver_name find disconnection w
            (handle_disconnect net docker driver_name find disconnection)
            w
  handlers_release driver_name find volumes removal disconnection w = (
    handle_delete_container-Ends net laws docker find volumes removal w,
    handle_disconnect-Ends driver_name find disconnection w,
  )
