-- ===== src/Proxy/Create/Cni.antt =====
-- When `adaptRequestForCNI` puts a container under CNI.
use barrel.Prelude.{
  String, true, Option, none, some, List, [], ◌∷◌, ◌++◌, string_eq, ◌==◌, ◌≡◌, refl, ◌∙◌,
  Bool-cases, inl, inr, ◌⊎◌, All,
}
use barrel.Types.{Result, ok, err, Ip}
use barrel.Json.{Any, string, array, object, Items, Fields}
use barrel.Json.Object.{get, get-set_self, get-set}
use barrel.Codecs.{IpInfoCodec}
use barrel.Vessel.World.{Clients, WorldOf}
use barrel.Vessel.FixedPool.{get_fixed_ip}
use barrel.Proxy.Members.{fixed_ip_label, flag_enabled, ensure_object_member}
use barrel.Proxy.Create.{
  Todo, use_cni, empty_endpoints, add_fixed_ip, add_ipv4, set_cni, changed, run, run_all, Plan,
  plan, plan_network, plan_endpoints, plan_endpoint, fixed_todo, ipv4_todo, specific_ip, conclude,
  is_not_allocated, after_question, asked_cnm, adapt_request_for_cni, is_custom_network,
}
use barrel.Proxy.Create.Laws.{Same, changed-other, with_env-other, network-other}

-- The container gets no network of the docker daemon, and the runtime that calls CNI.
abbrev pub IsCni : Fields → Type 0
IsCni b =
    (host : Fields) × (get b "HostConfig" ≡ some (object host))
    × (get host "NetworkMode" ≡ some (string "none"))
    × (get host "Runtime" ≡ some (string "barrel-cni"))

abbrev IsRest : Todo → Type 0
IsRest (use_cni mode) = ⊥
IsRest _ = Unit

IsCni-Same : (b c : Fields) → Same "HostConfig" b c → IsCni b → IsCni c
IsCni-Same b c same (host, at, mode, runtime) = (host, same ∙ at, mode, runtime)

run-IsCni : (b : Fields) (t : Todo) → IsRest t → IsCni b → IsCni (run b t)
run-IsCni b (use_cni mode) r h = absurd r
run-IsCni b empty_endpoints r h =
    IsCni-Same b _
      (changed-other b "NetworkingConfig" "HostConfig" _ (get b "NetworkingConfig") refl) h
run-IsCni b (add_fixed_ip label) r h =
    IsCni-Same b _ (with_env-other b "HostConfig" _ (get b "Env") refl) h
run-IsCni b (add_ipv4 address) r h =
    IsCni-Same b _ (with_env-other b "HostConfig" _ (get b "Env") refl) h

run_all-IsCni : (b : Fields) (ts : List Todo) → All IsRest ts → IsCni b → IsCni (run_all b ts)
run_all-IsCni b [] r h = h
run_all-IsCni b (t ∷ ts) r h = run_all-IsCni (run b t) ts r.1 (run-IsCni b t r.0 h)

set_cni-mode : (host : Fields) → get (set_cni host) "NetworkMode" ≡ some (string "none")
set_cni-mode host = get-set_self _ "NetworkMode" _

set_cni-runtime : (host : Fields) → get (set_cni host) "Runtime" ≡ some (string "barrel-cni")
set_cni-runtime host = get-set _ "NetworkMode" "Runtime" _ ∙ get-set_self host "Runtime" _

changed-IsCni :
    (b host : Fields) (o : Option Any)
    → o ≡ some (object host)
    → IsCni (changed b "HostConfig" set_cni o)
changed-IsCni b host o e =
    rw e (set_cni host, get-set_self b "HostConfig" _, set_cni-mode host, set_cni-runtime host)

use_cni-IsCni :
    (b host : Fields) (mode : String)
    → get b "HostConfig" ≡ some (object host)
    → IsCni (run b (use_cni mode))
use_cni-IsCni b host mode e =
    changed-IsCni _ host _ (with_env-other b "HostConfig" _ (get b "Env") refl ∙ e)

-- The functions to run begin with the one that puts the container under CNI.
abbrev IsShaped : Plan → Type 0
IsShaped p = (mode : String) × (ts : List Todo) × (p.todo ≡ use_cni mode ∷ ts) × All IsRest ts

All-append : (ts us : List Todo) → All IsRest ts → All IsRest us → All IsRest (ts ++ us)
All-append [] us h g = g
All-append (t ∷ ts) us h g = (h.0, All-append ts us h.1 g)

fixed-IsRest : (o : Option Any) → All IsRest (fixed_todo o)
fixed-IsRest none = tt
fixed-IsRest (some flag) = elim (Bool-cases (flag_enabled flag)) [
  | inl on ↦ rw on (tt, tt)
  | inr off ↦ rw off tt
]

ipv4-IsRest : (address : String) → All IsRest (ipv4_todo address)
ipv4-IsRest address = elim (Bool-cases (address == "")) [
  | inl blank ↦ rw blank tt
  | inr given ↦ rw given (tt, tt)
]

endpoint-IsShaped :
    (b labels network endpoints : Fields) (mode : String) (r : Result (Fields × Fields))
    → IsShaped (plan_endpoint b labels mode network endpoints r)
endpoint-IsShaped b labels network endpoints mode (err e) = (mode, [], refl, tt)
endpoint-IsShaped b labels network endpoints mode (ok (x, y)) = (
  mode,
  _,
  refl,
  (
    tt,
    All-append _ _ (fixed-IsRest (get labels fixed_ip_label))
        (ipv4-IsRest (specific_ip (ensure_object_member x "IPAMConfig"))),
  ),
)

endpoints-IsShaped :
    (b labels network : Fields) (mode : String) (r : Result (Fields × Fields))
    → IsShaped (plan_endpoints b labels mode network r)
endpoints-IsShaped b labels network mode (err e) = (mode, [], refl, tt)
endpoints-IsShaped b labels network mode (ok (x, y)) =
    endpoint-IsShaped b labels y x mode (ensure_object_member x mode)

network-IsShaped :
    (b labels : Fields) (mode : String) (r : Result (Fields × Fields))
    → IsShaped (plan_network b labels mode r)
network-IsShaped b labels mode (err e) = (mode, [], refl, tt)
network-IsShaped b labels mode (ok (x, y)) =
    endpoints-IsShaped y labels x mode (ensure_object_member x "EndpointsConfig")

planned-IsCni :
    (p : Plan) (host : Fields)
    → IsShaped p
    → get p.body "HostConfig" ≡ some (object host)
    → IsCni (run_all p.body p.todo)
planned-IsCni p host (mode, ts, same, r) at =
    rw same (run_all-IsCni _ ts r (use_cni-IsCni p.body host mode at))

module _ (net : Clients) where
  -- The vessel holds the address that the plan asks about.
  abbrev pub IsHeld : Plan → WorldOf net → Type 0
  IsHeld p w =
      (ip : Ip) × (c : IpInfoCodec) × (w' : WorldOf net) × (p.outcome ≡ ok (some ip))
      × (get_fixed_ip net ip none w ≡ (ok c, w'))

  answered :
      (p : Plan) (w : WorldOf net) (ip : Ip) (t : Result IpInfoCodec × WorldOf net)
      → p.outcome ≡ ok (some ip)
      → get_fixed_ip net ip none w ≡ t
      → IsCni (run_all p.body p.todo)
      → IsCni (conclude p (after_question t.0)).1 ⊎ IsHeld p w
  answered p w ip (ok c, w') asked e h = inr (ip, c, w', asked, e)
  answered p w ip (err f, w') asked e h = elim (Bool-cases (is_not_allocated f)) [
    | inl free ↦ inl (rw free h)
    | inr failed ↦ inl (rw failed h)
  ]

  concluded :
      (p : Plan) (w : WorldOf net) (o : Result (Option Ip))
      → p.outcome ≡ o
      → IsCni (run_all p.body p.todo)
      → IsCni (asked_cnm net p o w).0.1 ⊎ IsHeld p w
  concluded p w (err e) same h = inl h
  concluded p w (ok none) same h = inl h
  concluded p w (ok (some ip)) same h = answered p w ip (get_fixed_ip net ip none w) same refl h

  plan_custom_network :
      (body host labels : Fields) (env : Items) (mode : String)
      → get body "HostConfig" ≡ some (object host)
      → get body "Env" ≡ some (array env)
      → get body "Labels" ≡ some (object labels)
      → get host "NetworkMode" ≡ some (string mode)
      → is_custom_network mode ≡ true
      → plan true body
        ≡ plan_network body labels mode (ensure_object_member body "NetworkingConfig")
  unfolding plan
  plan_custom_network body host labels env mode h e l m custom = rw (h, e, l, m, custom) refl

  -- A request with labels, an environment and a custom network mode leaves `adaptRequestForCNI`,
  -- with CNI enabled, under CNI (network mode none, runtime barrel-cni), whether the call fails or
  -- not; unless it asks for an address that is a fixed address of the vessel.
  pub adapt_request_for_cni-IsCni :
      (body host labels : Fields) (env : Items) (mode : String) (w : WorldOf net)
      → get body "HostConfig" ≡ some (object host)
      → get body "Env" ≡ some (array env)
      → get body "Labels" ≡ some (object labels)
      → get host "NetworkMode" ≡ some (string mode)
      → is_custom_network mode ≡ true
      → IsCni (adapt_request_for_cni net true body w).0.1 ⊎ IsHeld (plan true body) w
  unfolding adapt_request_for_cni
  adapt_request_for_cni-IsCni body host labels env mode w h e l m custom =
      concluded (plan true body) w _ refl (
        rw (plan_custom_network body host labels env mode h e l m custom) (
          planned-IsCni (plan_network body labels mode network) host
            (network-IsShaped body labels mode network)
            (network-other body labels mode "HostConfig" network refl refl ∙ h)))
    where
      network : Result (Fields × Fields)
      network = ensure_object_member body "NetworkingConfig"
