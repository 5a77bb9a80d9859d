-- ===== src/Proxy/Create.antt =====
-- `containerCreateHandler` of proxy/docker/create.go: what it makes of the body of a request that
-- creates a container. A change of a nested object is set in its parents again.
pub mod Laws
pub mod Cni
pub mod Handle
use Prim.Native.String.{◌++◌ as str_append}
use text.Mathlib.Text.{starts_with}
use barrel.Prelude.{
  String, Bool, true, false, not, ◌&&◌, Option, none, some, List, [], ◌∷◌, ◌++◌, string_eq, ◌==◌,
  if◌then◌else◌,
}
use barrel.Types.{Result, ok, err, Error, other, fixed_ip_not_allocated, Ip}
use barrel.Json.{Any, null, string, array, object, Items, nil, Fields, end, add}
use barrel.Json.Object.{get, set, del}
use barrel.Vessel.World.{Clients, WorldOf, M}
use barrel.Vessel.FixedPool.{get_fixed_ip}
use barrel.Proxy.Members.{fixed_ip_label, flag_enabled, member, ensure_object_member}

-- `isCustomNetwork`
abbrev pub is_custom_network : String → Bool
is_custom_network mode =
    not (mode == "")
    && not (mode == "default")
    && not (mode == "bridge")
    && not (mode == "host")
    && not (mode == "none")
    && not (starts_with mode "container:")

abbrev without_label : Fields → Fields → Fields
without_label body labels = set body "Labels" (object (del labels fixed_ip_label))

-- The answer of `checkFixedIPLabelAndNetworkMode`, and the body after it.
abbrev pub Checked : Type 0
Checked = Result (Bool × String) × Fields

abbrev pub check_mode : Fields → Fields → Option Any → Checked
check_mode body labels none = (ok (false, ""), without_label body labels)
check_mode body labels (some (string mode)) = (ok (true, mode), body)
check_mode body labels (some _) = (err (other "parse NetworkMode error"), body)

abbrev pub check_host : Fields → Fields → Option Any → Checked
check_host body labels none = (ok (false, ""), without_label body labels)
check_host body labels (some (object host)) =
    check_mode body labels (member (get host "NetworkMode"))
check_host body labels (some _) = (err (other "parse HostConfig error"), body)

abbrev pub check_flag : Fields → Fields → Option Any → Checked
check_flag body labels none = (ok (false, ""), body)
check_flag body labels (some flag) =
    if flag_enabled flag
    then check_host body labels (member (get body "HostConfig"))
    else (ok (false, ""), body)

abbrev pub check_labels : Fields → Option Any → Checked
check_labels body none = (ok (false, ""), body)
check_labels body (some (object labels)) = check_flag body labels (get labels fixed_ip_label)
check_labels body (some _) = (err (other "parse Labels error"), body)

-- `checkFixedIPLabelAndNetworkMode`
unfoldable pub check_fixed_ip_label_and_network_mode : Fields → Checked
check_fixed_ip_label_and_network_mode body = check_labels body (member (get body "Labels"))

-- The functions that `adaptRequestForCNI` keeps to run when it returns.
pub data Todo : Type 0 where
  use_cni : String → Todo
  empty_endpoints : Todo
  add_fixed_ip add_ipv4 : String → Todo

abbrev pub changed : Fields → String → (Fields → Fields) → Option Any → Fields
changed body key f (some (object fs)) = set body key (object (f fs))
changed body key f _ = body

abbrev pub in_object : Fields → String → (Fields → Fields) → Fields
in_object body key f = changed body key f (get body key)

abbrev pub with_env : Fields → String → Option Any → Fields
with_env body text (some (array xs)) = set body "Env" (array (add xs (string text)))
with_env body text _ = body

abbrev pub add_env : Fields → String → Fields
add_env body text = with_env body text (get body "Env")

abbrev pub set_cni : Fields → Fields
set_cni host = set (set host "Runtime" (string "barrel-cni")) "NetworkMode" (string "none")

abbrev pub run : Fields → Todo → Fields
run body (use_cni mode) = in_object (add_env body (str_append "IPPOOL=" mode)) "HostConfig" set_cni
run body empty_endpoints =
    in_object body "NetworkingConfig" (λ network. set network "EndpointsConfig" (object end))
run body (add_fixed_ip label) = add_env body (str_append label "=1")
run body (add_ipv4 address) = add_env body (str_append "IPV4=" address)

abbrev pub run_all : Fields → List Todo → Fields
run_all body [] = body
run_all body (t ∷ ts) = run_all (run body t) ts

-- Where the body stands when the fixed addresses are asked about: an error or nothing more to do, or
-- the network mode and a specific address.
pub record Plan : Type 0 where
  pub outcome : Result (Option Ip)
  pub body : Fields
  pub todo : List Todo

abbrev pub stopped : Result (Option Ip) → Fields → List Todo → Plan
stopped r body todo = record { outcome = r; body = body; todo = todo }

abbrev text_of : Option Any → String
text_of (some (string s)) = s
text_of _ = ""

-- The address that the request asks for, and the body with the endpoint's configuration made.
abbrev pub specific_ip : Result (Fields × Fields) → String
specific_ip (ok (ipam, _)) = text_of (get ipam "IPv4Address")
specific_ip (err _) = ""

abbrev pub endpoint_with : Fields → Result (Fields × Fields) → Fields
endpoint_with endpoint (ok (_, endpoint')) = endpoint'
endpoint_with endpoint (err _) = endpoint

abbrev pub fixed_todo : Option Any → List Todo
fixed_todo (some flag) = if flag_enabled flag then add_fixed_ip fixed_ip_label ∷ [] else []
fixed_todo none = []

abbrev pub ipv4_todo : String → List Todo
ipv4_todo address = if address == "" then [] else add_ipv4 address ∷ []

abbrev pub asked : String → String → Option Ip
asked mode address =
    if address == "" then none else some (record { pool_id = mode; address = address })

abbrev pub set_endpoint : Fields → Fields → Fields → String → Fields → Fields
set_endpoint body network endpoints mode endpoint =
    set body "NetworkingConfig"
      (object (set network "EndpointsConfig" (object (set endpoints mode (object endpoint)))))

abbrev pub plan_endpoint :
    Fields → Fields → String → Fields → Fields → Result (Fields × Fields) → Plan
plan_endpoint body labels mode network endpoints (err e) =
    stopped (err e)
      (set body "NetworkingConfig" (object (set network "EndpointsConfig" (object endpoints))))
      (use_cni mode ∷ [])
plan_endpoint body labels mode network _ (ok (endpoint, endpoints)) =
    let ipam = ensure_object_member endpoint "IPAMConfig" in
    stopped (ok (asked mode (specific_ip ipam)))
      (set_endpoint body network endpoints mode (endpoint_with endpoint ipam))
      (use_cni mode ∷ empty_endpoints ∷ fixed_todo (get labels fixed_ip_label)
        ++ ipv4_todo (specific_ip ipam))

abbrev pub plan_endpoints : Fields → Fields → String → Fields → Result (Fields × Fields) → Plan
plan_endpoints body labels mode network (err e) =
    stopped (err e) (set body "NetworkingConfig" (object network)) (use_cni mode ∷ [])
plan_endpoints body labels mode _ (ok (endpoints, network)) =
    plan_endpoint body labels mode network endpoints (ensure_object_member endpoints mode)

abbrev pub plan_network : Fields → Fields → String → Result (Fields × Fields) → Plan
plan_network body labels mode (err e) = stopped (err e) body (use_cni mode ∷ [])
plan_network _ labels mode (ok (network, body)) =
    plan_endpoints body labels mode network (ensure_object_member network "EndpointsConfig")

abbrev pub plan_custom : Fields → Fields → String → Plan
plan_custom body labels mode =
    if is_custom_network mode
    then plan_network body labels mode (ensure_object_member body "NetworkingConfig")
    else stopped (ok none) body []

abbrev pub plan_mode : Fields → Fields → Option Any → Plan
plan_mode body labels none = stopped (ok none) body []
plan_mode body labels (some (string mode)) = plan_custom body labels mode
plan_mode body labels (some _) = stopped (err (other "parse NetworkMode error")) body []

abbrev pub plan_labels : Bool → Fields → Fields → Option Any → Plan
plan_labels enabled body host (some (object labels)) =
    if enabled
    then plan_mode body labels (member (get host "NetworkMode"))
    else stopped (ok none) body []
plan_labels enabled body host _ = stopped (ok none) body []

abbrev pub plan_env : Bool → Fields → Fields → Option Any → Plan
plan_env enabled body host none =
    plan_labels enabled (set body "Env" (array nil)) host
      (member (get (set body "Env" (array nil)) "Labels"))
plan_env enabled body host (some (array _)) =
    plan_labels enabled body host (member (get body "Labels"))
plan_env enabled body host (some _) = stopped (err (other "parse Env error")) body []

abbrev pub plan_host : Bool → Fields → Option Any → Plan
plan_host enabled body none = stopped (ok none) body []
plan_host enabled body (some (object host)) = plan_env enabled body host (member (get body "Env"))
plan_host enabled body (some _) = stopped (err (other "parse HostConfig error")) body []

-- `adaptRequestForCNI`, up to the question about a specific address.
unfoldable pub plan : Bool → Fields → Plan
plan enabled body = plan_host enabled body (member (get body "HostConfig"))

abbrev pub is_not_allocated : Error → Bool
is_not_allocated fixed_ip_not_allocated = true
is_not_allocated _ = false

-- Whether a specific address is a fixed address of CNM: then nothing is to be done.
abbrev pub after_question : {A : Type 0} → Result A → Result Bool
after_question (ok _) = ok true
after_question (err e) = if is_not_allocated e then ok false else err e

abbrev pub conclude : Plan → Result Bool → Result (Unit {0}) × Fields
conclude p (ok true) = (ok tt, p.body)
conclude p (ok false) = (ok tt, run_all p.body p.todo)
conclude p (err e) = (err e, run_all p.body p.todo)

module _ (net : Clients) where
  abbrev pub asked_cnm :
      Plan → Result (Option Ip) → WorldOf net → (Result (Unit {0}) × Fields) × WorldOf net
  asked_cnm p (err e) w = (conclude p (err e), w)
  asked_cnm p (ok none) w = (conclude p (ok false), w)
  asked_cnm p (ok (some ip)) w =
      let (r, w') = get_fixed_ip net ip none w in (conclude p (after_question r), w')

  -- `adaptRequestForCNI`: its error, the body after it, and the state of the vessel.
  unfoldable pub adapt_request_for_cni :
      Bool → Fields → WorldOf net → (Result (Unit {0}) × Fields) × WorldOf net
  unfolding plan
  adapt_request_for_cni enabled body = asked_cnm (plan enabled body) (plan enabled body).outcome
