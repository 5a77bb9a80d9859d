-- ===== src/Proxy/Create/Laws.antt =====
-- What `adaptRequestForCNI` leaves alone in a request, and what it makes of it.
use barrel.Prelude.{
  String, Bool, true, false, Option, none, some, List, [], ◌∷◌, string_eq, ◌==◌, ◌≡◌, refl, ◌∙◌,
  Bool-cases, inl, inr,
}
use barrel.Types.{Result, ok, err, Ip}
use barrel.Json.{Any, null, bool, int, float, string, array, object, Fields, end, nil}
use barrel.Json.Object.{get, set, get-set}
use barrel.Vessel.World.{Clients, WorldOf}
use barrel.Vessel.FixedPool.{get_fixed_ip}
use barrel.Proxy.Members.{member, ensured, ensure_object_member}
use barrel.Proxy.Create.{
  Todo, use_cni, empty_endpoints, add_fixed_ip, add_ipv4, changed, with_env, set_cni, run, run_all,
  Plan, plan, plan_mode, plan_labels, plan_env, plan_host, plan_network, plan_endpoints,
  plan_endpoint, conclude, after_question, asked_cnm, adapt_request_for_cni, is_custom_network,
}

-- The members that the code changes.
abbrev pub IsOther : String → Type 0
IsOther k =
    (("Env" == k) ≡ false) × ((("HostConfig" == k) ≡ false) × (("NetworkingConfig" == k) ≡ false))

-- The two bodies read the same at the name.
abbrev pub Same : String → Fields → Fields → Type 0
Same k b c = get c k ≡ get b k

pub set-other : (b : Fields) (j k : String) (v : Any) → (j == k) ≡ false → Same k b (set b j v)
set-other b j k v e = get-set b j k v ∙ rw e refl

pub changed-other :
    (b : Fields) (j k : String) (f : Fields → Fields) (o : Option Any)
    → (j == k) ≡ false
    → Same k b (changed b j f o)
changed-other b j k f none e = refl
changed-other b j k f (some (object fs)) e = set-other b j k _ e
changed-other b j k f (some null) e = refl
changed-other b j k f (some (bool x)) e = refl
changed-other b j k f (some (int x)) e = refl
changed-other b j k f (some (float x)) e = refl
changed-other b j k f (some (string x)) e = refl
changed-other b j k f (some (array x)) e = refl

pub with_env-other :
    (b : Fields) (k text : String) (o : Option Any)
    → ("Env" == k) ≡ false
    → Same k b (with_env b text o)
with_env-other b k text none e = refl
with_env-other b k text (some (array xs)) e = set-other b "Env" k _ e
with_env-other b k text (some null) e = refl
with_env-other b k text (some (bool x)) e = refl
with_env-other b k text (some (int x)) e = refl
with_env-other b k text (some (float x)) e = refl
with_env-other b k text (some (string x)) e = refl
with_env-other b k text (some (object x)) e = refl

run-other : (b : Fields) (k : String) (t : Todo) → IsOther k → Same k b (run b t)
run-other b k (use_cni mode) h =
    changed-other _ "HostConfig" k set_cni _ h.1.0 ∙ with_env-other b k _ _ h.0
run-other b k empty_endpoints h = changed-other b "NetworkingConfig" k _ _ h.1.1
run-other b k (add_fixed_ip label) h = with_env-other b k _ _ h.0
run-other b k (add_ipv4 address) h = with_env-other b k _ _ h.0

run_all-other : (b : Fields) (k : String) (ts : List Todo) → IsOther k → Same k b (run_all b ts)
run_all-other b k [] h = refl
run_all-other b k (t ∷ ts) h = run_all-other (run b t) k ts h ∙ run-other b k t h

-- `ensureObjectMember` changes no member but the one it ensures.
pub ensured-other :
    (parent child parent' : Fields) (j k : String) (o : Option Any)
    → (j == k) ≡ false
    → ensured parent j o ≡ ok (child, parent')
    → Same k parent parent'
ensured-other parent child parent' j k none e h =
    let same : parent' ≡ set parent j (object end) = cc in rw same (set-other parent j k _ e)
ensured-other parent child parent' j k (some (object fs)) e h =
    let same : parent' ≡ parent = cc in rw same refl
ensured-other parent child parent' j k (some null) e h = absurd (cc)
ensured-other parent child parent' j k (some (bool x)) e h = absurd (cc)
ensured-other parent child parent' j k (some (int x)) e h = absurd (cc)
ensured-other parent child parent' j k (some (float x)) e h = absurd (cc)
ensured-other parent child parent' j k (some (string x)) e h = absurd (cc)
ensured-other parent child parent' j k (some (array x)) e h = absurd (cc)

endpoint-other :
    (b labels network endpoints : Fields) (mode k : String) (r : Result (Fields × Fields))
    → ("NetworkingConfig" == k) ≡ false
    → Same k b (plan_endpoint b labels mode network endpoints r).body
endpoint-other b labels network endpoints mode k (err e) h = set-other b "NetworkingConfig" k _ h
endpoint-other b labels network endpoints mode k (ok (x, y)) h =
    set-other b "NetworkingConfig" k _ h

endpoints-other :
    (b labels network : Fields) (mode k : String) (r : Result (Fields × Fields))
    → ("NetworkingConfig" == k) ≡ false
    → Same k b (plan_endpoints b labels mode network r).body
endpoints-other b labels network mode k (err e) h = set-other b "NetworkingConfig" k _ h
endpoints-other b labels network mode k (ok (x, y)) h = endpoint-other b labels y x mode k _ h

pub network-other :
    (b labels : Fields) (mode k : String) (r : Result (Fields × Fields))
    → ensure_object_member b "NetworkingConfig" ≡ r
    → ("NetworkingConfig" == k) ≡ false
    → Same k b (plan_network b labels mode r).body
unfolding ensure_object_member
network-other b labels mode k (err e) same h = refl
network-other b labels mode k (ok (x, y)) same h =
    endpoints-other y labels x mode k (ensure_object_member x "EndpointsConfig") h
    ∙ ensured-other b x y "NetworkingConfig" k _ h same

mode-other :
    (b labels : Fields) (k : String) (o : Option Any)
    → IsOther k
    → Same k b (plan_mode b labels o).body
mode-other b labels k none h = refl
mode-other b labels k (some (string mode)) h = elim (Bool-cases (is_custom_network mode)) [
  | inl custom ↦ rw custom (network-other b labels mode k _ refl h.1.1)
  | inr plain ↦ rw plain refl
]
mode-other b labels k (some null) h = refl
mode-other b labels k (some (bool x)) h = refl
mode-other b labels k (some (int x)) h = refl
mode-other b labels k (some (float x)) h = refl
mode-other b labels k (some (array x)) h = refl
mode-other b labels k (some (object x)) h = refl

labels-other :
    (enabled : Bool) (b host : Fields) (k : String) (o : Option Any)
    → IsOther k
    → Same k b (plan_labels enabled b host o).body
labels-other true b host k (some (object labels)) h =
    mode-other b labels k (member (get host "NetworkMode")) h
labels-other false b host k (some (object labels)) h = refl
labels-other enabled b host k none h = refl
labels-other enabled b host k (some null) h = refl
labels-other enabled b host k (some (bool x)) h = refl
labels-other enabled b host k (some (int x)) h = refl
labels-other enabled b host k (some (float x)) h = refl
labels-other enabled b host k (some (string x)) h = refl
labels-other enabled b host k (some (array x)) h = refl

env-other :
    (enabled : Bool) (b host : Fields) (k : String) (o : Option Any)
    → IsOther k
    → Same k b (plan_env enabled b host o).body
env-other enabled b host k none h =
    labels-other enabled (set b "Env" (array nil)) host k
      (member (get (set b "Env" (array nil)) "Labels")) h
    ∙ set-other b "Env" k _ h.0
env-other enabled b host k (some (array xs)) h =
    labels-other enabled b host k (member (get b "Labels")) h
env-other enabled b host k (some null) h = refl
env-other enabled b host k (some (bool x)) h = refl
env-other enabled b host k (some (int x)) h = refl
env-other enabled b host k (some (float x)) h = refl
env-other enabled b host k (some (string x)) h = refl
env-other enabled b host k (some (object x)) h = refl

host-other :
    (enabled : Bool) (b : Fields) (k : String) (o : Option Any)
    → IsOther k
    → Same k b (plan_host enabled b o).body
host-other enabled b k none h = refl
host-other enabled b k (some (object host)) h = env-other enabled b host k (member (get b "Env")) h
host-other enabled b k (some null) h = refl
host-other enabled b k (some (bool x)) h = refl
host-other enabled b k (some (int x)) h = refl
host-other enabled b k (some (float x)) h = refl
host-other enabled b k (some (string x)) h = refl
host-other enabled b k (some (array x)) h = refl

conclude-other :
    (b : Fields) (k : String) (p : Plan) (r : Result Bool)
    → IsOther k
    → Same k b p.body
    → Same k b (conclude p r).1
conclude-other b k p (ok true) h same = same
conclude-other b k p (ok false) h same = run_all-other p.body k p.todo h ∙ same
conclude-other b k p (err e) h same = run_all-other p.body k p.todo h ∙ same

module _ (net : Clients) where
  asked-other :
      (b : Fields) (k : String) (p : Plan) (r : Result (Option Ip)) (w : WorldOf net)
      → IsOther k
      → Same k b p.body
      → Same k b (asked_cnm net p r w).0.1
  asked-other b k p (err e) w h same = conclude-other b k p (err e) h same
  asked-other b k p (ok none) w h same = conclude-other b k p (ok false) h same
  asked-other b k p (ok (some ip)) w h same =
      conclude-other b k p (after_question (get_fixed_ip net ip none w).0) h same

  -- AdaptRequestForCNI changes no member of the request but `Env`, `HostConfig` and
  -- `NetworkingConfig`, whether it fails or not.
  pub adapt_request_for_cni-other :
      (enabled : Bool) (body : Fields) (w : WorldOf net) (k : String)
      → IsOther k
      → get (adapt_request_for_cni net enabled body w).0.1 k ≡ get body k
  unfolding adapt_request_for_cni plan
  adapt_request_for_cni-other enabled body w k h =
      asked-other body k (plan enabled body) _ w h
        (host-other enabled body k (member (get body "HostConfig")) h)
