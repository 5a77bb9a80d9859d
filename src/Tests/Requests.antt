-- ===== src/Tests/Requests.antt =====
-- The rewriting of a request that creates a container, at concrete inputs.
use barrel.Prelude.{true, some, ◌≡◌, ◌⊎◌, refl}
use barrel.Types.{ok}
use barrel.Json.{add, string, array, object, nil, cons, Fields, end, field}
use barrel.Json.Object.{get, set, del}
use barrel.Proxy.Members.{ensure_object_member}
use barrel.Proxy.Create.{check_fixed_ip_label_and_network_mode, adapt_request_for_cni, plan}
use barrel.Proxy.Create.Laws.{adapt_request_for_cni-other}
use barrel.Proxy.Create.Cni.{IsCni, IsHeld, adapt_request_for_cni-IsCni}
use barrel.Tests.Memory.{clients}
use barrel.Tests.Pools.{start}

abbrev host : Fields
host = field "NetworkMode" (string "calico") end

abbrev labels : Fields
labels = field "fixed-ip" (string "1") end

abbrev request : Fields
request = field "Image" (string "busybox") (
    field "Env" (array nil) (field "Labels" (object labels) (field "HostConfig" (object host) end)))

adapt_request_for_cni-other_example :
    get (adapt_request_for_cni clients true request start).0.1 "Image" ≡ get request "Image"
adapt_request_for_cni-other_example =
    adapt_request_for_cni-other clients true request start "Image" (refl, (refl, refl))

adapt_request_for_cni-IsCni_example :
    IsCni (adapt_request_for_cni clients true request start).0.1
    ⊎ IsHeld clients (plan true request) start
unfolding get
adapt_request_for_cni-IsCni_example =
    adapt_request_for_cni-IsCni clients request host labels nil "calico" start refl refl refl refl
      refl

-- The environment names the pool and the label.
request_env :
    get (adapt_request_for_cni clients true request start).0.1 "Env"
    ≡ some (array (cons (string "IPPOOL=calico") (cons (string "fixed-ip=1") nil)))
unfolding adapt_request_for_cni plan ensure_object_member get set add
request_env = refl

-- A request with the label and a custom network asks for a fixed address.
request_checked : check_fixed_ip_label_and_network_mode request ≡ (ok (true, "calico"), request)
unfolding check_fixed_ip_label_and_network_mode get
request_checked = refl

-- Without a network mode the label is taken off.
label_removed :
    (check_fixed_ip_label_and_network_mode (field "Labels" (object labels) end)).1
    ≡ field "Labels" (object end) end
unfolding check_fixed_ip_label_and_network_mode get set del
label_removed = refl
