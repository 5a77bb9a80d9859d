-- ===== src/Tests/Leftovers.antt =====
-- Runs of proxy/docker/inspect.go and resources/resources.go where something is left behind.
use barrel.Prelude.{ℕ, String, true, [], ◌∷◌, ◌≡◌, refl}
use barrel.Types.{Result, ok, err, other}
use barrel.Method.{M}
use barrel.Proxy.Daemon.{Daemon, Request}
use barrel.Proxy.Connect.{forwarded}
use barrel.Proxy.Removal.{Reply, answered}
use barrel.Proxy.Inspection.{
  ContainerJson, handle_inspect, inject_network_for_cni, is_alive_cni_container, cni_ip_pool_name,
}
use barrel.Resources.{recycle_mounts, minify, minify_after, match_prefix, sort_strings, insert_path}

abbrev alive : ContainerJson
alive = record {
  runtime = "barrel-cni";
  pid = 7;
  running = true;
  env = "A=1" ∷ "IPPOOL=pool=1" ∷ [];
  document = "{}";
}

abbrev docker : Daemon ℕ
docker = record {
  inspect_network = λ name d. (err (other "no network"), d);
  request = λ req d. (ok (record { status = 200; body = ok "{}" }), d);
  read_container = λ text. err (other "no container");
  unmarshal_object = λ text. err (other "no object");
  marshal = λ body. err (other "no text");
}

abbrev inspect_req : Request
inspect_req = record { method = "GET"; path = "/v1.32/containers/c9/json"; body = ok "" }

abbrev answer : M ℕ String → Result Reply
answer probe =
    (handle_inspect docker (λ text. ok alive) (λ c pool ip. ok pool) (λ pid. probe) (λ path. true)
      inspect_req 0).0

abbrev forwards : String → Result Reply
forwards text = ok (answered (forwarded (record { status = 200; body = ok text })))

-- The document that is written gets the pool's name.
inspected_with_network : answer (λ d. (ok "10.0.0.9", d)) ≡ forwards "pool=1"
unfolding handle_inspect inject_network_for_cni is_alive_cni_container cni_ip_pool_name
inspected_with_network = refl

-- When the probe fails the body has been read, and an empty one is forwarded.
inspected_after_failed_probe : answer (λ d. (err (other "no namespace"), d)) ≡ forwards ""
unfolding handle_inspect inject_network_for_cni is_alive_cni_container
inspected_after_failed_probe = refl

-- A mount below another is removed with it, and one beside it is left as well.
recycled_beside :
    recycle_mounts ("/data" ∷ []) ("/data/vol10" ∷ "/etc" ∷ "/data/vol1" ∷ "/data/vol1/sub" ∷ [])
    ≡ "/data/vol1" ∷ []
unfolding recycle_mounts minify minify_after match_prefix sort_strings insert_path
recycled_beside = refl
