-- ===== src/Proxy/Inspection.antt =====
-- `containerInspectHandler` of proxy/docker/inspect.go: an answer about a container under CNI gets the
-- container's network.
use barrel.Prelude.{ℕ, String, Bool, ◌&&◌, List, [], ◌∷◌, ltb, leb, string_eq, ◌==◌, if◌then◌else◌}
use barrel.Types.{Result, ok, err}
use barrel.Method.{M, pure, fail, catch}
use barrel.Proxy.Daemon.{Daemon, Request, Response}
use barrel.Prelude.Texts.{after_prefix, or_later}
use barrel.Proxy.Connect.{passed_on, forwarded}
use barrel.Proxy.Removal.{Reply, answered, refused}

-- What is read of `dockertypes.ContainerJSON`, and the whole document.
pub record ContainerJson : Type 0 where
  pub runtime : String
  pub pid : ℕ
  pub running : Bool
  pub env : List String
  pub document : String

-- `isAliveCNIContainer`
unfoldable pub is_alive_cni_container : ContainerJson → Bool
is_alive_cni_container c = (c.runtime == "barrel-cni") && ltb 0 c.pid && c.running

-- `CNIIPPoolName`: what stands after the first `=` of the first variable that is called IPPOOL.
unfoldable pub cni_ip_pool_name : List String → String
cni_ip_pool_name [] = ""
cni_ip_pool_name (e ∷ es) = or_later (after_prefix "IPPOOL=" e) (cni_ip_pool_name es)

-- The body has been read, and nothing is left of it to forward.
abbrev pub spent : Response → Response
spent resp = record resp { body = elim resp.body [ ok text ↦ ok "" | err e ↦ err e ] }

abbrev pub with_text : Response → Result String → Response
with_text resp (ok text) = record resp { body = ok text }
with_text resp (err e) = spent resp

-- Parameters: the daemon, the reading of its document, the writing with a pool's name and address,
-- and the probe of the address in the namespace of a process.
module _ {D : Type 0} (docker : Daemon D) (read_json : String → Result ContainerJson)
    (write_json : ContainerJson → String → String → Result String) (probe : ℕ → M D String) where
  abbrev pub inject_alive : Response → ContainerJson → M D Response
  inject_alive resp c =
      catch (probe c.pid) (λ ip. pure (with_text resp (write_json c (cni_ip_pool_name c.env) ip)))
        (λ e. pure (spent resp))

  abbrev pub inject_read : Response → Result ContainerJson → M D Response
  inject_read resp (err e) = fail e
  inject_read resp (ok c) = if is_alive_cni_container c then inject_alive resp c else pure resp

  abbrev pub inject_body : Response → Result String → M D Response
  inject_body resp (err e) = fail e
  inject_body resp (ok text) = inject_read resp (read_json text)

  -- `injectNetworkforCNI`
  unfoldable pub inject_network_for_cni : Response → M D Response
  inject_network_for_cni resp = inject_body resp resp.body

  abbrev pub is_success : ℕ → Bool
  is_success status = leb 200 status && ltb status 300

  abbrev pub forward_inspected : Response → M D Reply
  forward_inspected resp =
      if is_success resp.status
      then catch (inject_network_for_cni resp) (λ r. pure (answered (forwarded r)))
          (λ e. pure (answered (forwarded (spent resp))))
      else pure (answered (forwarded resp))

  -- `Handle`; `is_inspect` is the regular expression.
  unfoldable pub handle_inspect : (String → Bool) → Request → M D Reply
  handle_inspect is_inspect req =
      if (req.method == "GET") && is_inspect req.path
      then catch (docker.request req) forward_inspected (λ e. pure (refused 502))
      else pure (answered passed_on)
