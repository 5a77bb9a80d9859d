-- ===== src/Cni/Handler.antt =====
-- cni/handler: which subhandler a container's events go to, and the network configuration.
pub mod Safe
pub mod Steps
pub mod Tenancy
use barrel.Prelude.{
  String, Bool, true, false, Option, none, some, List, [], ◌∷◌, not, ◌&&◌, string_eq, ◌==◌,
  if◌then◌else◌, concat,
}
use barrel.Types.{Result, ok, err, Error, other, ◌>>=◌}
use barrel.Method.{M}
use barrel.Cni.Endpoint.{ContainerMeta, requires_fixed_ip, requires_specific_ip, split}
use barrel.Cni.Store.{EndpointStore}
use barrel.Cni.Machine.{Machine, Runtime}
use barrel.Cni.Subhandlers.{Subhandler, fixed, specific, fixed_specific, super}

module _ {S H : Type 0} (store : EndpointStore S) (rt : Runtime H) where
  unfoldable pub get_subhandler : ContainerMeta → Subhandler (Machine S H)
  unfolding requires_fixed_ip requires_specific_ip
  get_subhandler c =
      if requires_fixed_ip c && not (requires_specific_ip c)
      then fixed store rt
      else if requires_fixed_ip c && requires_specific_ip c
      then fixed_specific store rt
      else if not (requires_fixed_ip c) && requires_specific_ip c
      then specific store rt
      else super store rt

  unfoldable pub handle_create : ContainerMeta → M (Machine S H) (Unit {0})
  unfolding get_subhandler
  handle_create c = (get_subhandler c).handle_create c

  unfoldable pub handle_start : ContainerMeta → M (Machine S H) (Unit {0})
  unfolding get_subhandler
  handle_start c = (get_subhandler c).handle_start c

  unfoldable pub handle_delete : ContainerMeta → M (Machine S H) (Unit {0})
  unfolding get_subhandler
  handle_delete c = (get_subhandler c).handle_delete c

-- What an argument says; `rest` goes on with the others.
abbrev pub with_pair : String → String → List String → (String → Result String) → Result String
with_pair all pool (k ∷ v ∷ []) rest = rest (if k == "IPPOOL" then v else pool)
with_pair all pool parts rest = err (other (concat ("invalid CNI_ARGS: '" ∷ all ∷ "'" ∷ [])))

-- The loop over the arguments; of two pools the last one counts.
unfoldable pub pool_of : String → String → List String → Result String
pool_of all pool [] = ok pool
pool_of all pool (arg ∷ args) =
    let rest = λ (p : String). pool_of all p args in
    if arg == "" then rest pool else with_pair all pool (split b'=' arg) rest

-- `set_pools` is the JSON document of the plugin's own configuration, with its pools replaced.
unfoldable pub handle_cni_config :
    (List String → String → Result String) → String → String → Result String
unfolding pool_of
handle_cni_config set_pools args config = pool_of args "" (split b';' args) >>= λ pool.
    if pool == "" then ok config else set_pools (pool ∷ []) config
