-- ===== src/Cni/Machine.antt =====
-- The host on which cni/subhandler runs: the endpoint store, and what other programs keep.
use barrel.Prelude.{String, Option, some, ◌≡◌}
use barrel.Types.{Result, ok, err}
use barrel.Method.{M}
use barrel.Cni.Endpoint.{ContainerMeta}

-- The calls of docker-cni and of other programs: a container's configuration is saved, the address
-- of its `eth0` is probed, a start hook is added, the framework's own handlers are called, and
-- `barrel-cni del` is run for an endpoint's owner.
pub record Runtime (H : Type 0) : Type 0 where
  pub save : ContainerMeta → M H (Unit {0})
  pub probe_ipv4 : String → M H String
  pub add_cni_start_hook : ContainerMeta → M H ContainerMeta
  pub handle_create : ContainerMeta → M H (Unit {0})
  pub handle_start : ContainerMeta → M H (Unit {0})
  pub handle_delete : ContainerMeta → M H (Unit {0})
  pub delete_network : String → M H (Unit {0})
  pub saved : H → String → Option ContainerMeta

-- A configuration that was saved is found under the container's name.
abbrev pub Saves : {H : Type 0} → Runtime H → ContainerMeta → Result (Unit {0}) × H → Type 0
Saves rt c (ok _, h) = rt.saved h c.id ≡ some c
Saves rt c (err e, h) = Unit

abbrev pub Probes : {H : Type 0} → (String → Type 0) → Result String × H → Type 0
Probes IsAddress (ok ip, h) = IsAddress ip
Probes IsAddress (err e, h) = Unit

-- What is probed is an address.
pub record RuntimeLaws (H : Type 0) (rt : Runtime H) : Type 1 where
  pub IsAddress : String → Type 0
  pub probes : (netns : String) (h : H) → Probes IsAddress (rt.probe_ipv4 netns h)
  pub saves : (c : ContainerMeta) (h : H) → Saves rt c (rt.save c h)

pub record Machine (S H : Type 0) : Type 0 where
  pub disk : S
  pub host : H

module _ {S H A : Type 0} where
  abbrev pub on_disk : M S A → M (Machine S H) A
  on_disk m w = let (r, s) = m w.disk in (r, record w { disk = s })

  abbrev pub on_host : M H A → M (Machine S H) A
  on_host m w = let (r, h) = m w.host in (r, record w { host = h })
