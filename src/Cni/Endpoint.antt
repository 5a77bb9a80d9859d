-- ===== src/Cni/Endpoint.antt =====
-- cni/types.go and helper.go of cni/store/filesystem: endpoints, containers and the paths of files.
use Prim.Native.String
use Prim.Native.Char.{Char, code}
use barrel.Prelude.{
  ℕ, String, Bool, true, false, not, List, [], ◌∷◌, ◌≡◌, ◌↔◌, Eq, string_eq, nat_eq, ◌==◌, ◌&&◌,
  if◌then◌else◌, beq_iff, arith, concat, map,
}

-- A path: its directory and its last element, which is an identifier and a suffix. `filepath.Join`
-- makes one of a directory and a name, and no container or address is spelled with a suffix.
pub record FilePath : Type 0 where
  pub dir : String
  pub ident : String
  pub suffix : String

abbrev path_beq : FilePath → FilePath → Bool
path_beq p q = (p.dir == q.dir) && ((p.ident == q.ident) && (p.suffix == q.suffix))

pub path_beq_iff : (p q : FilePath) → (path_beq p q ≡ true) ↔ (p ≡ q)
path_beq_iff p q =
    ground (arith, beq_iff p.dir q.dir, beq_iff p.ident q.ident, beq_iff p.suffix q.suffix)

instance abbrev pub path_eq : Eq FilePath
path_eq = record { same = path_beq; same_reflects = path_beq_iff }

-- `filepath.Base`
abbrev pub base : FilePath → String
base p = if p.suffix == "" then p.ident else concat (p.ident ∷ p.suffix ∷ [])

abbrev pub netns_path : String → String → FilePath
netns_path root ident = record { dir = root; ident = ident; suffix = "" }

abbrev pub tenant_path : String → String → FilePath
tenant_path root ip = record { dir = root; ident = ip; suffix = "-tenant" }

abbrev pub owner_path : String → String → FilePath
owner_path root ip = record { dir = root; ident = ip; suffix = "-owner" }

abbrev pub flock_path : String → String → FilePath
flock_path root ip = record { dir = root; ident = ip; suffix = "-flock" }

-- The endpoint's namespace is a path in the store's directory.
pub record NetEndpoint : Type 0 where
  pub ipv4 : String
  pub netns : FilePath
  pub owner : String

-- `specs.LinuxNamespace`, a record of another repository.
pub record Namespace : Type 0 where
  pub kind : String
  pub path : FilePath

-- Of `oci.ContainerMeta`, a type of another repository, the fields that are read here; the address
-- that its method `SpecificIP` finds stands as a field, and the process's number as its text.
pub record ContainerMeta : Type 0 where
  pub id : String
  pub env : List String
  pub specific_ip : String
  pub namespaces : List Namespace
  pub init_pid : String

abbrev push : String → Char → String
push s c = String.◌++◌ s (String.◌∷◌ c String.[])

-- `strings.Split` at a separator of one character, whose code is given.
pub split_from : ℕ → String → String → List String
split_from sep cur String.[] = cur ∷ []
split_from sep cur (String.◌∷◌ c s) =
    let closed = split_from sep String.[] s in
    let longer = split_from sep (push cur c) s in if code c == sep then cur ∷ closed else longer

unfoldable pub split : ℕ → String → List String
unfolding split_from
split sep s = split_from sep String.[] s

-- The test on the parts of one variable.
abbrev pub is_fixed : List String → Bool
is_fixed (name ∷ value ∷ []) = (name == "fixed-ip") && not (value == "")
is_fixed _ = false

abbrev pub any_fixed : List String → Bool
any_fixed [] = false
any_fixed (env ∷ envs) = if is_fixed (split b'=' env) then true else any_fixed envs

unfoldable pub requires_fixed_ip : ContainerMeta → Bool
requires_fixed_ip c = any_fixed c.env

unfoldable pub requires_specific_ip : ContainerMeta → Bool
requires_specific_ip c = not (c.specific_ip == "")

abbrev pub enter : FilePath → Namespace → Namespace
enter p ns = if ns.kind == "network" then record ns { path = p } else ns

unfoldable pub set_netns : ContainerMeta → FilePath → ContainerMeta
set_netns c p = record c { namespaces = map (enter p) c.namespaces }

unfoldable pub netns : ContainerMeta → String
netns c = concat ("/proc/" ∷ c.init_pid ∷ "/ns/net" ∷ [])
