-- ===== src/Vessel/CalicoClient.antt =====
-- The Calico client of vessel/calicoippool.go, a package that is not in the repository: its calls are
-- a parameter, and what the pools rely on is a record of hypotheses: a call that fails may have done
-- its work or not, and between the calls no other host changes what is assigned. An address is its
-- text, which `net.ParseIP` reads and `IP.String` writes.
use barrel.Prelude.{
  ℕ, String, Bool, true, false, List, [], ◌∷◌, ◌++◌, ◌≡◌, ◌==◌, string_eq, if◌then◌else◌,
}
use barrel.Types.{Result, ok, err, IsForeign}

-- `caliconet.IPNet`: its address, its version and its text in CIDR form.
pub record IpNet : Type 0 where
  pub address : String
  pub version : ℕ
  pub text : String

-- `apiv3.IPPool`: its name and the CIDR of its specification.
pub record IpPool : Type 0 where
  pub name : String
  pub cidr : String

pub record AutoAssignArgs : Type 0 where
  pub num4 : ℕ
  pub num6 : ℕ
  pub hostname : String
  pub ipv4_pools : List IpNet
  pub ipv6_pools : List IpNet

pub record Calico : Type 1 where
  pub State : Type 0
  pub assigned : State → String → Bool
  pub assign_ip : String → String → State → Result (Unit {0}) × State
  pub auto_assign : AutoAssignArgs → State → Result (List IpNet × List IpNet) × State
  pub release_ip : String → State → Result (Unit {0}) × State
  pub get_pool : String → State → Result IpPool × State
  pub list_pools : State → Result (List IpPool) × State
  pub parse_cidr : String → Result IpNet

abbrev pub Assigned : Type 0
Assigned = String → Bool

abbrev pub assign : Assigned → String → Bool → Assigned
assign f a b x = if a == x then b else f x

abbrev pub assign_all : Assigned → List IpNet → Assigned
assign_all f [] = f
assign_all f (n ∷ ns) = assign_all (assign f n.address true) ns

-- Every address that is handed out was free.
abbrev pub AllFree : Assigned → List IpNet → Type 0
AllFree f [] = Unit
AllFree f (n ∷ ns) = (f n.address ≡ false) × AllFree (assign f n.address true) ns

-- What is assigned stays assigned.
abbrev pub Grows : Assigned → Assigned → Type 0
Grows f g = (x : String) → f x ≡ true → g x ≡ true

-- Nothing but the address `a` is assigned or released.
abbrev pub Elsewhere : Assigned → String → Assigned → Type 0
Elsewhere f a g = (x : String) → (a == x) ≡ false → g x ≡ f x

abbrev pub Assigns : Assigned → String → Result (Unit {0}) → Assigned → Type 0
Assigns f a (ok _) g = (f a ≡ false) × (g ≡ assign f a true)
Assigns f a (err e) g = IsForeign e × Elsewhere f a g

abbrev pub AutoAssigns : Assigned → Result (List IpNet × List IpNet) → Assigned → Type 0
AutoAssigns f (ok (v4, v6)) g = AllFree f (v4 ++ v6) × (g ≡ assign_all f (v4 ++ v6))
AutoAssigns f (err e) g = IsForeign e × Grows f g

abbrev pub Releases : Assigned → String → Result (Unit {0}) → Assigned → Type 0
Releases f a (ok _) g = g ≡ assign f a false
Releases f a (err e) g = IsForeign e × Elsewhere f a g

-- An assignment takes an address that is free, and a release frees it, assigned or not.
pub record CalicoLaws (cal : Calico) : Type 0 where
  pub assign_ip_Assigns :
      (host a : String) (s : cal.State)
      → let (r, s') = cal.assign_ip host a s in Assigns (cal.assigned s) a r (cal.assigned s')
  pub auto_assign_AutoAssigns :
      (args : AutoAssignArgs) (s : cal.State)
      → let (r, s') = cal.auto_assign args s in AutoAssigns (cal.assigned s) r (cal.assigned s')
  pub release_ip_Releases :
      (a : String) (s : cal.State)
      → let (r, s') = cal.release_ip a s in Releases (cal.assigned s) a r (cal.assigned s')
  pub get_pool_reads :
      (p : String) (s : cal.State)
      → let (_, s') = cal.get_pool p s in cal.assigned s' ≡ cal.assigned s
  pub list_pools_reads :
      (s : cal.State) → let (_, s') = cal.list_pools s in cal.assigned s' ≡ cal.assigned s
