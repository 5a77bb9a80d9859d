-- ===== src/Tests/Endpoints.antt =====
-- An endpoint that one container made and holds, and the theorems on cni/ at it.
use barrel.Prelude.{
  ℕ, String, true, false, Option, none, some, [], ◌∷◌, ◌≡◌, refl, sym, subst, string_eq, nat_eq,
  ◌==◌, beq_refl, if◌then◌else◌, arith,
}
use barrel.Types.{Result, ok}
use barrel.Cni.Endpoint.{
  FilePath, NetEndpoint, base, ContainerMeta, netns_path, owner_path, tenant_path, path_beq_iff,
}
use barrel.Cni.Files.{Disk, Table, file, link, bound}
use barrel.Cni.Store.{Book, EndpointStore, EndpointStoreLaws, Answers, Fails}
use barrel.Cni.Machine.{Machine, Runtime, RuntimeLaws}
use barrel.Cni.Filesystem.{fs_store}
use barrel.Cni.Filesystem.View.{Stands, view, IsTidy}
use barrel.Cni.Filesystem.Contracts.{fs_store-EndpointStoreLaws}
use barrel.Cni.Base.Calls.{At}
use barrel.Method.{Ends}
use barrel.Cni.Base.{
  borrow_net_endpoint, create_net_endpoint, delete_dangling_network, remove_network,
}
use barrel.Cni.Base.Borrow.{Lent, NotLent, borrow_net_endpoint-Ends}
use barrel.Cni.Base.Make.{Makes, create_net_endpoint-Ends}
use barrel.Cni.Base.Dangling.{Cleaned, Removed, delete_dangling_network-Ends, remove_network-Ends}
use barrel.Cni.Flock.{
  Locks, start, made_by, locked_by, ◌⟶◌, ◌⟹◌, Run, begin, after, get_new, lock, step,
  mutual_exclusion, delete-two_holders,
}
use barrel.Cni.Handler.Steps.{Sound, Keeps}
use barrel.Cni.Handler.{handle_create, handle_start, handle_delete}
use barrel.Cni.Handler.Tenancy.{handlers-Safe}

abbrev root : String
root = "/var/lib/barrel/cni"

abbrev address : String
address = "10.0.0.9"

-- The endpoint of `c2`, which holds it.
abbrev table : Table
table =
    (netns_path root address, bound "/proc/7/ns/net" [] "")
    ∷ (owner_path root address, file "c2")
    ∷ (tenant_path root address, file "c2")
    ∷ (netns_path root "c2", link (netns_path root address))
    ∷ []

abbrev disk : Disk
disk = record { entries = table; faults = [] }

abbrev endpoint : NetEndpoint
endpoint = record { ipv4 = address; netns = netns_path root address; owner = "c2" }

table-IsTidy : IsTidy table
table-IsTidy = record { plain = λ p q e. ground (arith, path_beq_iff (netns_path root "c2") p) }

abbrev book : Book
book = view root table

disk-Stands : Stands root book disk
disk-Stands = record { stands = refl; tidy = table-IsTidy }

-- Configurations that were saved, by the container's name.
abbrev Saved : Type 0
Saved = String → Option ContainerMeta

abbrev save : ContainerMeta → Saved → Result (Unit {0}) × Saved
save c h = (ok tt, λ id. if c.id == id then some c else h id)

abbrev runtime : Runtime Saved
runtime = record {
  save = save;
  probe_ipv4 = λ netns h. (ok address, h);
  add_cni_start_hook = λ c h. (ok c, h);
  handle_create = λ c h. (ok tt, h);
  handle_start = λ c h. (ok tt, h);
  handle_delete = λ c h. (ok tt, h);
  delete_network = λ owner h. (ok tt, h);
  saved = λ h. h;
}

saves-found : (c : ContainerMeta) (h : Saved) → (save c h).1 c.id ≡ some c
saves-found c h = rw (beq_refl c.id) refl

abbrev runtime_laws : RuntimeLaws Saved runtime
runtime_laws = record {
  IsAddress = λ ip. ip ≡ address;
  probes = λ netns h. refl;
  saves = saves-found;
}

abbrev container : ContainerMeta
container = record {
  id = "c1";
  env = "fixed-ip=1" ∷ [];
  specific_ip = address;
  namespaces = [];
  init_pid = "9";
}

abbrev machine : Machine Disk Saved
machine = record { disk = disk; host = λ id. none }

fs_store-EndpointStoreLaws_example :
    EndpointStoreLaws Disk (fs_store root) (Stands root) (netns_path root)
fs_store-EndpointStoreLaws_example = fs_store-EndpointStoreLaws root

abbrev laws : EndpointStoreLaws Disk (fs_store root) (Stands root) (netns_path root)
laws = fs_store-EndpointStoreLaws root

container-Sound : Sound runtime_laws container book
container-Sound = record {
  owned = λ ip n. ground arith;
  apart = λ ip e. (
    subst (λ a. book.linked a ≡ none) (sym e) refl,
    subst (λ a. ("c1" == a) ≡ false) (sym e) refl,
  );
  asked = refl;
}

handlers-Safe_example :
    Keeps laws runtime_laws container book (handle_create (fs_store root) runtime container) machine
    × Keeps laws runtime_laws container book
        (handle_start (fs_store root) runtime container)
        machine
    × Keeps laws runtime_laws container book
        (handle_delete (fs_store root) runtime container)
        machine
handlers-Safe_example =
    handlers-Safe laws runtime_laws container book container-Sound machine disk-Stands

abbrev store : EndpointStore Disk
store = fs_store root

linked-apart : (p : FilePath) → book.linked "c2" ≡ some p → book.linked (base p) ≡ none
linked-apart p e = subst (λ q. book.linked (base q) ≡ none) (some_inv e) refl
  where
    some_inv : some (netns_path root address) ≡ some p → netns_path root address ≡ p
    some_inv h = cc

borrow_net_endpoint-Ends_example :
    Ends
      (Lent laws runtime_laws container endpoint book)
      (NotLent laws runtime_laws container endpoint book)
      (borrow_net_endpoint store runtime container endpoint machine)
borrow_net_endpoint-Ends_example =
    borrow_net_endpoint-Ends laws runtime_laws container endpoint book machine disk-Stands

create_net_endpoint-Ends_example :
    Ends
      (Answers (At laws) (Makes (netns_path root) "c1") book)
      (Fails (At laws) (Makes (netns_path root) "c1") book)
      (create_net_endpoint store runtime container machine)
create_net_endpoint-Ends_example =
    create_net_endpoint-Ends laws runtime_laws container book machine disk-Stands
      container-Sound.apart

delete_dangling_network-Ends_example :
    Cleaned runtime laws endpoint book refl (delete_dangling_network store runtime endpoint) machine
delete_dangling_network-Ends_example =
    delete_dangling_network-Ends runtime laws endpoint book refl machine disk-Stands

remove_network-Ends_example :
    Removed runtime laws "c2" book linked-apart (remove_network store runtime "c2") machine
remove_network-Ends_example =
    remove_network-Ends runtime laws "c2" book linked-apart machine disk-Stands

abbrev locked : Locks
locked = locked_by 1 (made_by 1 start)

locked-Run : {R : Locks → Locks → Type 0} → ((s t : Locks) → s ⟶ t → R s t) → Run R locked
locked-Run up =
    after (after begin (up start (made_by 1 start) (get_new 1 refl refl)))
      (up (made_by 1 start) locked (lock 1 0 refl (λ q h. absurd (cc))))

mutual_exclusion_example : ◌≡◌ {A = ℕ} 1 1
mutual_exclusion_example = mutual_exclusion (locked-Run (λ s t h. h)) 1 1 refl refl

delete-two_holders_example : (t : Locks) × Run ◌⟹◌ t × (t.holds 1 ≡ true) × (t.holds 2 ≡ true)
delete-two_holders_example = delete-two_holders locked 1 2 (locked-Run (λ s t h. step h)) refl refl
