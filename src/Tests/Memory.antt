-- ===== src/Tests/Memory.antt =====
-- An etcd cluster and a Calico that always answer: the client parameters have values.
use barrel.Prelude.{
  String, true, false, List, [], ◌∷◌, none, some, refl, string_eq, nat_eq, if◌then◌else◌,
}
use barrel.Prelude.{Bool-cases, inl, inr}
use barrel.Types.{Result, ok, err, other, Ip, IpInfo, ContainerInfo}
use barrel.Store.Client.{Kv, KvLaws, View, written, replace, holds, run_ops, replies}
use barrel.Codecs.{encode_ip_info}
use barrel.Vessel.CalicoClient.{
  Calico, CalicoLaws, Assigns, AutoAssigns, AutoAssignArgs, Assigned, IpNet, assign,
}
use barrel.Vessel.World.{Clients, ClientLaws, WorldOf}
use barrel.Vessel.FixedPool.{codec_of}
use barrel.Vessel.FixedPool.Steps.{key_of}

abbrev pub memory : Kv
memory = record {
  State = View;
  view = λ v. v;
  get = λ k v. (ok (v k), v);
  put = λ k x v. (ok (v k), written v k x);
  delete = λ k v. (ok (v k), replace v k none);
  txn = λ cs ts es v.
      let ops = if holds v cs then ts else es in
      (ok (record { succeeded = holds v cs; responses = replies v ops }), run_ops v ops);
}

pub memory_laws : KvLaws memory
memory_laws = record {
  get_Reads = λ k v. (refl, refl);
  put_Changes = λ k x v. (refl, refl);
  delete_Changes = λ k v. (refl, refl);
  txn_Commits = λ cs ts es v. (refl, refl, refl);
}

abbrev net10 : IpNet
net10 = record { address = "10.0.0.0"; version = 4; text = "10.0.0.0/24" }

abbrev pub assign_free : String → Assigned → Result (Unit {0}) × Assigned
assign_free a f = if f a then (err (other "already assigned"), f) else (ok tt, assign f a true)

-- The automatic assignment has one address to give.
abbrev pub calico : Calico
calico = record {
  State = Assigned;
  assigned = λ f. f;
  assign_ip = λ host a f. assign_free a f;
  auto_assign = λ args f. if f "10.0.0.9" then (err (other "no address"), f) else (
    ok (record { address = "10.0.0.9"; version = 4; text = "10.0.0.9/32" } ∷ [], []),
    assign f "10.0.0.9" true,
  );
  release_ip = λ a f. (ok tt, assign f a false);
  get_pool = λ p f. (ok (record { name = p; cidr = "10.0.0.0/24" }), f);
  list_pools = λ f. (ok (record { name = "pool"; cidr = "10.0.0.0/24" } ∷ []), f);
  parse_cidr = λ c. ok net10;
}

free_Assigns : (a : String) (f : Assigned) → let (r, g) = assign_free a f in Assigns f a r g
free_Assigns a f = elim (Bool-cases (f a)) [
  | inl taken ↦ rw taken (tt, λ x e. refl)
  | inr free ↦ rw free (free, refl)
]

one_AutoAssigns :
    (args : AutoAssignArgs) (f : Assigned)
    → let (r, g) = calico.auto_assign args f in AutoAssigns f r g
one_AutoAssigns args f = elim (Bool-cases (f "10.0.0.9")) [
  | inl taken ↦ rw taken (tt, λ x h. h)
  | inr free ↦ rw free ((free, tt), refl)
]

pub calico_laws : CalicoLaws calico
calico_laws = record {
  assign_ip_Assigns = λ host a f. free_Assigns a f;
  auto_assign_AutoAssigns = one_AutoAssigns;
  release_ip_Releases = λ a f. refl;
  get_pool_reads = λ p f. refl;
  list_pools_reads = λ f. refl;
}

abbrev pub clients : Clients
clients = record { kv = memory; cal = calico }

pub client_laws : ClientLaws clients
client_laws = record { kv_laws = memory_laws; cal_laws = calico_laws }

abbrev pub empty : View
empty k = none

abbrev pub nothing_assigned : Assigned
nothing_assigned a = false

abbrev pub ip9 : Ip
ip9 = record { pool_id = "pool"; address = "10.0.0.9" }

abbrev pub info9 : IpInfo
info9 = (codec_of ip9).ip_info

-- The record of `ip9` stands in the cluster, at its second version.
abbrev pub holding : View
holding = replace empty (key_of ip9) (some (record { value = encode_ip_info info9; version = 2 }))

abbrev pub world : View → List (View → View) → WorldOf clients
world v os = record {
  shared = record { store = v; others = os };
  ipam = assign nothing_assigned "10.0.0.9" true;
}

abbrev pub container9 : ContainerInfo
container9 = record {
  container = record { id = "c9"; host_name = "node" };
  networks = record { network_id = "net"; endpoint_id = "end"; address = ip9 } ∷ [];
  addresses = ip9 ∷ [];
}
