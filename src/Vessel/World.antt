-- ===== src/Vessel/World.antt =====
-- The state that the methods of vessel/*.go share.
use barrel.Types.{Result}
use barrel.Store.Client.{Kv, KvLaws}
use barrel.Store.Etcd.{Shared}
use barrel.Vessel.CalicoClient.{Calico, CalicoLaws}
pub use barrel.Method.{
  ◌>>=◌, ◌>>◌, M, pure, fail, catch, log_error, fail_if, Ends, returns, fails, >>=-Ends, catch-Ends,
  >>-Ends, Ends-mono, Ends-and, Ends-own, Ends-both, Ends_returned, Ends_failed,
}

-- The two clients that the vessel is made with.
pub record Clients : Type 1 where
  pub kv : Kv
  pub cal : Calico

pub record ClientLaws (net : Clients) : Type 0 where
  pub kv_laws : KvLaws net.kv
  pub cal_laws : CalicoLaws net.cal

-- The etcd cluster with its other clients, and the state of Calico's address management.
pub record World (S C : Type 0) : Type 0 where
  pub shared : Shared S
  pub ipam : C

abbrev pub WorldOf : Clients → Type 0
WorldOf net = World net.kv.State net.cal.State

module _ {S C A : Type 0} where
  abbrev pub on_store : (Shared S → Result A × Shared S) → M (World S C) A
  on_store m w = let (r, s) = m w.shared in (r, record w { shared = s })

  abbrev pub on_ipam : (C → Result A × C) → M (World S C) A
  on_ipam m w = let (r, c) = m w.ipam in (r, record w { ipam = c })
