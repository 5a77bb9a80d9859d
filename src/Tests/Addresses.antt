-- ===== src/Tests/Addresses.antt =====
-- The address requests of driver/ for a fixed address that is held in the cluster.
use barrel.Prelude.{String, Bool, true, []}
use barrel.Method.{Ends}
use barrel.Driver.CalicoIpam.{RequestAddressRequest, ReleaseAddressRequest}
use barrel.Driver.FixedIpam
use barrel.Driver.FixedIpam.Laws.{
  Granted, Withheld, Returned, Retained, fixed_request_address-Ends, fixed_release_address-Ends,
}
use barrel.Tests.Memory.{clients, client_laws}
use barrel.Tests.Pools.{start, holding-IsOwn}

abbrev all_v4 : String → Bool
all_v4 ip = true

abbrev asked : RequestAddressRequest
asked = record { pool_id = "pool"; address = "10.0.0.9"; options = [] }

abbrev left : ReleaseAddressRequest
left = record { pool_id = "pool"; address = "10.0.0.9" }

fixed_request_address-Ends_example :
    Ends
      (Granted clients client_laws all_v4 "node" asked start)
      (Withheld clients client_laws all_v4 "node" asked start)
      (FixedIpam.request_address clients all_v4 "node" asked start)
fixed_request_address-Ends_example =
    fixed_request_address-Ends clients client_laws all_v4 "node" asked start holding-IsOwn

fixed_release_address-Ends_example :
    Ends
      (λ _ w'. Returned clients client_laws all_v4 "node" left start w')
      (Retained clients client_laws all_v4 "node" left start)
      (FixedIpam.release_address clients all_v4 "node" left start)
fixed_release_address-Ends_example =
    fixed_release_address-Ends clients client_laws all_v4 "node" left start holding-IsOwn
