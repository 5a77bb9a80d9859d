-- ===== src/Driver.antt =====
-- driver/: the address management that docker's plugins offer.
pub mod CalicoIpam
pub mod FixedIpam
pub mod Cluster
pub mod Requests
pub mod Network
pub mod FixedNetwork
