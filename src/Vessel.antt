-- ===== src/Vessel.antt =====
-- vessel/*.go: the allocation of fixed addresses and the records that tie them to containers.
pub mod World
pub mod CalicoClient
pub mod CalicoPool
pub mod FixedPool
pub mod Helper
pub mod Agent
