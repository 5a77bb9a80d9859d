-- ===== src/Cni.antt =====
-- cni/: the network endpoints that containers share, their store and their handlers.
pub mod Endpoint
pub mod Files
pub mod Store
pub mod Filesystem
pub mod Machine
pub mod Base
pub mod Subhandlers
pub mod Handler
pub mod Flock
