-- ===== src/Proxy.antt =====
-- proxy/docker/*.go: the handlers that rewrite the requests to the docker daemon.
pub mod Members
pub mod Create
pub mod Daemon
pub mod Connect
pub mod Removal
pub mod Inspection
pub mod Chain
