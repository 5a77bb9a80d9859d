-- ===== src/Store.antt =====
-- store/store.go and store/etcd/etcd.go.
pub mod Client
pub mod Codec
pub mod Etcd
