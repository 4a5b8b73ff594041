-- ===== src/Etcd.antt =====
-- The etcd adapter, pkg/state/etcd/etcd.go.
pub mod Client
pub mod Adapter
pub mod Keys
pub mod Lawful
pub mod Gentle
pub mod Shared
pub mod Atomic
pub mod Stored
pub mod RoundTrip
pub mod Getter
pub mod Updater
pub mod Deleter
pub mod Engine
pub mod Contract
pub mod Server
pub mod Apply
pub mod Reliable
pub mod Success
pub mod ReadBack
pub mod Delete
