-- ===== src/Instances.antt =====
-- pkg/instances: the server, its four handlers, and the Instances that it works on.
pub mod Exec
pub mod Statuses
pub mod Requests
