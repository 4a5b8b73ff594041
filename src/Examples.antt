-- ===== src/Examples.antt =====
-- examples: the example callers of the server, and what they make of it together.
pub mod Api
pub mod Connected
pub mod Web
pub mod Client
