-- ===== src/Client.antt =====
-- src/client.rs: the connection to the parent, from its authentication to its frames.
pub mod Auth
pub mod Dispatch
pub mod Emit
pub mod Builder
pub mod ReadLoop
pub mod Start
pub mod Session
mod Tests
