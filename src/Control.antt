-- ===== src/Control.antt =====
-- src/control: what the client announces of itself and what it reads of the control plane.
pub mod Json
pub mod Init
pub mod Stdio
pub mod Stdin
pub mod Tests
