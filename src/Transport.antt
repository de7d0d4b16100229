-- ===== src/Transport.antt =====
-- src/transport/pipe.rs: the pipe to the parent.
pub mod Path
pub mod Unix
pub mod Windows
pub mod Tests
