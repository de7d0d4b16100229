-- ===== src/Handler.antt =====
-- src/handler: what a handler answers with, and the registry that finds it.
pub mod Context
pub mod Registry
pub mod Typed
pub mod Tests
