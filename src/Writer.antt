-- ===== src/Writer.antt =====
-- src/writer.rs: the task that writes frames to the pipe, and the handle that sends to it.
pub mod Defs
pub mod Batch
pub mod Channel
pub mod Handle
pub mod Pipeline
pub mod Tests
pub mod PipelineTests
