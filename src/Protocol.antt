-- ===== src/Protocol.antt =====
-- src/protocol: the wire format of the data plane.
pub mod Wire
pub mod Header
pub mod Frame
pub mod FrameBuffer
pub mod HeaderPool
mod Tests
