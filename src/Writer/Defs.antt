-- ===== src/Writer/Defs.antt =====
-- src/writer.rs: frames on their way to the pipe, and the settings of the writer task.
use procwire_rust.Base.{ℕ, ◌+◌, List, [], length}
use procwire_rust.Protocol.Wire.{Header, header_size, encode}

abbrev pub default_max_pending_frames : ℕ
default_max_pending_frames = 1024

abbrev pub default_channel_capacity : ℕ
default_channel_capacity = 1024

-- A time is a number of microseconds.
abbrev pub default_backpressure_timeout : ℕ
default_backpressure_timeout = 5_000_000

abbrev pub max_batch_size : ℕ
max_batch_size = 64

pub record OutboundFrame : Type 0 where
  pub header : List ℕ
  pub payload : List ℕ

unfoldable pub new : Header → List ℕ → OutboundFrame
new header payload = record { header = encode header; payload = payload }

unfoldable pub empty : Header → OutboundFrame
empty header = record { header = encode header; payload = [] }

unfoldable pub size : OutboundFrame → ℕ
size f = header_size + length f.payload

pub record WriterConfig : Type 0 where
  pub max_pending_frames : ℕ
  pub channel_capacity : ℕ
  pub backpressure_timeout : ℕ

abbrev pub default_config : WriterConfig
default_config = record {
  max_pending_frames = default_max_pending_frames;
  channel_capacity = default_channel_capacity;
  backpressure_timeout = default_backpressure_timeout;
}
