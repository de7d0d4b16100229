-- ===== src/Protocol/Frame.antt =====
-- src/protocol/frame.rs: a header with its payload, and the bytes that a frame is sent as.
-- `Bytes` is a list of bytes; that it is shared and not copied is not modelled.
use procwire_rust.Base.{ℕ, Bool, not, List, ◌++◌, ◌==◌, ◌&&◌, length}
use procwire_rust.Protocol.Wire.{
  Header, encode, has_flag, is_response_flag, is_error_flag, is_stream_flag, stream_end_flag,
  is_ack_flag, direction_to_parent,
}
use procwire_rust.Protocol.Header

pub record Frame : Type 0 where
  pub header : Header
  pub payload : List ℕ

abbrev pub from_parts : Header → List ℕ → Frame
from_parts header payload = record { header = header; payload = payload }

abbrev pub method_id : Frame → ℕ
method_id f = f.header.method_id

abbrev pub flags : Frame → ℕ
flags f = f.header.flags

abbrev pub request_id : Frame → ℕ
request_id f = f.header.request_id

abbrev pub payload_len : Frame → ℕ
payload_len f = length f.payload

unfoldable pub is_response : Frame → Bool
unfolding has_flag
is_response f = has_flag f.header.flags is_response_flag

unfoldable pub is_error : Frame → Bool
unfolding has_flag
is_error f = has_flag f.header.flags is_error_flag

unfoldable pub is_stream : Frame → Bool
unfolding has_flag
is_stream f = has_flag f.header.flags is_stream_flag

unfoldable pub is_stream_end : Frame → Bool
unfolding has_flag
is_stream_end f = has_flag f.header.flags stream_end_flag

unfoldable pub is_ack : Frame → Bool
unfolding has_flag
is_ack f = has_flag f.header.flags is_ack_flag

unfoldable pub is_to_parent : Frame → Bool
unfolding has_flag
is_to_parent f = has_flag f.header.flags direction_to_parent

-- A frame is an event only if it is no response; `Header.is_event` does not ask that.
unfoldable pub is_event : Frame → Bool
unfolding is_response
is_event f = f.header.request_id == 0 && not (is_response f)

unfoldable pub is_abort : Frame → Bool
unfolding Header.is_abort
is_abort f = Header.is_abort f.header

unfoldable pub build_frame : Header → List ℕ → List ℕ
build_frame header payload = encode header ++ payload

unfoldable pub build_frame_parts : Header → List ℕ → List ℕ × List ℕ
build_frame_parts header payload = (encode header, payload)
