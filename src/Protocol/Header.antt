-- ===== src/Protocol/Header.antt =====
-- The predicates of src/protocol/wire_format.rs on a `Header`.
use procwire_rust.Base.{Bool, ◌==◌}
use procwire_rust.Protocol.Wire.{
  Header, has_flag, abort_method_id, auth_method_id, is_response_flag, is_error_flag,
  is_stream_flag, stream_end_flag, is_ack_flag, direction_to_parent,
}

unfoldable pub is_abort : Header → Bool
is_abort h = h.method_id == abort_method_id

unfoldable pub is_auth : Header → Bool
is_auth h = h.method_id == auth_method_id

unfoldable pub is_response : Header → Bool
unfolding has_flag
is_response h = has_flag h.flags is_response_flag

unfoldable pub is_error : Header → Bool
unfolding has_flag
is_error h = has_flag h.flags is_error_flag

unfoldable pub is_stream : Header → Bool
unfolding has_flag
is_stream h = has_flag h.flags is_stream_flag

unfoldable pub is_stream_end : Header → Bool
unfolding has_flag
is_stream_end h = has_flag h.flags stream_end_flag

unfoldable pub is_ack : Header → Bool
unfolding has_flag
is_ack h = has_flag h.flags is_ack_flag

unfoldable pub is_to_parent : Header → Bool
unfolding has_flag
is_to_parent h = has_flag h.flags direction_to_parent

unfoldable pub is_event : Header → Bool
is_event h = h.request_id == 0
