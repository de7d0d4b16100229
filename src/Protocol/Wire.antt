-- ===== src/Protocol/Wire.antt =====
-- src/protocol/wire_format.rs: the 11-byte header, its flags, its encoding and its validation.
-- A byte, a u16 and a u32 are natural numbers; `InRange` says that they fit their width.
pub mod RoundTrip
pub mod Validate
use procwire_rust.Base.{
  ℕ, ◌+◌, ◌*◌, ◌/◌, ◌%◌, ◌^◌, ◌<◌, bit_and, bit_or, Bool, not, Option, none, some, List, [], ◌∷◌,
  ltb, ◌==◌, if◌then◌else◌, length, get_or, set, replicate,
}
use procwire_rust.Error.{
  Result, ok, err, protocol, method_id_reserved, payload_exceeds_maximum, payload_exceeds_absolute,
  reserved_flag_bits,
}

abbrev pub header_size : ℕ
header_size = 11

abbrev pub default_max_payload_size : ℕ
default_max_payload_size = 1_073_741_824

abbrev pub absolute_max_payload_size : ℕ
absolute_max_payload_size = 2_147_483_647

abbrev pub abort_method_id : ℕ
abort_method_id = 0xFFFF

abbrev pub auth_method_id : ℕ
auth_method_id = 0xFFFE

abbrev pub reserved_method_id : ℕ
reserved_method_id = 0

abbrev pub header_pool_size : ℕ
header_pool_size = 16

abbrev pub direction_to_parent : ℕ
direction_to_parent = 0b0000_0001

abbrev pub is_response_flag : ℕ
is_response_flag = 0b0000_0010

abbrev pub is_error_flag : ℕ
is_error_flag = 0b0000_0100

abbrev pub is_stream_flag : ℕ
is_stream_flag = 0b0000_1000

abbrev pub stream_end_flag : ℕ
stream_end_flag = 0b0001_0000

abbrev pub is_ack_flag : ℕ
is_ack_flag = 0b0010_0000

abbrev pub reserved_mask : ℕ
reserved_mask = 0b1100_0000

unfoldable pub has_flag : ℕ → ℕ → Bool
has_flag flags flag = not (bit_and flags flag == 0)

abbrev pub response_flags : ℕ
response_flags = bit_or direction_to_parent is_response_flag

abbrev pub error_response_flags : ℕ
error_response_flags = bit_or (bit_or direction_to_parent is_response_flag) is_error_flag

abbrev pub stream_error_response_flags : ℕ
stream_error_response_flags =
    bit_or (bit_or (bit_or direction_to_parent is_response_flag) is_error_flag) is_stream_flag

abbrev pub stream_chunk_flags : ℕ
stream_chunk_flags = bit_or (bit_or direction_to_parent is_response_flag) is_stream_flag

abbrev pub stream_end_response_flags : ℕ
stream_end_response_flags =
    bit_or (bit_or (bit_or direction_to_parent is_response_flag) is_stream_flag) stream_end_flag

abbrev pub ack_response_flags : ℕ
ack_response_flags = bit_or (bit_or direction_to_parent is_response_flag) is_ack_flag

pub record Header : Type 0 where
  pub method_id : ℕ
  pub flags : ℕ
  pub request_id : ℕ
  pub payload_length : ℕ

abbrev pub IsByte : ℕ → Type 0
IsByte b = b < 256

-- What the field types u16, u8, u32 and u32 promise.
pub record InRange (h : Header) : Type 0 where
  pub method_id_fits : h.method_id < 2 ^ 16
  pub flags_fit : h.flags < 2 ^ 8
  pub request_id_fits : h.request_id < 2 ^ 32
  pub payload_length_fits : h.payload_length < 2 ^ 32

-- `to_be_bytes` and `from_be_bytes` of u16 and u32.
abbrev pub u16_to_be_bytes : ℕ → List ℕ
u16_to_be_bytes x = (x / 2 ^ 8 % 256) ∷ (x % 256) ∷ []

abbrev pub u32_to_be_bytes : ℕ → List ℕ
u32_to_be_bytes x = (x / 2 ^ 24 % 256) ∷ (x / 2 ^ 16 % 256) ∷ (x / 2 ^ 8 % 256) ∷ (x % 256) ∷ []

abbrev pub u16_from_be_bytes : ℕ → ℕ → ℕ
u16_from_be_bytes a b = a * 2 ^ 8 + b

abbrev pub u32_from_be_bytes : ℕ → ℕ → ℕ → ℕ → ℕ
u32_from_be_bytes a b c d = a * 2 ^ 24 + b * 2 ^ 16 + c * 2 ^ 8 + d

-- `buf[i..i + bs.len()].copy_from_slice(bs)`, inside the bounds.
abbrev pub copy_from_slice : List ℕ → ℕ → List ℕ → List ℕ
copy_from_slice buf i [] = buf
copy_from_slice buf i (b ∷ bs) = copy_from_slice (set buf i b) (i + 1) bs

-- The four writes of `encode_into`.
abbrev pub write_fields : Header → List ℕ → List ℕ
write_fields h buf =
    let buf = copy_from_slice buf 0 (u16_to_be_bytes h.method_id) in
    let buf = set buf 2 h.flags in
    let buf = copy_from_slice buf 3 (u32_to_be_bytes h.request_id) in
    copy_from_slice buf 7 (u32_to_be_bytes h.payload_length)

-- `none` is the panic on a buffer that is too small.
unfoldable pub encode_into : Header → List ℕ → Option (List ℕ)
encode_into h buf = if ltb (length buf) header_size then none else some (write_fields h buf)

-- The array has the size that `encode_into` tests for.
unfoldable pub encode : Header → List ℕ
encode h = write_fields h (replicate header_size 0)

unfoldable pub decode : List ℕ → Option Header
decode buf =
    if ltb (length buf) header_size
    then none
    else some (record {
      method_id = u16_from_be_bytes (byte 0) (byte 1);
      flags = byte 2;
      request_id = u32_from_be_bytes (byte 3) (byte 4) (byte 5) (byte 6);
      payload_length = u32_from_be_bytes (byte 7) (byte 8) (byte 9) (byte 10);
    })
  where
    byte : ℕ → ℕ
    byte i = get_or buf i 0

unfoldable pub validate : Header → ℕ → Result (Unit {0})
validate h max_payload_size =
    if h.method_id == reserved_method_id
    then err (protocol method_id_reserved)
    else if ltb max_payload_size h.payload_length
    then err (protocol (payload_exceeds_maximum h.payload_length max_payload_size))
    else if ltb absolute_max_payload_size h.payload_length
    then err (protocol (payload_exceeds_absolute h.payload_length))
    else if not (bit_and h.flags reserved_mask == 0)
    then err (protocol reserved_flag_bits)
    else ok tt

-- The functions beside the methods.
abbrev pub encode_header : Header → List ℕ
encode_header = encode

abbrev pub encode_header_into : List ℕ → Header → Option (List ℕ)
encode_header_into buf header = encode_into header buf

abbrev pub decode_header : List ℕ → Option Header
decode_header = decode

abbrev pub validate_header : Header → ℕ → Result (Unit {0})
validate_header = validate
