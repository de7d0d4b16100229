-- ===== src/Protocol/FrameBuffer.antt =====
-- src/protocol/frame_buffer.rs: bytes are collected as they arrive and cut into frames. A method
-- returns its result beside the new buffer; `BytesMut` is a list of bytes, its capacity is left out.
pub mod Step
pub mod Chunks
pub mod Sound
pub mod Delivery
pub mod Reassembly
use procwire_rust.Base.{
  ℕ, zero, suc, ◌+◌, ◌==◌, Bool, Option, none, some, List, [], ◌∷◌, ◌++◌, ltb, if◌then◌else◌,
  length, take, drop, is_nil,
}
use procwire_rust.Error.{Result, ok, err, protocol, other_message}
use procwire_rust.Protocol.Wire.{Header, header_size, default_max_payload_size, decode, validate}
use procwire_rust.Protocol.Frame.{Frame}

pub data State : Type 0 where
  waiting_for_header : State
  waiting_for_payload : Header → ℕ → State

pub record FrameBuffer : Type 0 where
  pub buffer : List ℕ
  pub state : State
  pub max_payload_size : ℕ

abbrev pub with_max_payload : ℕ → FrameBuffer
with_max_payload m = record { buffer = []; state = waiting_for_header; max_payload_size = m }

abbrev pub new : FrameBuffer
new = with_max_payload default_max_payload_size

-- The arm of `try_extract_one` for `State::WaitingForPayload`.
unfoldable pub extract_payload : FrameBuffer → Header → ℕ → Result (Option Frame) × FrameBuffer
extract_payload fb header remaining = if ltb (length fb.buffer) remaining then (ok none, fb) else (
  ok (some (record { header = header; payload = take remaining fb.buffer })),
  record fb { buffer = drop remaining fb.buffer; state = waiting_for_header },
)

-- The arm for `State::WaitingForHeader`, once the header is decoded: validate it, consume its bytes,
-- and go on to the payload unless that is empty.
unfoldable pub accept_header : FrameBuffer → Header → Result (Option Frame) × FrameBuffer
unfolding extract_payload
accept_header fb header =
    let consumed = record fb { buffer = drop header_size fb.buffer } in
    elim (validate header fb.max_payload_size) [
      | err e ↦ (err e, fb)
      | ok _ ↦
          if header.payload_length == 0
          then (ok (some (record { header = header; payload = [] })), consumed)
          else extract_payload
              (record consumed { state = waiting_for_payload header header.payload_length }) header
              header.payload_length
    ]

-- `none` of `decode` is the panic of `expect`, which `Sound.decode-ne-none` excludes.
unfoldable pub extract_header : FrameBuffer → Result (Option Frame) × FrameBuffer
unfolding accept_header
extract_header fb =
    if ltb (length fb.buffer) header_size
    then (ok none, fb)
    else elim (decode (take header_size fb.buffer)) [
      | none ↦ (err (protocol (other_message "Buffer has enough bytes")), fb)
      | some header ↦ accept_header fb header
    ]

unfoldable pub extract_in : State → FrameBuffer → Result (Option Frame) × FrameBuffer
unfolding extract_header extract_payload
extract_in waiting_for_header fb = extract_header fb
extract_in (waiting_for_payload header remaining) fb = extract_payload fb header remaining

unfoldable pub try_extract_one : FrameBuffer → Result (Option Frame) × FrameBuffer
unfolding extract_in
try_extract_one fb = extract_in fb.state fb

-- The loop of `push`, on fuel. An error drops the frames that this call has already cut.
unfoldable pub extract_all : ℕ → FrameBuffer → List Frame → Result (List Frame) × FrameBuffer
extract_all zero fb frames = (ok frames, fb)
extract_all (suc fuel) fb frames =
    let (found, fb') = try_extract_one fb in
    elim found [
      | ok none ↦ (ok frames, fb')
      | ok (some f) ↦ extract_all fuel fb' (frames ++ (f ∷ []))
      | err e ↦ (err e, fb')
    ]

unfoldable pub extend : FrameBuffer → List ℕ → FrameBuffer
extend fb bytes = record fb { buffer = fb.buffer ++ bytes }

-- Every round but the last takes bytes off the buffer or leaves the payload state, so this fuel is
-- enough: `Delivery.push-Delivers` has what is left cut to less than a frame.
unfoldable pub push : FrameBuffer → List ℕ → Result (List Frame) × FrameBuffer
unfolding extend
push fb bytes = let fb' = extend fb bytes in extract_all (length fb'.buffer + 2) fb' []

-- `self.try_extract_one().ok().flatten()`
unfoldable pub try_extract : FrameBuffer → Option Frame × FrameBuffer
try_extract fb =
    let (found, fb') = try_extract_one fb in
    elim found [ ok frame ↦ (frame, fb') | err e ↦ (none, fb') ]

abbrev pub len : FrameBuffer → ℕ
len fb = length fb.buffer

abbrev pub is_empty : FrameBuffer → Bool
is_empty fb = is_nil fb.buffer

unfoldable pub clear : FrameBuffer → FrameBuffer
clear fb = record fb { buffer = []; state = waiting_for_header }

-- The capacity is reserved only.
abbrev pub with_capacity_and_max_payload : ℕ → ℕ → FrameBuffer
with_capacity_and_max_payload capacity m = with_max_payload m
