-- ===== src/Handler/Context.antt =====
-- src/handler/context.rs: the context that a handler answers with. Its clones share whether a terminal
-- response was sent, whether the request is cancelled, and the writer: these are the state, and the
-- rest of a context does not change. The writer is any that accepts or refuses whole frames.
pub mod Once
pub mod Frames
pub mod Accepting
use procwire_rust.Base.{
  ℕ, ◌%◌, ◌^◌, ◌≡◌, Bool, true, false, List, [], ◌∷◌, ◌++◌, if◌then◌else◌, length,
}
use procwire_rust.Error.{Result, ok, err, ProcwireError, response_already_sent}
use procwire_rust.Protocol.Wire.{
  Header, response_flags, error_response_flags, stream_error_response_flags, stream_chunk_flags,
  stream_end_response_flags, ack_response_flags,
}
use procwire_rust.Writer.Defs.{OutboundFrame, new, empty}
use procwire_rust.Control.Init.{ResponseType, result, stream, ack, no_response}

-- What a context relies on in `WriterHandle.send`: a frame is accepted behind the others, or refused.
pub record FrameSender (W : Type 0) : Type 0 where
  pub send : W → OutboundFrame → Result (Unit {0}) × W
  pub accepted : W → List OutboundFrame
  pub send_accepts :
      (s s' : W) (f : OutboundFrame) → send s f ≡ (ok tt, s') → accepted s' ≡ accepted s ++ (f ∷ [])
  pub send_refuses :
      (s s' : W) (f : OutboundFrame) (e : ProcwireError)
      → send s f ≡ (err e, s')
      → accepted s' ≡ accepted s

pub record RequestContext : Type 0 where
  pub method_id : ℕ
  pub request_id : ℕ
  pub response_type : ResponseType
  -- whether `writer` is `Some`
  pub has_writer : Bool

pub record Shared (W : Type 0) : Type 0 where
  pub responded : Bool
  pub cancelled : Bool
  pub writer : W

abbrev pub for_tests : ℕ → ℕ → RequestContext
for_tests method_id request_id = record {
  method_id = method_id;
  request_id = request_id;
  response_type = result;
  has_writer = false;
}

abbrev pub with_writer : ℕ → ℕ → RequestContext
with_writer method_id request_id = record {
  method_id = method_id;
  request_id = request_id;
  response_type = result;
  has_writer = true;
}

abbrev pub with_response_type : RequestContext → ResponseType → RequestContext
with_response_type ctx response_type = record ctx { response_type = response_type }

abbrev pub with_writer_and_token : ℕ → ℕ → ResponseType → RequestContext
with_writer_and_token method_id request_id response_type = record {
  method_id = method_id;
  request_id = request_id;
  response_type = response_type;
  has_writer = true;
}

-- The state of a new context over a writer.
abbrev pub fresh : {W : Type 0} → W → Shared W
fresh writer = record { responded = false; cancelled = false; writer = writer }

abbrev pub error_flags_of : ResponseType → ℕ
error_flags_of stream = stream_error_response_flags
error_flags_of _ = error_response_flags

unfoldable pub error_flags : RequestContext → ℕ
error_flags ctx = error_flags_of ctx.response_type

module _ {W : Type 0} where
  abbrev pub has_responded : Shared W → Bool
  has_responded s = s.responded

  abbrev pub is_cancelled : Shared W → Bool
  is_cancelled s = s.cancelled

  abbrev pub cancel : Shared W → Shared W
  cancel s = record s { cancelled = true }

  -- `swap(true)`: the flag is set whatever it was.
  unfoldable pub mark_responded : Shared W → Result (Unit {0}) × Shared W
  mark_responded s =
      if s.responded
      then (err response_already_sent, record s { responded = true })
      else (ok tt, record s { responded = true })

  -- `?` between two steps, with the state passed on.
  abbrev pub and_then :
      {A B : Type 0}
      → Result A × Shared W
      → (A → Shared W → Result B × Shared W)
      → Result B × Shared W
  and_then (ok a, s) f = f a s
  and_then (err e, s) f = (err e, s)

module _ {W : Type 0} (sender : FrameSender W) (ctx : RequestContext) where
  -- `writer.send(frame).await`
  unfoldable pub hand_over : OutboundFrame → Shared W → Result (Unit {0}) × Shared W
  hand_over frame s =
      let (r, writer) = sender.send s.writer frame in (r, record s { writer = writer })

  unfoldable pub send_frame : ℕ → List ℕ → Shared W → Result (Unit {0}) × Shared W
  unfolding hand_over
  send_frame frame_flags payload s =
      let header : Header = record {
        method_id = ctx.method_id;
        flags = frame_flags;
        request_id = ctx.request_id;
        payload_length = length payload % 2 ^ 32;
      } in
      if ctx.has_writer then hand_over (new header payload) s else (ok tt, s)

  unfoldable pub send_frame_empty : ℕ → Shared W → Result (Unit {0}) × Shared W
  unfolding hand_over
  send_frame_empty frame_flags s =
      let header : Header = record {
        method_id = ctx.method_id;
        flags = frame_flags;
        request_id = ctx.request_id;
        payload_length = 0;
      } in
      if ctx.has_writer then hand_over (empty header) s else (ok tt, s)

  -- `respond_raw`, and `respond_bytes`, which differs from it in copying no bytes
  unfoldable pub respond_raw : List ℕ → Shared W → Result (Unit {0}) × Shared W
  unfolding mark_responded send_frame
  respond_raw payload s = and_then (mark_responded s) (λ _. send_frame response_flags payload)

  unfoldable pub send_ack : Shared W → Result (Unit {0}) × Shared W
  unfolding mark_responded send_frame_empty
  send_ack s = and_then (mark_responded s) (λ _. send_frame_empty ack_response_flags)

  -- `chunk_raw`, and `chunk_bytes`
  unfoldable pub chunk_raw : List ℕ → Shared W → Result (Unit {0}) × Shared W
  unfolding send_frame
  chunk_raw payload = send_frame stream_chunk_flags payload

  unfoldable pub end : Shared W → Result (Unit {0}) × Shared W
  unfolding mark_responded send_frame_empty
  end s = and_then (mark_responded s) (λ _. send_frame_empty stream_end_response_flags)

  -- The operations that serialize a value first. `encode` stands for `MsgPackCodec::encode` at the
  -- type of the value.
  module _ {T : Type 0} (encode : T → Result (List ℕ)) where
    unfoldable pub respond : T → Shared W → Result (Unit {0}) × Shared W
    unfolding mark_responded send_frame
    respond payload s =
        and_then (mark_responded s)
          (λ _ s. and_then (encode payload, s) (λ bytes. send_frame response_flags bytes))

    unfoldable pub chunk : T → Shared W → Result (Unit {0}) × Shared W
    unfolding send_frame
    chunk payload s = and_then (encode payload, s) (λ bytes. send_frame stream_chunk_flags bytes)

    -- `error_with`, and `error`, which is this at a text
    unfoldable pub error_with : T → Shared W → Result (Unit {0}) × Shared W
    unfolding mark_responded send_frame error_flags
    error_with error s =
        and_then (mark_responded s)
          (λ _ s. and_then (encode error, s) (λ bytes. send_frame (error_flags ctx) bytes))

-- One use of a context by its handler, `T` the type of its values.
pub data Operation (T : Type 0) : Type 0 where
  respond_with : T → Operation T
  respond_bytes : List ℕ → Operation T
  acknowledge : Operation T
  chunk_with : T → Operation T
  chunk_bytes : List ℕ → Operation T
  finish : Operation T
  fail_with : T → Operation T

module _ {W T : Type 0} (sender : FrameSender W) (encode : T → Result (List ℕ))
    (ctx : RequestContext) where
  unfoldable pub run : Operation T → Shared W → Result (Unit {0}) × Shared W
  unfolding respond respond_raw send_ack chunk chunk_raw end error_with
  run (respond_with v) s = respond sender ctx encode v s
  run (respond_bytes payload) s = respond_raw sender ctx payload s
  run acknowledge s = send_ack sender ctx s
  run (chunk_with v) s = chunk sender ctx encode v s
  run (chunk_bytes payload) s = chunk_raw sender ctx payload s
  run finish s = end sender ctx s
  run (fail_with v) s = error_with sender ctx encode v s

-- A payload that is passed on as its bytes.
pub record RawPayload : Type 0 where
  pub inner : List ℕ

abbrev pub raw_payload : List ℕ → RawPayload
raw_payload payload = record { inner = payload }

abbrev pub as_bytes : RawPayload → List ℕ
as_bytes p = p.inner

abbrev pub into_bytes : RawPayload → List ℕ
into_bytes p = p.inner
