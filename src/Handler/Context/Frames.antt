-- ===== src/Handler/Context/Frames.antt =====
-- What each operation of a context hands to the writer.
use procwire_rust.Base.{
  ℕ, ap, ◌∙◌, ◌+◌, ◌⊎◌, ◌%◌, ◌^◌, ◌≡◌, refl, inl, inr, Bool, true, false, ◌&&◌, ◌||◌, List, [], ◌∷◌,
  ◌++◌, if◌then◌else◌, length, arith, Bool-cases,
}
use procwire_rust.Error.{Result, ok, err, ProcwireError, response_already_sent}
use procwire_rust.Control.Init.{ResponseType, result, stream, ack, no_response}
use procwire_rust.Protocol.Wire.{
  Header, response_flags, stream_chunk_flags, stream_end_response_flags, ack_response_flags,
}
use procwire_rust.Writer.Defs.{OutboundFrame, new, empty}
use procwire_rust.Handler.Context.{
  FrameSender, RequestContext, Shared, error_flags, mark_responded, and_then, hand_over, send_frame,
  send_frame_empty, Operation, respond, respond_raw, send_ack, chunk, chunk_raw, end, error_with,
  respond_with, respond_bytes, acknowledge, chunk_with, chunk_bytes, finish, fail_with, run,
}

abbrev pub is_terminal : {T : Type 0} → Operation T → Bool
is_terminal (chunk_with v) = false
is_terminal (chunk_bytes payload) = false
is_terminal _ = true

-- The flags of an error, by the type of the response that was announced: to the parent (1), a
-- response (2), an error (4), and with a stream also of a stream (8), as its parent looks for them.
abbrev pub failure_flags : ResponseType → ℕ
failure_flags stream = 1 + 2 + 4 + 8
failure_flags result = 1 + 2 + 4
failure_flags ack = 1 + 2 + 4
failure_flags no_response = 1 + 2 + 4

-- The flags of the frame that an operation sends, bit by bit; 16 ends a stream, 32 acknowledges.
abbrev pub flags_of : {T : Type 0} → RequestContext → Operation T → ℕ
flags_of ctx (respond_with v) = 1 + 2
flags_of ctx (respond_bytes payload) = 1 + 2
flags_of ctx acknowledge = 1 + 2 + 32
flags_of ctx (chunk_with v) = 1 + 2 + 8
flags_of ctx (chunk_bytes payload) = 1 + 2 + 8
flags_of ctx finish = 1 + 2 + 8 + 16
flags_of ctx (fail_with v) = failure_flags ctx.response_type

-- Its payload, which is none for `ack` and `end`.
abbrev pub payload_of : {T : Type 0} → (T → Result (List ℕ)) → Operation T → Result (List ℕ)
payload_of encode (respond_with v) = encode v
payload_of encode (respond_bytes payload) = ok payload
payload_of encode acknowledge = ok []
payload_of encode (chunk_with v) = encode v
payload_of encode (chunk_bytes payload) = ok payload
payload_of encode finish = ok []
payload_of encode (fail_with v) = encode v

abbrev pub answer_header : RequestContext → ℕ → List ℕ → Header
answer_header ctx flags payload = record {
  method_id = ctx.method_id;
  flags = flags;
  request_id = ctx.request_id;
  payload_length = length payload % 2 ^ 32;
}

-- The frame that answers with these flags and this payload.
abbrev pub answer : RequestContext → ℕ → List ℕ → OutboundFrame
answer ctx flags payload = new (answer_header ctx flags payload) payload

error_flags_lem :
    (ctx : RequestContext) (t : ResponseType)
    → ctx.response_type ≡ t
    → error_flags ctx ≡ failure_flags ctx.response_type
unfolding error_flags
error_flags_lem ctx result e = rw e refl
error_flags_lem ctx stream e = rw e refl
error_flags_lem ctx ack e = rw e refl
error_flags_lem ctx no_response e = rw e refl

module _ {W T : Type 0} (sender : FrameSender W) (encode : T → Result (List ℕ))
    (ctx : RequestContext) where
  -- Why an operation fails: a second terminal one, a value that does not encode, or a writer that
  -- refuses the frame.
  abbrev pub Cause : Operation T → Shared W → ProcwireError → Type 0
  Cause op s e =
      (((is_terminal op && s.responded) ≡ true) × (e ≡ response_already_sent))
      ⊎ (((is_terminal op && s.responded) ≡ false)
          × ((payload_of encode op ≡ err e)
              ⊎ ((payload : List ℕ) × (payload_of encode op ≡ ok payload)
                  × ((sender.send s.writer (answer ctx (flags_of ctx op) payload)).0 ≡ err e))))

  -- What an operation may do: it hands exactly the frame that answers the request with its flags and
  -- its payload to the writer, behind the frames accepted before; or it fails for one of the
  -- causes above and hands over nothing. A terminal operation succeeds only as the first one, and leaves the request responded.
  abbrev pub Answers : Operation T → Shared W → Result (Unit {0}) × Shared W → Type 0
  Answers op s (ok u, s') =
      ((payload : List ℕ) × (payload_of encode op ≡ ok payload)
        × (sender.accepted s'.writer
            ≡ sender.accepted s.writer ++ (answer ctx (flags_of ctx op) payload ∷ [])))
      × (is_terminal op ≡ true → (s.responded ≡ false) × (s'.responded ≡ true))
      × (is_terminal op ≡ false → s'.responded ≡ s.responded)
  Answers op s (err e, s') =
      (sender.accepted s'.writer ≡ sender.accepted s.writer)
      × (is_terminal op ≡ true → s'.responded ≡ true)
      × (is_terminal op ≡ false → s'.responded ≡ s.responded)
      × Cause op s e

  abbrev shared : Bool → Bool → W → Shared W
  shared responded cancelled writer = record {
    responded = responded;
    cancelled = cancelled;
    writer = writer;
  }

  -- The one shape of all operations.
  abbrev pub attempt : Operation T → Shared W → Result (Unit {0}) × Shared W
  attempt op s =
      if is_terminal op && s.responded
      then (err response_already_sent, s)
      else and_then (payload_of encode op, record s { responded = is_terminal op || s.responded })
          (λ payload s. hand_over sender ctx (answer ctx (flags_of ctx op) payload) s)

  send_frame_lem :
      (flags : ℕ) (payload : List ℕ) (s : Shared W)
      → ctx.has_writer ≡ true
      → send_frame sender ctx flags payload s ≡ hand_over sender ctx (answer ctx flags payload) s
  unfolding send_frame
  send_frame_lem flags payload s w = rw w refl

  send_frame_empty_lem :
      (flags : ℕ) (s : Shared W)
      → ctx.has_writer ≡ true
      → send_frame_empty sender ctx flags s ≡ hand_over sender ctx (answer ctx flags []) s
  unfolding send_frame_empty new empty
  send_frame_empty_lem flags s w = rw w refl

  abbrev sends : ℕ → Result (List ℕ) → Shared W → Result (Unit {0}) × Shared W
  sends flags r s = and_then (r, s) (λ payload s. hand_over sender ctx (answer ctx flags payload) s)

  chunk_shape :
      (r : Result (List ℕ)) (flags : ℕ) (s : Shared W)
      → ctx.has_writer ≡ true
      → and_then (r, s) (λ payload. send_frame sender ctx flags payload) ≡ sends flags r s
  chunk_shape (ok payload) flags s w = send_frame_lem flags payload s w
  chunk_shape (err e) flags s w = refl

  terminal_shape :
      (responded cancelled : Bool) (writer : W) (r : Result (List ℕ)) (flags : ℕ)
      → ctx.has_writer ≡ true
      → let s = shared responded cancelled writer in
        and_then
          (mark_responded s)
          (λ _ s. and_then (r, s) (λ payload. send_frame sender ctx flags payload))
        ≡ (if responded
            then (err response_already_sent, s)
            else sends flags r (shared true cancelled writer))
  unfolding mark_responded
  terminal_shape true cancelled writer r flags w = refl
  terminal_shape false cancelled writer r flags w = chunk_shape r flags _ w

  empty_shape :
      (responded cancelled : Bool) (writer : W) (flags : ℕ)
      → ctx.has_writer ≡ true
      → let s = shared responded cancelled writer in
        and_then (mark_responded s) (λ _. send_frame_empty sender ctx flags) ≡ (
          if responded
          then (err response_already_sent, s)
          else sends flags (ok []) (shared true cancelled writer))
  unfolding mark_responded
  empty_shape true cancelled writer flags w = refl
  empty_shape false cancelled writer flags w = send_frame_empty_lem flags _ w

  pub run-attempt :
      (op : Operation T) (s : Shared W)
      → ctx.has_writer ≡ true
      → run sender encode ctx op s ≡ attempt op s
  unfolding run respond respond_raw send_ack chunk chunk_raw end error_with
  run-attempt (respond_with v) s w =
      terminal_shape s.responded s.cancelled s.writer (encode v) response_flags w
  run-attempt (respond_bytes payload) s w =
      terminal_shape s.responded s.cancelled s.writer (ok payload) response_flags w
  run-attempt acknowledge s w = empty_shape s.responded s.cancelled s.writer ack_response_flags w
  run-attempt (chunk_with v) s w = chunk_shape (encode v) stream_chunk_flags s w
  run-attempt (chunk_bytes payload) s w = chunk_shape (ok payload) stream_chunk_flags s w
  run-attempt finish s w = empty_shape s.responded s.cancelled s.writer stream_end_response_flags w
  run-attempt (fail_with v) s w =
      terminal_shape s.responded s.cancelled s.writer (encode v) (error_flags ctx) w
      ∙ ap
          (λ flags.
            if s.responded
            then (err response_already_sent, s)
            else sends flags (encode v) (record s { responded = true }))
          (error_flags_lem ctx ctx.response_type refl)

  hand_over-Answers :
      (op : Operation T) (s : Shared W) (payload : List ℕ)
      → (is_terminal op && s.responded) ≡ false
      → payload_of encode op ≡ ok payload
      → Answers op s (
          hand_over sender ctx
            (answer ctx (flags_of ctx op) payload)
            (record s { responded = is_terminal op || s.responded }))
  unfolding hand_over
  hand_over-Answers op s payload first e =
      go (sender.send s.writer (answer ctx (flags_of ctx op) payload)) refl
    where
      go :
          (r : Result (Unit {0}) × W)
          → sender.send s.writer (answer ctx (flags_of ctx op) payload) ≡ r
          → Answers op s (r.0, record s { responded = is_terminal op || s.responded; writer = r.1 })
      go (ok u, x) h =
          ((payload, e, sender.send_accepts s.writer x _ h), ground arith, ground arith)
      go (err y, x) h = (
        sender.send_refuses s.writer x _ y h,
        ground arith,
        ground arith,
        inr (first, inr (payload, e, ap (λ r. r.0) h)),
      )

  -- Every operation of a context with a writer hands exactly one frame to the writer, with the ids of
  -- the request, the flags that the kind of the operation and, for an error, the response type call for,
  -- and its payload; or it hands over nothing, and fails because a terminal operation came before,
  -- because its value does not encode, or because the writer refuses. A terminal operation succeeds only
  -- as the first one, and leaves the request responded also when it fails.
  pub run-Answers :
      (op : Operation T) (s : Shared W)
      → ctx.has_writer ≡ true
      → Answers op s (run sender encode ctx op s)
  run-Answers op s w = rw (run-attempt op s w) (elim (Bool-cases (is_terminal op && s.responded)) [
    | inl again ↦ rw again (refl, ground arith, ground arith, inl (again, refl))
    | inr first ↦ rw first (go (payload_of encode op) refl first)
  ])
    where
      go :
          (r : Result (List ℕ))
          → payload_of encode op ≡ r
          → (is_terminal op && s.responded) ≡ false
          → Answers op s
              (sends (flags_of ctx op) r (record s { responded = is_terminal op || s.responded }))
      go (ok payload) e first = hand_over-Answers op s payload first e
      go (err x) e first = (refl, ground arith, ground arith, inr (first, inl e))
