-- ===== src/Client/Tests.antt =====
-- src/client.rs: the theorems at inputs that meet their hypotheses.
use procwire_rust.Base.{some, ℕ, ◌+◌, ◌≤◌, ◌≡◌, ◌↔◌, refl, true, List, [], ◌∷◌, arith, length, inr}
use procwire_rust.Protocol.Wire.{decode, validate}
use procwire_rust.Protocol.FrameBuffer.{
  FrameBuffer, with_max_payload, push, extract_all, try_extract_one,
}
use procwire_rust.Base.Assoc.{lookup, insert, remove}
use procwire_rust.Protocol.Header.{is_response}
use procwire_rust.Control.Init.{result}
use procwire_rust.Error.{ok, err}
use procwire_rust.Writer.Defs.{OutboundFrame}
use procwire_rust.Handler.Context.{fresh}
use procwire_rust.Handler.Registry.{HandlerRegistry}
use procwire_rust.Handler.Registry.Ids.{method, register_all}
use procwire_rust.Handler.Tests.{log, as_is, ctx}
use procwire_rust.Client.Dispatch.{
  Running, Event, arrives, completes, frees, start, dispatch_frame, run, context_of,
}
use procwire_rust.Client.Dispatch.Permits.{run-permits}
use procwire_rust.Client.Dispatch.Abort.{dispatch_frame-abort}
use procwire_rust.Protocol.Frame.{Frame}
use procwire_rust.Handler.Registry.Ids.{event}
use procwire_rust.Client.Emit.{Emits, emit, emit_raw, emit-Emits}
use procwire_rust.Protocol.Wire.{absolute_max_payload_size, Header}
use procwire_rust.Error.{protocol, payload_exceeds_absolute, msgpack_decode}
use procwire_rust.Base.{◌≢◌, ◌⊎◌, inl}
use procwire_rust.Client.Dispatch.Tokens.{OthersUnused}
use procwire_rust.Codec.{RmpSerde}
use procwire_rust.Handler.Context.{RequestContext, Shared, with_writer, respond_raw}
use procwire_rust.Handler.Registry.{get_handler_by_id, register}
use procwire_rust.Handler.Typed.{HandlerResult, Handler, typed_handler}
use procwire_rust.Client.Dispatch.Request.{IsRefused, handle_request, handle_request-IsRefused}
use procwire_rust.Client.Builder.Limits.{
  Setting, with_handler, with_payload_limit, with_event, configure, registrations, configure_lem,
}
use procwire_rust.Client.Auth.{Read, bytes, closed, constant_time_eq, run_auth_handshake}
use procwire_rust.Client.Auth.Equality.{constant_time_eq_iff}
use procwire_rust.Client.Auth.Adoption.{Proved, run_auth_handshake-Proved}

abbrev token : List ℕ
token = 115 ∷ 51 ∷ []

constant_time_eq_iff_example :
    (constant_time_eq token (115 ∷ 52 ∷ []) ≡ true) ↔ (token ≡ 115 ∷ 52 ∷ [])
constant_time_eq_iff_example =
    constant_time_eq_iff token (115 ∷ 52 ∷ []) (omega arith) (omega arith)

-- The frame of authentication in two reads, with the first bytes of another frame behind it.
abbrev reads : List Read
reads =
    bytes (0xFF ∷ 0xFE ∷ 0 ∷ 0 ∷ 0 ∷ 0 ∷ 0 ∷ 0 ∷ 0 ∷ 0 ∷ 2 ∷ 115 ∷ [])
    ∷ bytes (51 ∷ 0 ∷ 1 ∷ [])
    ∷ closed
    ∷ []

abbrev left_over : FrameBuffer
left_over = record (with_max_payload 100) { buffer = 0 ∷ 1 ∷ [] }

run_auth_handshake-Proved_example : Proved token 100 [] reads left_over [] (closed ∷ [])
unfolding run_auth_handshake push extract_all try_extract_one decode validate
run_auth_handshake-Proved_example =
    run_auth_handshake-Proved token (omega arith) 100 left_over [] reads (closed ∷ []) (omega arith)
      refl

abbrev registry : HandlerRegistry ℕ
registry = register_all (method "echo" result 10 ∷ [])

-- A request for the method 1, and an ABORT, under an id.
abbrev request : ℕ → Frame
request id = record {
  header = record { method_id = 1; flags = 0; request_id = id; payload_length = 0 };
  payload = [];
}

abbrev abort_of : ℕ → Frame
abort_of id = record {
  header = record { method_id = 0xFFFF; flags = 0; request_id = id; payload_length = 0 };
  payload = [];
}

abbrev events : List Event
events = arrives (request 7) ∷ arrives (request 8) ∷ completes 0 ∷ frees ∷ arrives (request 9) ∷ []

run-permits_example :
    ((run registry (start 2) events).permits
        + length (run registry (start 2) events).running
        + (run registry (start 2) events).ending
      ≡ 2)
    × (length (run registry (start 2) events).running ≤ 2)
run-permits_example = run-permits registry 2 events

abbrev task_seven : Running
task_seven = record { context = context_of registry (request 7); token = 0; payload = [] }

dispatch_frame-abort_example :
    (dispatch_frame registry (run registry (start 2) events) (abort_of 7)
      ≡ record (run registry (start 2) events) {
        cancelled = 0 ∷ (run registry (start 2) events).cancelled;
      })
    × OthersUnused 1 0 (run registry (start 2) events).running
unfolding run is_response
dispatch_frame-abort_example =
    dispatch_frame-abort registry 2 events (abort_of 7) 1 task_seven
      (inr tt, (inr (omega arith, tt), (tt, (tt, (inr (omega arith, tt), tt))))) refl refl refl

-- A task that has removed its entry still holds its permit: with a limit of one, the next request is
-- dropped.
still_held :
    (run registry
      (start 1)
      (arrives (request 7) ∷ completes 0 ∷ arrives (request 8) ∷ frees ∷ [])).running
    ≡ []
unfolding run is_response
still_held = refl

-- Two requests under one id: the end of the first removes the entry of the second, and its ABORT is
-- lost.
abort_lost :
    (run registry (start 2) (
      arrives (request 7)
      ∷ arrives (request 7)
      ∷ completes 1
      ∷ arrives (abort_of 7)
      ∷ [])).cancelled
    ≡ []
unfolding run is_response lookup insert remove
abort_lost = refl

abbrev ticking : HandlerRegistry ℕ
ticking = register_all (event "tick" ∷ [])

emit-Emits_example :
    Emits ticking log "tick" (as_is (5 ∷ [])) [] (emit ticking log as_is "tick" (5 ∷ []) [])
    × Emits ticking log "tick" (ok (6 ∷ [])) [] (emit_raw ticking log "tick" (6 ∷ []) [])
emit-Emits_example = emit-Emits ticking log as_is "tick" (5 ∷ []) (6 ∷ []) []

abbrev settings : List (Setting ℕ)
settings = with_payload_limit 4_000_000_000 ∷ with_event "tick" ∷ with_handler "echo" 10 ∷ []

configure_lem_example :
    ((configure settings).registry ≡ register_all (registrations settings))
    × ((configure settings).max_payload_size ≤ absolute_max_payload_size)
    × ((h : Header) (n : ℕ)
        → validate h (configure settings).max_payload_size
          ≢ err (protocol (payload_exceeds_absolute n)))
configure_lem_example = configure_lem settings

-- A codec of one byte, and a handler that sends its value back.
abbrev byte_slice : List ℕ → ℕ ⊎ ℕ
byte_slice (b ∷ []) = inl b
byte_slice _ = inr 1

abbrev one_byte : RmpSerde ℕ
one_byte = record { to_vec_named = λ n. inl (n ∷ []); from_slice = byte_slice }

echo : ℕ → RequestContext → Shared (List OutboundFrame) → HandlerResult (List OutboundFrame)
echo v ctx s = respond_raw log ctx (v ∷ []) s

abbrev typed_registry : HandlerRegistry (Handler (List OutboundFrame))
typed_registry = register_all (method "echo" result (typed_handler one_byte echo) ∷ [])

abbrev echo_ctx : RequestContext
echo_ctx = with_writer 1 7

handle_request-IsRefused_example :
    IsRefused log as_is
      (λ e. [])
      typed_registry
      echo_ctx
      (5 ∷ 6 ∷ [])
      refl
      one_byte
      (fresh [])
      []
      (handle_request log as_is (λ e. []) typed_registry echo_ctx (5 ∷ 6 ∷ []) (fresh []))
unfolding get_handler_by_id lookup register insert
handle_request-IsRefused_example =
    handle_request-IsRefused log as_is (λ e. []) typed_registry echo_ctx (5 ∷ 6 ∷ []) refl one_byte
      (fresh []) (some echo) (msgpack_decode 1) [] refl refl refl (λ x f. refl) refl
