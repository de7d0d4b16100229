-- ===== src/Client/Session/Tests.antt =====
-- A session in which one request arrives and is answered.
use procwire_rust.Base.{ℕ, refl, List, [], ◌∷◌, true}
use procwire_rust.Base.Tasks.{first}
use procwire_rust.Protocol.Frame.{Frame}
use procwire_rust.Protocol.Header.{is_response}
use procwire_rust.Protocol.Wire.{has_flag, encode}
use procwire_rust.Writer.Defs.{OutboundFrame, new}
use procwire_rust.Control.Init.{result}
use procwire_rust.Base.Assoc.{lookup, insert}
use procwire_rust.Writer.Tests.{frame}
use procwire_rust.Base.{All, arith}
use procwire_rust.Protocol.FrameBuffer.Sound.{IsFrame}
use procwire_rust.Client.Session.Typed.{IsTyped, Reach-IsTyped}
use procwire_rust.Handler.Context.{
  with_writer_and_token, Operation, respond_bytes, mark_responded, hand_over,
}
use procwire_rust.Handler.Context.Once.{idle, mark, send_terminal}
use procwire_rust.Handler.Registry.{
  HandlerRegistry, get_response_type_by_id, register, entry_by_name, get_method_name,
}
use procwire_rust.Handler.Registry.Ids.{Registration, method, register_all}
use procwire_rust.Handler.Tests.{log, as_is}
use procwire_rust.Client.Dispatch.{dispatch_frame, spawn}
use procwire_rust.Client.Session.{Session, start, arrive, Reach, here, arrives, moves, uses}

abbrev pub registrations : List (Registration ℕ)
registrations = method "echo" result 10 ∷ []

abbrev pub registry : HandlerRegistry ℕ
registry = register_all registrations

abbrev pub request : Frame
request = record {
  header = record { method_id = 1; flags = 0; request_id = 42; payload_length = 0 };
  payload = [];
}

abbrev pub arrived : Session (List OutboundFrame) (List ℕ)
arrived = arrive registry log as_is request 1 (start 2 [])

abbrev greeting : Operation (List ℕ)
greeting = respond_bytes (104 ∷ 105 ∷ [])

run_arrived : Reach registry log as_is (start 2 []) (request ∷ []) arrived
run_arrived = arrives here request 1

-- The handler's task has responded.
abbrev pub answered : Session (List OutboundFrame) (List ℕ)
answered = record {
  runtime = arrived.runtime;
  flights =
      record {
        context = with_writer_and_token 1 42 result;
        token = 0;
        responded = true;
        tasks = idle ∷ [];
      }
      ∷ [];
  writer = frame ∷ [];
}

pub run_answered : Reach registry log as_is (start 2 []) (request ∷ []) answered
unfolding arrive dispatch_frame spawn is_response has_flag get_response_type_by_id register insert
    lookup mark_responded hand_over new encode entry_by_name get_method_name
run_answered =
    moves (moves (arrives here request 1) (uses (mark greeting refl refl first) first))
      (uses (send_terminal greeting (104 ∷ 105 ∷ []) refl first) first)

request-IsFrame : IsFrame 100 request
request-IsFrame = record {
  in_range = omega arith;
  contract = omega arith;
  payload_bytes = tt;
  payload_length_true = refl;
}

Reach-IsTyped_example : All IsTyped (frame ∷ [])
Reach-IsTyped_example =
    Reach-IsTyped log as_is registrations 100 2 [] (request ∷ []) answered (omega arith) refl
      (request-IsFrame, tt) run_answered
