-- ===== src/EndToEnd/Tests.antt =====
-- The way of one frame from a handle to a frame buffer.
use procwire_rust.Base.{ℕ, ◌≡◌, refl, List, [], ◌∷◌, arith}
use procwire_rust.Error.{ok}
use procwire_rust.Protocol.Wire.{encode, decode, validate}
use procwire_rust.Protocol.Frame.{Frame}
use procwire_rust.Protocol.FrameBuffer.{with_max_payload, push, extract_all, try_extract_one}
use procwire_rust.Protocol.FrameBuffer.Sound.{IsFrame}
use procwire_rust.Protocol.FrameBuffer.Reassembly.{push_all}
use procwire_rust.Writer.Defs.{OutboundFrame, new}
use procwire_rust.Writer.Pipeline.{System, Reach, start, loop_step, count_off, receiving}
use procwire_rust.Writer.Tests.{frame, trickle}
use procwire_rust.Writer.PipelineTests.{two, at_end, run_two}
use procwire_rust.EndToEnd.{sent-received}
use procwire_rust.EndToEnd.Session.{Received, session-Received}
use procwire_rust.Writer.Pipeline.Progress.{LoopRun, IsAtRest}
use procwire_rust.Base.{concat, ap, ◌⊎◌}
use procwire_rust.Writer.Pipeline.{returned}
use procwire_rust.Error.{err, ProcwireError}
use procwire_rust.Client.Session.Tests.{
  registrations, request as request_frame, answered, run_answered,
}
use procwire_rust.Handler.Tests.{log, as_is}

abbrev hello : Frame
hello = record {
  header = record { method_id = 1; flags = 3; request_id = 42; payload_length = 2 };
  payload = 104 ∷ 105 ∷ [];
}

hello-IsFrame : IsFrame 100 hello
hello-IsFrame = record {
  in_range = omega arith;
  contract = omega arith;
  payload_bytes = omega arith;
  payload_length_true = refl;
}

abbrev drained : System (List OutboundFrame) (List ℕ)
drained = record at_end { loop = receiving; pending = 0; batch = []; done = frame ∷ [] }

run_drained : Reach two trickle 1 (start two trickle 1 2 [] []) drained
run_drained = loop_step run_two (count_off refl)

sent-received_example :
    push_all
      (with_max_payload 100)
      ((0 ∷ 1 ∷ 3 ∷ 0 ∷ 0 ∷ []) ∷ (0 ∷ 42 ∷ 0 ∷ 0 ∷ 0 ∷ 2 ∷ 104 ∷ 105 ∷ []) ∷ [])
    ≡ (ok (hello ∷ []), with_max_payload 100)
unfolding new encode
sent-received_example =
    sent-received two trickle 1 100 2 [] [] drained (hello ∷ [])
      ((0 ∷ 1 ∷ 3 ∷ 0 ∷ 0 ∷ []) ∷ (0 ∷ 42 ∷ 0 ∷ 0 ∷ 0 ∷ 2 ∷ 104 ∷ 105 ∷ []) ∷ []) refl refl
      run_drained (record { no_batch = refl; none_lost = refl; no_queue = refl }) refl
      (hello-IsFrame, tt) refl (omega arith)

-- The request in two reads.
abbrev asked_reads : List (List ℕ)
asked_reads = (0 ∷ 1 ∷ 0 ∷ 0 ∷ 0 ∷ []) ∷ (0 ∷ 42 ∷ 0 ∷ 0 ∷ 0 ∷ 0 ∷ []) ∷ []

-- Every byte by itself.
singles : List ℕ → List (List ℕ)
singles [] = []
singles (b ∷ bytes) = (b ∷ []) ∷ singles bytes

concat-singles : (bytes : List ℕ) → concat (singles bytes) ≡ bytes
unfolding singles
concat-singles [] = refl
concat-singles (b ∷ bytes) = ap (λ bs. b ∷ bs) (concat-singles bytes)

session-Received_example :
    (u : System (List OutboundFrame) (List ℕ)) × LoopRun two trickle 1 at_end u
    × IsAtRest two trickle 1 u
    × (((e : ProcwireError) × (u.loop ≡ returned (err e)))
        ⊎ Received 100 (request_frame ∷ []) (singles u.sink))
unfolding push extract_all try_extract_one decode validate
session-Received_example =
    session-Received log as_is two trickle 1 registrations 100 2 100 2 [] [] [] asked_reads
      (request_frame ∷ []) (with_max_payload 100) answered at_end singles (omega arith) refl
      (omega arith) refl run_answered refl refl run_two (λ r e. absurd (cc)) refl
      (
        record {
          payload_bytes = omega arith;
          within_maximum = omega arith;
          within_absolute = omega arith;
        },
        tt,
      )
      concat-singles
