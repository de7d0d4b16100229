-- ===== src/Handler/Tests.antt =====
-- src/handler: the theorems at inputs that meet their hypotheses.
use procwire_rust.Base.{ℕ, suc, ◌+◌, ◌≤◌, ◌≡◌, refl, List, [], ◌∷◌, ◌++◌, arith, true, false}
use procwire_rust.Base.Tasks.{first}
use procwire_rust.Error.{Result, ok, err, ProcwireError}
use procwire_rust.Writer.Defs.{OutboundFrame}
use procwire_rust.Control.Init.{get_method, result, stream, MethodSchema}
use procwire_rust.Handler.Context.{
  FrameSender, RequestContext, with_writer, fresh, mark_responded, hand_over, respond_bytes,
  chunk_bytes, run, finish,
}
use procwire_rust.Handler.Context.Frames.{Answers, answer, run-Answers}
use procwire_rust.Handler.Context.Once.{
  System, Reach, here, next, mark, send_chunk, send_terminal, start, terminal_frames, Reach-Once,
  idle,
}
use procwire_rust.Handler.Registry.{register, register_event, build_schema}
use procwire_rust.Handler.Registry.Ids.{Registration, method, event, register_all}
use procwire_rust.Handler.Registry.WalkOrder.{view, build_schema-view}
use procwire_rust.Handler.Registry.{MethodEntry}
use procwire_rust.Base.Assoc.{Map, insert}
use Prim.Native.String.{String}
use mathlib.Core.List.{Permᴰ}
use procwire_rust.Handler.Registry.Announce.{Answers as Announced, build_schema-Answers}

-- A writer that accepts all frames; its state is what it has accepted.
pub log-accepts :
    (s s' : List OutboundFrame) (f : OutboundFrame)
    → ◌≡◌ {A = Result (Unit {0}) × List OutboundFrame} (ok tt, s ++ (f ∷ [])) (ok tt, s')
    → s' ≡ s ++ (f ∷ [])
log-accepts s s' f e = cc

pub log-refuses :
    (s s' : List OutboundFrame) (f : OutboundFrame) (e : ProcwireError)
    → ◌≡◌ {A = Result (Unit {0}) × List OutboundFrame} (ok tt, s ++ (f ∷ [])) (err e, s')
    → s' ≡ s
log-refuses s s' f e h = cc

abbrev pub log : FrameSender (List OutboundFrame)
log = record {
  send = λ fs f. (ok tt, fs ++ (f ∷ []));
  accepted = λ fs. fs;
  send_accepts = log-accepts;
  send_refuses = log-refuses;
}

abbrev pub ctx : RequestContext
ctx = with_writer 3 42

abbrev pub as_is : List ℕ → Result (List ℕ)
as_is bytes = ok bytes

run-Answers_example :
    Answers log as_is ctx
      (respond_bytes (7 ∷ []))
      (fresh [])
      (run log as_is ctx (respond_bytes (7 ∷ [])) (fresh []))
run-Answers_example = run-Answers log as_is ctx (respond_bytes (7 ∷ [])) (fresh []) refl

abbrev at_end : System (List OutboundFrame) (List ℕ)
at_end = record {
  shared = record {
    responded = true;
    cancelled = false;
    writer = answer ctx 11 (7 ∷ []) ∷ answer ctx 27 [] ∷ [];
  };
  tasks = idle ∷ idle ∷ [];
}

-- One task marks the stream as ended, the other still sends a chunk, and then the end goes out.
run_two : Reach log as_is ctx (start log as_is ctx 2 []) at_end
unfolding mark_responded hand_over
run_two =
    next
      (next (next here (mark finish refl refl first))
        (send_chunk (chunk_bytes (7 ∷ [])) (7 ∷ []) refl refl))
      (send_terminal finish [] refl first)

Reach-Once_example :
    (terminal_frames at_end.shared.writer ≤ suc (terminal_frames []))
    × (at_end.shared.responded ≡ false → terminal_frames at_end.shared.writer ≤ terminal_frames [])
Reach-Once_example = Reach-Once log as_is ctx 2 [] at_end run_two

abbrev registrations : List (Registration ℕ)
registrations = method "count" stream 20 ∷ event "tick" ∷ method "echo" result 10 ∷ []

abbrev count_schema : MethodSchema
count_schema = record { id = 2; response = stream }

abbrev counted_calls : ℕ → ℕ → Result (Unit {0}) × ℕ
counted_calls handler s = (ok tt, s + handler)

build_schema-Answers_example :
    Announced counted_calls (register_all registrations) "count" count_schema
unfolding build_schema register get_method register_event
build_schema-Answers_example =
    build_schema-Answers counted_calls registrations "count" count_schema (omega arith) refl

abbrev two_methods : List (Registration ℕ)
two_methods = method "a" result 10 ∷ method "b" stream 20 ∷ []

-- The map of the methods, walked from the other end.
abbrev other_way : Map String (MethodEntry ℕ)
other_way =
    ("a", record { handler = 10; response_type = result; id = 2 })
    ∷ ("b", record { handler = 20; response_type = stream; id = 1 })
    ∷ []

build_schema-view_example :
    view (build_schema (record (register_all two_methods) { methods = other_way; events = [] }))
    ≡ view (build_schema (register_all two_methods))
unfolding register insert
build_schema-view_example =
    build_schema-view two_methods other_way [] (Permᴰ.swap refl refl) Permᴰ.nil
