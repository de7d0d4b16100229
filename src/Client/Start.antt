-- ===== src/Client/Start.antt =====
-- src/client.rs, `start` and what follows it: the pipe is bound and announced, connections are taken
-- until one is adopted, and the read loop runs on that one. What the accepts of the listener bring is
-- the list of arrivals; the spawn of the control thread is its result.
pub mod Serves
pub mod Shutdown
mod Tests
use procwire_rust.Base.{ℕ, Bool, true, false, ◌||◌, Option, none, some, List, [], ◌∷◌}
use procwire_rust.Error.{Result, ok, err, ProcwireError}
use procwire_rust.Protocol.Frame.{Frame}
use procwire_rust.Protocol.FrameBuffer.{FrameBuffer, with_max_payload}
use procwire_rust.Control.Json.{Json}
use procwire_rust.Control.Init.Message.{build_init_message}
use procwire_rust.Control.Stdio.{Stdout, write_stdout_line}
use procwire_rust.Handler.Registry.{HandlerRegistry, build_schema}
use procwire_rust.Transport.Path.{Env, Process, generate_pipe_path}
use procwire_rust.Transport.Unix.{Os, PipeListener, bind, drop_listener}
use procwire_rust.Client.Auth.{AuthOutcome, adopted, rejected, Read, run_auth_handshake}
use procwire_rust.Client.ReadLoop.{read_loop}

-- What `accept` brings: a connection with what its reads will bring, or an error.
pub data Arrival : Type 0 where
  connects : List Read → Arrival
  accept_failed : ProcwireError → Arrival

-- What the accept loop breaks with: the reader, the frame buffer and the initial frames.
pub record Connection : Type 0 where
  pub reads : List Read
  pub frame_buffer : FrameBuffer
  pub initial_frames : List Frame

-- Step 6; no result is a loop that still waits, for a connection or for bytes of the one it holds.
unfoldable pub accept_loop :
    Option (List ℕ) → ℕ → List Arrival → Option (Result Connection × List Arrival)
accept_loop auth_token max_payload_size [] = none
accept_loop auth_token max_payload_size (accept_failed e ∷ arrivals) = some (err e, arrivals)
accept_loop none max_payload_size (connects reads ∷ arrivals) = some (
  ok (record {
    reads = reads;
    frame_buffer = with_max_payload max_payload_size;
    initial_frames = [];
  }),
  arrivals,
)
accept_loop (some token) max_payload_size (connects reads ∷ arrivals) =
    elim (run_auth_handshake token max_payload_size reads) [
      | none ↦ none
      | some (adopted fb frames, left) ↦
          some (ok (record { reads = left; frame_buffer = fb; initial_frames = frames }), arrivals)
      | some (rejected, left) ↦ accept_loop (some token) max_payload_size arrivals
    ]

-- `S` is the file system with the sockets, `O` stdout.
pub record World (S O : Type 0) : Type 0 where
  pub transport : S
  pub stdout : O
  pub process : Process
  -- whether the thread of the control plane runs
  pub control_reader : Bool
  pub arrivals : List Arrival

-- A client that has started: what its read loop goes on with, its registry and its shutdown token.
pub record Client (H : Type 0) : Type 0 where
  pub registry : HandlerRegistry H
  pub connection : Connection
  pub max_concurrent_handlers : ℕ

pub record Settings (H : Type 0) : Type 0 where
  pub registry : HandlerRegistry H
  pub max_concurrent_handlers : ℕ
  pub max_payload_size : ℕ
  pub auth_token : Option (List ℕ)

module _ {S L C O H : Type 0} (os : Os S L C) (out : Stdout O) (J : Json)
    (settings : Settings H) where
  -- A return of `start` drops the listener.
  abbrev pub returns :
      PipeListener L → Result (Client H) → World S O → Option (Result (Client H)) × World S O
  returns l r w = (some r, record w { transport = drop_listener os l w.transport })

  -- Steps 7 to 10, behind the loop.
  abbrev pub adopt :
      PipeListener L
      → World S O
      → Option (Result Connection × List Arrival)
      → Option (Result (Client H)) × World S O
  adopt l w none = (none, record w { arrivals = [] })
  adopt l w (some (err e, arrivals)) = returns l (err e) (record w { arrivals = arrivals })
  adopt l w (some (ok connection, arrivals)) =
      let client : Client H = record {
        registry = settings.registry;
        connection = connection;
        max_concurrent_handlers = settings.max_concurrent_handlers;
      } in
      returns l (ok client) (record w { arrivals = arrivals })

  -- Step 5, and the loop.
  abbrev pub control :
      PipeListener L → World S O → Result (Unit {0}) → Option (Result (Client H)) × World S O
  control l w (err e) = returns l (err e) w
  control l w (ok _) =
      adopt l (record w { control_reader = true })
        (accept_loop settings.auth_token settings.max_payload_size w.arrivals)

  -- Step 4.
  abbrev pub announced :
      Result (Unit {0})
      → PipeListener L
      → World S O
      → Result (Unit {0}) × O
      → Option (Result (Client H)) × World S O
  announced spawned l w (err e, stdout) = returns l (err e) (record w { stdout = stdout })
  announced spawned l w (ok _, stdout) = control l (record w { stdout = stdout }) spawned

  -- Steps 3 and 4, behind the bind.
  abbrev pub listening :
      Result (Unit {0})
      → List ℕ
      → World S O
      → Result (PipeListener L) × S
      → Option (Result (Client H)) × World S O
  listening spawned path w (err e, transport) = (some (err e), record w { transport = transport })
  listening spawned path w (ok l, transport) =
      let message = build_init_message J path (build_schema settings.registry) in
      announced spawned l (record w { transport = transport })
        (write_stdout_line out message w.stdout)

  unfoldable pub start :
      Env → Option ℕ → Result (Unit {0}) → World S O → Option (Result (Client H)) × World S O
  unfolding bind generate_pipe_path build_schema build_init_message write_stdout_line accept_loop
      drop_listener
  start env now spawned w =
      let (pipe_path, process) = generate_pipe_path env now w.process in
      listening spawned pipe_path (record w { process = process }) (bind os pipe_path w.transport)

-- The task of step 10, with `dispatch` as the effect of `dispatch_frame`.
unfoldable pub serve :
    {H R : Type 0} → (R → Frame → R) → Client H → R → Option (Result (Unit {0})) × R
unfolding read_loop
serve dispatch client s =
    read_loop dispatch s client.connection.frame_buffer client.connection.initial_frames
      client.connection.reads

-- Whether the read loop has ended: its task sends on `shutdown_tx` then, error or not.
abbrev pub read_loop_ended : Option (Result (Unit {0})) → Bool
read_loop_ended none = false
read_loop_ended (some r) = true

-- Whether `wait_for_shutdown` has resolved, by the read loop and by the token.
abbrev pub wait_for_shutdown : Option (Result (Unit {0})) → Bool → Bool
wait_for_shutdown ended cancelled = read_loop_ended ended || cancelled
