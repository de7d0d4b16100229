-- ===== src/Client/Start/Serves.antt =====
-- The parent is adopted behind any strangers, and its frames are dispatched in order.
use procwire_rust.Base.{
  ℕ, true, ◌≡◌, refl, sym, ap, ◌∙◌, Option, none, some, List, [], ◌∷◌, ◌++◌, All, map, concat,
  subst, All-map,
}
use procwire_rust.Error.{Result, ok}
use procwire_rust.Protocol.Wire.{IsByte}
use procwire_rust.Protocol.Frame.{Frame}
use procwire_rust.Protocol.FrameBuffer.{with_max_payload}
use procwire_rust.Protocol.FrameBuffer.Sound.{IsFrame, stream}
use procwire_rust.Protocol.FrameBuffer.Reassembly.{push_all-stream}
use procwire_rust.Control.Json.{Json}
use procwire_rust.Control.Init.Message.{build_init_message}
use procwire_rust.Control.Stdio.{Stdout}
use procwire_rust.Control.Stdio.Steady.{IsSteady, write_stdout_line_steady}
use procwire_rust.Control.Stdin.Lines.{end_line}
use procwire_rust.Handler.Registry.{build_schema}
use procwire_rust.Transport.Path.{Env, generate_pipe_path}
use procwire_rust.Transport.Unix.{Os, PipeListener, bind}
use procwire_rust.Client.Auth.{
  adopted, rejected, Read, bytes, closed, handshake, run_auth_handshake,
}
use procwire_rust.Client.Auth.Completeness.{Proves, Unproved, handshake-refuses, handshake-Passes}
use procwire_rust.Client.ReadLoop.{dispatch_all, read_all, read_loop}
use procwire_rust.Client.ReadLoop.Order.{Ends, read_all-Ends, dispatch_all-append, read_loop-stream}
use procwire_rust.Client.Start.{
  Arrival, connects, Connection, accept_loop, World, Client, Settings, returns, adopt, announced,
  listening, start, serve,
}

-- What the parent sends first.
abbrev pub Greets : Option (List ℕ) → List Frame → Type 0
Greets none greeting = greeting ≡ []
Greets (some token) greeting =
    (first : Frame) × (greeting ≡ first ∷ []) × Proves token first × All IsByte token

-- The reads of a connection on which the frames are sent, in any cut, until the peer closes it.
abbrev pub Sends : ℕ → List Frame → List (List ℕ) → Type 0
Sends m fs cuts = All (IsFrame m) fs × (concat cuts ≡ stream fs) × All (All IsByte) cuts

abbrev pub reads_of : List (List ℕ) → List Read
reads_of cuts = map bytes cuts ++ (closed ∷ [])

-- A stranger whose frames keep the wire contract, and whose first one does not prove the token; it may
-- also close without a frame. Without a token there is none.
abbrev pub IsStranger : Option (List ℕ) → ℕ → List Read → Type 0
IsStranger none m reads = ⊥
IsStranger (some token) m reads =
    (gs : List Frame) × (cuts : List (List ℕ)) × (reads ≡ reads_of cuts)
    × Sends m gs cuts
    × Unproved token gs
    × All IsByte token

abbrev pub Dispatches : {R : Type 0} → (R → Frame → R) → R → Connection → List Frame → Type 0
Dispatches dispatch s c fs =
    read_loop dispatch s c.frame_buffer c.initial_frames c.reads
    ≡ (some (ok tt), dispatch_all dispatch s fs)

module _ {R : Type 0} (dispatch : R → Frame → R) (s : R) (m : ℕ) where
  -- A handshake that passes leaves the read loop all frames behind the first.
  handshake-Dispatches :
      (token : List ℕ) (first : Frame) (fs : List Frame) (cuts : List (List ℕ))
      → Proves token first
      → All IsByte token
      → Sends m (first ∷ fs) cuts
      → (c : Connection) × (run_auth_handshake token m (reads_of cuts)
          ≡ some (adopted c.frame_buffer c.initial_frames, c.reads))
        × Dispatches dispatch s c fs
  unfolding run_auth_handshake read_loop
  handshake-Dispatches token first fs cuts p token_bytes (valid, same, are_bytes) =
      let (fb, frames, left, gs, passed, rest, all) =
        handshake-Passes token token_bytes (with_max_payload m) cuts first fs (with_max_payload m) p
          (push_all-stream m (first ∷ fs) cuts valid same are_bytes) in
      let s' = dispatch_all dispatch s frames in
      let loop = read_all dispatch s' fb (reads_of left) in
      (
        record { reads = reads_of left; frame_buffer = fb; initial_frames = frames },
        passed,
        subst (λ r. Ends dispatch s' r loop) rest (read_all-Ends dispatch s' fb left)
            ∙ ap (λ t. (some (ok tt), t))
                (sym (dispatch_all-append dispatch s frames gs) ∙ ap (dispatch_all dispatch s) all),
      )

  stranger-refused :
      (token : List ℕ) (reads : List Read) (gs : List Frame) (cuts : List (List ℕ))
      → reads ≡ reads_of cuts
      → Sends m gs cuts
      → Unproved token gs
      → All IsByte token
      → (left : List Read) × (run_auth_handshake token m reads ≡ some (rejected, left))
  unfolding run_auth_handshake
  stranger-refused token reads gs cuts e (valid, same, are_bytes) fails token_bytes =
      let (left, refused) =
        handshake-refuses token token_bytes (with_max_payload m) cuts gs (with_max_payload m) fails
          (All-map (IsFrame m) (λ g. All IsByte g.payload) gs (λ g f. f.payload_bytes) valid)
          (push_all-stream m gs cuts valid same are_bytes) in
      (left, ap (λ rs. handshake token (with_max_payload m) rs) e ∙ refused)

  accept_loop-Dispatches :
      (auth_token : Option (List ℕ)) (strangers : List (List Read)) (greeting fs : List Frame)
      (cuts : List (List ℕ)) (later : List Arrival)
      → All (IsStranger auth_token m) strangers
      → Greets auth_token greeting
      → Sends m (greeting ++ fs) cuts
      → (c : Connection) × (accept_loop auth_token m
            (map connects strangers ++ (connects (reads_of cuts) ∷ later))
          ≡ some (ok c, later))
        × Dispatches dispatch s c fs
  unfolding accept_loop
  accept_loop-Dispatches none [] greeting fs cuts later refused greets sends =
      let (valid, same, are_bytes) = subst (λ g. Sends m (g ++ fs) cuts) greets sends in
      (_, refl, read_loop-stream dispatch s m [] fs cuts valid same are_bytes)
  accept_loop-Dispatches none (stranger ∷ strangers) greeting fs cuts later (refused, more) greets
        sends =
      absurd refused
  accept_loop-Dispatches (some token) [] greeting fs cuts later refused (first, e, p, token_bytes)
        sends =
      let (c, passed, dispatches) =
        handshake-Dispatches token first fs cuts p token_bytes
          (subst (λ g. Sends m (g ++ fs) cuts) e sends) in
      (c, rw (passed, accept_loop) refl, dispatches)
  accept_loop-Dispatches (some token) (stranger ∷ strangers) greeting fs cuts later
        ((gs, own_cuts, same, sent, fails, own_token), more) greets sends =
      let (left, refused) = stranger-refused token stranger gs own_cuts same sent fails own_token in
      let (c, passed, dispatches) =
        accept_loop-Dispatches (some token) strangers greeting fs cuts later more greets sends in
      (c, rw (refused, accept_loop) passed, dispatches)

module _ {S L C O H R : Type 0} (os : Os S L C) (out : Stdout O) (J : Json) (settings : Settings H)
    (dispatch : R → Frame → R) (s : R) where
  open settings use {registry, max_payload_size, auth_token}

  -- A client that has started and served the frames, and the world that `start` leaves.
  pub record Served (w : World S O) (path : List ℕ) (fs : List Frame) (later : List Arrival)
      (r : Option (Result (Client H)) × World S O) : Type 0 where
    pub client : Client H
    pub started : r.0 ≡ some (ok client)
    pub own_registry : client.registry ≡ registry
    pub dispatched : serve dispatch client s ≡ (some (ok tt), dispatch_all dispatch s fs)
    pub told :
        out.written r.1.stdout
        ≡ out.written w.stdout ++ end_line (build_init_message J path (build_schema registry))
    pub control : r.1.control_reader ≡ true
    pub waiting : r.1.arrivals ≡ later

  -- Where the pipe can be bound, stdout takes all writes and the control thread starts, `start`
  -- announces the schema of the registry and the pipe in one line, refuses any number of strangers
  -- whose first frame does not prove the token, and adopts the parent, which does; the frames that
  -- the parent sends behind it, in any cut, are then dispatched in order until the parent closes.
  -- Without a token there are no strangers, and the parent sends its frames at once.
  pub start-Served :
      (env : Env) (now : Option ℕ) (w : World S O) (l : PipeListener L) (t : S)
      (strangers : List (List Read)) (greeting fs : List Frame) (cuts : List (List ℕ))
      (later : List Arrival)
      → bind os (generate_pipe_path env now w.process).0 w.transport ≡ (ok l, t)
      → IsSteady out
      → w.arrivals ≡ map connects strangers ++ (connects (reads_of cuts) ∷ later)
      → All (IsStranger auth_token max_payload_size) strangers
      → Greets auth_token greeting
      → Sends max_payload_size (greeting ++ fs) cuts
      → Served w
          (generate_pipe_path env now w.process).0
          fs
          later
          (start os out J settings env now (ok tt) w)
  unfolding start serve
  start-Served env now w l t strangers greeting fs cuts later bound steady arrive refused greets
        sends =
      let path = (generate_pipe_path env now w.process).0 in
      let message = build_init_message J path (build_schema registry) in
      let (o, wrote, written) = write_stdout_line_steady out steady message w.stdout in
      let (c, accepted, dispatches) =
        accept_loop-Dispatches dispatch s max_payload_size auth_token strangers greeting fs cuts
          later refused greets sends in
      let w1 : World S O = record w { process = (generate_pipe_path env now w.process).1 } in
      let w2 : World S O = record w1 { transport = t } in
      let w3 : World S O = record w2 { stdout = o } in
      let w4 : World S O = record w3 { control_reader = true } in
      let client : Client H = record {
        registry = registry;
        connection = c;
        max_concurrent_handlers = settings.max_concurrent_handlers;
      } in
      let ends : start os out J settings env now (ok tt) w
          ≡ returns os out J settings l (ok client) (record w4 { arrivals = later }) =
        ap (listening os out J settings (ok tt) path w1) bound
        ∙ ap (announced os out J settings (ok tt) l w2) wrote
        ∙ ap
            (λ arrivals.
              adopt os out J settings l w4 (accept_loop auth_token max_payload_size arrivals))
            arrive
        ∙ ap (adopt os out J settings l w4) accepted in
      subst (Served w path fs later) (sym ends) (record {
        client = client;
        started = refl;
        own_registry = refl;
        dispatched = dispatches;
        told = written;
        control = refl;
        waiting = refl;
      })
