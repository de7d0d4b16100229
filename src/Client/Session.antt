-- ===== src/Client/Session.antt =====
-- src/client.rs and src/handler/context.rs together: a client at work. Frames arrive and start handler
-- tasks, tasks use their contexts, end, and emit events, in any order, and all of them send through one
-- writer.
pub mod Weights
pub mod Flights
pub mod Answered
pub mod Arrivals
pub mod Requests
pub mod Events
pub mod Account
pub mod Typed
pub mod Tests
use procwire_rust.Base.{
  ℕ, some, get_elem?, ◌==◌, ◌≡◌, Bool, List, [], ◌∷◌, ◌++◌, if◌then◌else◌, replicate,
}
use procwire_rust.Base.Tasks.{Moves}
use procwire_rust.Error.{Result}
use procwire_rust.Protocol.Frame.{Frame}
use procwire_rust.Handler.Context.{FrameSender, RequestContext}
use procwire_rust.Handler.Context.Once as Once
use procwire_rust.Handler.Context.Once.{Task, idle}
use procwire_rust.Handler.Registry.{HandlerRegistry, get_event_id}
use procwire_rust.Client.Dispatch.{Runtime, context_of, dispatch_frame, complete, drop_permit}
use procwire_rust.Client.Dispatch as Dispatch
use procwire_rust.Client.Emit.{emit_payload}
use Prim.Native.String.{String}

-- The context of a request with what its clones share, and the tasks that use it. It can outlive the
-- handler task, since a handler may hand clones to tasks of its own.
pub record Flight (T : Type 0) : Type 0 where
  pub context : RequestContext
  pub token : ℕ
  pub responded : Bool
  pub tasks : List (Task T)

pub record Session (W T : Type 0) : Type 0 where
  pub runtime : Runtime
  pub flights : List (Flight T)
  pub writer : W

abbrev pub start : {W T : Type 0} → ℕ → W → Session W T
start limit writer = record { runtime = Dispatch.start limit; flights = []; writer = writer }

-- Whether the token is cancelled.
abbrev pub is_among : ℕ → List ℕ → Bool
is_among token [] = Bool.false
is_among token (t ∷ ts) = if t == token then Bool.true else is_among token ts

module _ {H W T : Type 0} (registry : HandlerRegistry H) (sender : FrameSender W)
    (encode : T → Result (List ℕ)) where
  -- What the tasks of one request see.
  abbrev pub view : Session W T → Flight T → Once.System W T
  view s q = record {
    shared = record {
      responded = q.responded;
      cancelled = is_among q.token s.runtime.cancelled;
      writer = s.writer;
    };
    tasks = q.tasks;
  }

  abbrev pub put_back : Flight T → Once.System W T → Flight T
  put_back q t = record q { responded = t.shared.responded; tasks = t.tasks }

  -- The context of the task that a frame starts, with `clones` tasks that use it.
  abbrev pub flight_of : Runtime → Frame → ℕ → Flight T
  flight_of rt frame clones = record {
    context = context_of registry frame;
    token = rt.next_token;
    responded = Bool.false;
    tasks = replicate clones idle;
  }

  -- `dispatch_frame`: a frame that gets a token of its own has started a task.
  unfoldable pub arrive : Frame → ℕ → Session W T → Session W T
  unfolding dispatch_frame
  arrive frame clones s =
      let runtime = dispatch_frame registry s.runtime frame in
      let flights =
        if runtime.next_token == s.runtime.next_token
        then s.flights
        else flight_of s.runtime frame clones ∷ s.flights in
      record { runtime = runtime; flights = flights; writer = s.writer }

  pub data Step (s : Session W T) : Session W T → Type 0 where
    -- A task of one request makes a step of `Once`.
    uses :
        {t : Once.System W T} {q : Flight T} {qs : List (Flight T)}
        → Once.Step sender encode q.context (view s q) t
        → Moves q (put_back q t) s.flights qs
        → Step s (record s { flights = qs; writer = t.shared.writer })
    -- A handler cancels the token of its request, which `cancellation_token` gives it.
    cancels :
        (q : Flight T) (n : ℕ)
        → get_elem? s.flights n ≡ some q
        → Step s
            (record s { runtime = record s.runtime { cancelled = q.token ∷ s.runtime.cancelled } })
    completes : (n : ℕ) → Step s (record s { runtime = complete s.runtime n })
    frees : Step s (record s { runtime = drop_permit s.runtime })
    -- `emit`, with what its value encodes to, or `emit_raw`.
    emits :
        (event : String) (payload : Result (List ℕ))
        → Step s (record s {
          writer =
              (emit_payload registry sender event (get_event_id registry event) payload s.writer).1;
        })

  -- The sessions that `s` leads to while these frames arrive, in this order.
  pub data Reach (s : Session W T) : List Frame → Session W T → Type 0 where
    here : Reach s [] s
    arrives :
        {frames : List Frame} {t : Session W T}
        → Reach s frames t
        → (frame : Frame) (clones : ℕ) → Reach s (frames ++ (frame ∷ [])) (arrive frame clones t)
    moves :
        {frames : List Frame} {t u : Session W T} → Reach s frames t → Step t u → Reach s frames u
