-- ===== src/Client/Dispatch.antt =====
-- src/client.rs, `dispatch_frame`: what a frame of the parent starts, and how a handler task ends. The
-- permits of the semaphore, the active contexts and the spawned tasks are the state; a cancellation
-- token is a number, and a task that waits for its handler is an entry of `running`.
pub mod Tokens
pub mod Tasks
pub mod Tracking
pub mod Permits
pub mod Abort
pub mod Request
pub mod Scripts
use procwire_rust.Base.{
  ℕ, zero, suc, ◌+◌, ◌-◌, ◌==◌, Bool, Option, none, some, List, [], ◌∷◌, if◌then◌else◌, get_elem?,
}
use procwire_rust.Base.Assoc.{Map, number_key, lookup, insert, remove}
use procwire_rust.Error.{Result, ok, err, ProcwireError}
use procwire_rust.Protocol.Wire.{abort_method_id, auth_method_id}
use procwire_rust.Protocol.Header.{is_response}
use procwire_rust.Protocol.Frame.{Frame}
use procwire_rust.Control.Init.{ResponseType, result}
use procwire_rust.Handler.Context.{
  FrameSender, RequestContext, Shared, with_writer_and_token, error_with,
}
use procwire_rust.Handler.Registry.{HandlerRegistry, get_response_type_by_id}

-- A spawned handler task.
pub record Running : Type 0 where
  pub context : RequestContext
  pub token : ℕ
  pub payload : List ℕ

pub record Runtime : Type 0 where
  pub permits : ℕ
  -- tasks that have removed their entry and still hold their permit
  pub ending : ℕ
  pub active_contexts : Map ℕ ℕ
  pub running : List Running
  pub next_token : ℕ
  pub cancelled : List ℕ

-- Steps 8 and 9 of `start`.
abbrev pub start : ℕ → Runtime
start max_concurrent_handlers = record {
  permits = max_concurrent_handlers;
  ending = 0;
  active_contexts = [];
  running = [];
  next_token = 0;
  cancelled = [];
}

abbrev pub cancel_found : Runtime → Option ℕ → Runtime
cancel_found rt none = rt
cancel_found rt (some token) = record rt { cancelled = token ∷ rt.cancelled }

-- The branch for `ABORT_METHOD_ID`.
unfoldable pub abort : Runtime → ℕ → Runtime
abort rt request_id = cancel_found rt (lookup number_key request_id rt.active_contexts)

-- `unwrap_or(ResponseType::Result)`
abbrev pub or_result : Option ResponseType → ResponseType
or_result none = result
or_result (some t) = t

module _ {H : Type 0} (registry : HandlerRegistry H) where
  abbrev pub context_of : Frame → RequestContext
  context_of frame =
      with_writer_and_token frame.header.method_id frame.header.request_id
        (or_result (get_response_type_by_id registry frame.header.method_id))

  -- What a permit is used for: a token, its entry under the request id, and the task.
  unfoldable pub spawn : Runtime → Frame → Runtime
  spawn rt frame =
      let task : Running = record {
        context = context_of frame;
        token = rt.next_token;
        payload = frame.payload;
      } in
      record {
        permits = rt.permits - 1;
        ending = rt.ending;
        active_contexts =
            insert number_key frame.header.request_id rt.next_token rt.active_contexts;
        running = task ∷ rt.running;
        next_token = suc rt.next_token;
        cancelled = rt.cancelled;
      }

  unfoldable pub dispatch_frame : Runtime → Frame → Runtime
  unfolding abort spawn
  dispatch_frame rt frame =
      if frame.header.method_id == abort_method_id
      then abort rt frame.header.request_id
      else if frame.header.method_id == auth_method_id
      then rt
      else if is_response frame.header
      then rt
      else if rt.permits == 0
      then rt
      else spawn rt frame

abbrev pub remove_at : ℕ → List Running → List Running
remove_at n [] = []
remove_at zero (r ∷ rs) = rs
remove_at (suc n) (r ∷ rs) = r ∷ remove_at n rs

abbrev pub complete_found : Runtime → ℕ → Option Running → Runtime
complete_found rt n none = rt
complete_found rt n (some task) = record rt {
  ending = suc rt.ending;
  active_contexts = remove number_key task.context.request_id rt.active_contexts;
  running = remove_at n rt.running;
}

-- The end of the `n`-th task: its entry is removed.
unfoldable pub complete : Runtime → ℕ → Runtime
complete rt n = complete_found rt n (get_elem? rt.running n)

abbrev pub one_less : Runtime → ℕ → Runtime
one_less rt zero = rt
one_less rt (suc n) = record rt { permits = suc rt.permits; ending = n }

-- `_permit` is dropped behind that.
unfoldable pub drop_permit : Runtime → Runtime
drop_permit rt = one_less rt rt.ending

-- The `match` on the outcome of the handler; `text` is `to_string` of the error.
module _ {W T : Type 0} (sender : FrameSender W) (encode : T → Result (List ℕ))
    (text : ProcwireError → T) (ctx : RequestContext) where
  unfoldable pub after_handler : Result (Unit {0}) × Shared W → Shared W
  after_handler (ok u, s) = s
  after_handler (err e, s) = if s.responded then s else (error_with sender ctx encode (text e) s).1

-- The life of the runtime: frames arrive, and tasks end in any order. The read loop alone takes permits,
-- so a task that ends while a frame is dispatched could as well have ended before.
pub data Event : Type 0 where
  arrives : Frame → Event
  completes : ℕ → Event
  frees : Event

module _ {H : Type 0} (registry : HandlerRegistry H) where
  unfoldable pub step : Runtime → Event → Runtime
  unfolding dispatch_frame complete drop_permit
  step rt (arrives frame) = dispatch_frame registry rt frame
  step rt (completes n) = complete rt n
  step rt frees = drop_permit rt

  unfoldable pub run : Runtime → List Event → Runtime
  unfolding step
  run rt [] = rt
  run rt (e ∷ es) = run (step rt e) es
