-- ===== src/Client/Dispatch/Abort.antt =====
-- What an ABORT frame cancels.
use procwire_rust.Base.{All-at}
use procwire_rust.Base.{ℕ, ◌≡◌, refl, subst, some, List, ◌∷◌, arith, get_elem?}
use procwire_rust.Base.Assoc.{number_key, lookup}
use procwire_rust.Protocol.Wire.{abort_method_id}
use procwire_rust.Protocol.Frame.{Frame}
use procwire_rust.Handler.Registry.{HandlerRegistry}
use procwire_rust.Client.Dispatch.{Running, Runtime, start, abort, dispatch_frame, Event, run}
use procwire_rust.Client.Dispatch.Tracking.{AllFresh, IsTracked, run-Inv}
use procwire_rust.Client.Dispatch.Tokens.{OthersUnused, Apart-OthersUnused, run-Apart}

module _ {H : Type 0} (registry : HandlerRegistry H) where
  abort_found :
      (rt : Runtime) (frame : Frame) (token : ℕ)
      → frame.header.method_id ≡ abort_method_id
      → lookup number_key frame.header.request_id rt.active_contexts ≡ some token
      → dispatch_frame registry rt frame ≡ record rt { cancelled = token ∷ rt.cancelled }
  unfolding dispatch_frame abort
  abort_found rt frame token aborts found = rw (aborts, found) refl

  -- While the parent gives new requests ids that no running request has, an ABORT frame for a running
  -- request cancels the token of that request, which no other running task has, and changes nothing
  -- else.
  pub dispatch_frame-abort :
      (limit : ℕ) (es : List Event) (frame : Frame) (n : ℕ) (task : Running)
      → AllFresh registry (start limit) es
      → frame.header.method_id ≡ abort_method_id
      → get_elem? (run registry (start limit) es).running n ≡ some task
      → task.context.request_id ≡ frame.header.request_id
      → (dispatch_frame registry (run registry (start limit) es) frame
          ≡ record (run registry (start limit) es) {
            cancelled = task.token ∷ (run registry (start limit) es).cancelled;
          })
        × OthersUnused n task.token (run registry (start limit) es).running
  dispatch_frame-abort limit es frame n task fresh aborts at same =
      let rt = run registry (start limit) es in
      let v =
        run-Inv registry {limit = limit} (start limit) es fresh
          (record { permits_kept = omega arith; distinct = tt; tracked = tt }) in
      let tokens = run-Apart registry (start limit) es (record { older = tt; apart = tt }) in
      (
        abort_found rt frame task.token aborts (
            subst (λ id. lookup number_key id rt.active_contexts ≡ some task.token) same
              (All-at (IsTracked registry rt.active_contexts) n rt.running task at v.tracked)),
        Apart-OthersUnused n rt.running task at tokens,
      )
