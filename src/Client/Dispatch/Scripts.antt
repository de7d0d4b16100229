-- ===== src/Client/Dispatch/Scripts.antt =====
-- src/client.rs, the handler task, for handlers that are a sequence of operations of their context, each
-- with `?`.
pub mod Answers
pub mod Tests
use procwire_rust.Base.{
  ℕ, ◌+◌, ◌≡◌, refl, sym, ap, ◌∙◌, Bool, true, false, ◌&&◌, ◌||◌, Option, some, List, [], ◌∷◌, ◌++◌,
  arith, if◌then◌else◌, Bool-cases, and-false, inl, inr,
}
use procwire_rust.Error.{Result, ok, err, ProcwireError, response_already_sent}
use procwire_rust.Protocol.Wire.{encode}
use procwire_rust.Writer.Defs.{OutboundFrame, new}
use procwire_rust.Control.Init.{ResponseType, result, stream, ack, no_response}
use procwire_rust.Handler.Context.{
  FrameSender, RequestContext, Shared, error_flags, hand_over, and_then, Operation, respond_with,
  respond_bytes, acknowledge, chunk_with, chunk_bytes, finish, fail_with, run,
}
use procwire_rust.Handler.Context.Frames.{is_terminal, flags_of, payload_of, answer, run-attempt}
use procwire_rust.Handler.Context.Accepting.{terminal_one, run-again, run-Did}
use procwire_rust.Handler.Context.Once.{
  is_terminal_frame, terminal_frames, terminal_sent, terminal_frames-append, chunk_none,
}
use procwire_rust.Handler.Registry.{HandlerRegistry, get_handler_by_id, dispatch}
use procwire_rust.Handler.Typed.{HandlerResult, Handler}
use procwire_rust.Client.Dispatch.{after_handler}
use procwire_rust.Client.Dispatch.Request.{handle_request, handle_request-found}

module _ {W T : Type 0} (sender : FrameSender W) (encode_value : T → Result (List ℕ)) where
  -- A handler of these operations, which ends with its first error.
  unfoldable pub run_script : List (Operation T) → RequestContext → Shared W → HandlerResult W
  run_script [] ctx s = (ok tt, s)
  run_script (op ∷ ops) ctx s =
      and_then (run sender encode_value ctx op s) (λ _ s. run_script ops ctx s)

module _ {T : Type 0} (encode_value : T → Result (List ℕ)) where
  -- The terminal frames of such a handler's task: one, by the first terminal operation, or by the
  -- error of an earlier operation; none if there is neither, and none if the value of the first
  -- terminal operation does not encode.
  abbrev pub terminal_answers : List (Operation T) → ℕ
  terminal_answers [] = 0
  terminal_answers (op ∷ ops) =
      let rest = terminal_answers ops in
      elim (payload_of encode_value op) [
        | ok payload ↦ if is_terminal op then 1 else rest
        | err e ↦ if is_terminal op then 0 else 1
      ]

module _ {W : Type 0} where
  pub goes_on :
      (r : HandlerResult W) (k : Unit {0} → Shared W → HandlerResult W)
      → r.0 ≡ ok tt
      → and_then r k ≡ k tt r.1
  goes_on (ok tt, s) k h = refl
  goes_on (err e, s) k h = cc

  pub stops :
      (r : HandlerResult W) (k : Unit {0} → Shared W → HandlerResult W) (e : ProcwireError)
      → r.0 ≡ err e
      → and_then r k ≡ (err e, r.1)
  stops (ok u, s) k e h = cc
  stops (err x, s) k e h = ap (λ y. (err y, s)) (cc)

module _ {W T : Type 0} (sender : FrameSender W) (encode_value : T → Result (List ℕ))
    (ctx : RequestContext) (accepts : (x : W) (f : OutboundFrame) → (sender.send x f).0 ≡ ok tt)
    (has_writer : ctx.has_writer ≡ true) where
  abbrev Late : Shared W → HandlerResult W → Type 0
  Late s r = (terminal_sent sender r.1 ≡ terminal_sent sender s) × (r.1.responded ≡ true)

  -- Behind a terminal operation no terminal frame follows.
  pub run_script-Late :
      (ops : List (Operation T)) (s : Shared W)
      → s.responded ≡ true
      → Late s (run_script sender encode_value ops ctx s)
  unfolding run_script
  run_script-Late [] s late = (refl, late)
  run_script-Late (op ∷ ops) s late = elim (Bool-cases (is_terminal op)) [
    | inl terminal ↦
        rw (run-again sender encode_value ctx accepts has_writer op s (rw (terminal, late) refl))
          (refl, late)
    | inr chunk ↦
        go (payload_of encode_value op) refl chunk
          (run_script-Late ops (run sender encode_value ctx op s).1)
  ]
    where
      go :
          (p : Result (List ℕ))
          → payload_of encode_value op ≡ p
          → is_terminal op ≡ false
          → ((run sender encode_value ctx op s).1.responded ≡ true
              → Late
                  (run sender encode_value ctx op s).1
                  (run_script sender encode_value ops ctx (run sender encode_value ctx op s).1))
          → Late s (
              and_then
                (run sender encode_value ctx op s)
                (λ _ s. run_script sender encode_value ops ctx s))
      go (ok payload) e chunk ih =
          let (worked, counted, kept) =
            run-Did sender encode_value ctx accepts has_writer op s (ok payload) (rw chunk refl)
              e in
          let (same, still) = ih (kept ∙ rw (chunk, late) refl) in
          rw
            (goes_on (run sender encode_value ctx op s)
              (λ _ s. run_script sender encode_value ops ctx s) worked)
            (
              omega (arith, same, counted, chunk_none sender encode_value ctx op payload chunk),
              still,
            )
      go (err x) e chunk ih =
          let (failed, counted, kept) =
            run-Did sender encode_value ctx accepts has_writer op s (err x) (rw chunk refl) e in
          rw
            (stops (run sender encode_value ctx op s)
              (λ _ s. run_script sender encode_value ops ctx s) x failed)
            (counted, kept ∙ rw (chunk, late) refl)
