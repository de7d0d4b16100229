-- ===== src/Client/Dispatch/Scripts/Answers.antt =====
-- How many terminal frames the parent gets from a handler task.
use procwire_rust.Base.{
  ℕ, ◌+◌, ◌≡◌, refl, ap, ◌∙◌, Bool, true, false, some, List, [], ◌∷◌, arith, if◌then◌else◌,
  and-false,
}
use procwire_rust.Error.{Result, ok, err, ProcwireError}
use procwire_rust.Writer.Defs.{OutboundFrame}
use procwire_rust.Handler.Context.{
  FrameSender, RequestContext, Shared, and_then, Operation, fail_with, run,
}
use procwire_rust.Handler.Context.Frames.{is_terminal, payload_of}
use procwire_rust.Handler.Context.Accepting.{terminal_one, Did, run-Did}
use procwire_rust.Handler.Context.Once.{terminal_sent, chunk_none}
use procwire_rust.Handler.Registry.{HandlerRegistry, get_handler_by_id}
use procwire_rust.Handler.Typed.{HandlerResult, Handler}
use procwire_rust.Client.Dispatch.{after_handler}
use procwire_rust.Client.Dispatch.Request.{handle_request, handle_request-found}
use procwire_rust.Client.Dispatch.Scripts.{
  run_script, terminal_answers, goes_on, stops, run_script-Late,
}

module _ {W T : Type 0} (sender : FrameSender W) (encode_value : T → Result (List ℕ))
    (text : ProcwireError → T) where
  module _ (ctx : RequestContext) where
    abbrev after : HandlerResult W → Shared W
    after r = after_handler sender encode_value text ctx r

    after_responded : (r : HandlerResult W) → r.1.responded ≡ true → after r ≡ r.1
    unfolding after_handler
    after_responded (ok u, s) h = refl
    after_responded (err e, s) h = rw h refl

    otherwise : (b : Bool) (x y : Shared W) → b ≡ false → (if b then x else y) ≡ y
    otherwise true x y h = cc
    otherwise false x y h = refl

    -- The rest of a handler behind an operation.
    abbrev then_rest : List (Operation T) → HandlerResult W → HandlerResult W
    then_rest ops r = and_then r (λ _ s. run_script sender encode_value ops ctx s)

    module _ (accepts : (x : W) (f : OutboundFrame) → (sender.send x f).0 ≡ ok tt)
        (has_writer : ctx.has_writer ≡ true) (bytes : ProcwireError → List ℕ)
        (texts_encode : (e : ProcwireError) → encode_value (text e) ≡ ok (bytes e)) where
      failed_early :
          (e : ProcwireError) (s : Shared W)
          → s.responded ≡ false
          → terminal_sent sender (after (err e, s)) ≡ terminal_sent sender s + 1
      unfolding after_handler run
      failed_early e s early =
          let (worked, counted, kept) =
            run-Did sender encode_value ctx accepts has_writer (fail_with (text e)) s (ok (bytes e))
              early (texts_encode e) in
          ap (terminal_sent sender) (otherwise s.responded s _ early)
          ∙ counted
          ∙ ap (λ n. terminal_sent sender s + n)
              (terminal_one sender encode_value ctx (fail_with (text e)) (bytes e) refl)

      -- The rest of a handler once the request is responded.
      late_rest :
          (ops : List (Operation T)) (s : Shared W)
          → s.responded ≡ true
          → terminal_sent sender (after (run_script sender encode_value ops ctx s))
            ≡ terminal_sent sender s
      late_rest ops s responded =
          let (same, late) =
            run_script-Late sender encode_value ctx accepts has_writer ops s responded in
          ap (terminal_sent sender)
            (after_responded (run_script sender encode_value ops ctx s) late)
          ∙ same

      module _ (op : Operation T) (ops : List (Operation T)) (s : Shared W)
          (early : s.responded ≡ false) (r : HandlerResult W) where
        encoded :
            (payload : List ℕ) (b : Bool)
            → is_terminal op ≡ b
            → Did sender encode_value ctx accepts has_writer op s (ok payload) r
            → (r.1.responded ≡ false
                → terminal_sent sender (after (run_script sender encode_value ops ctx r.1))
                  ≡ terminal_sent sender r.1 + terminal_answers encode_value ops)
            → terminal_sent sender (after (then_rest ops r))
              ≡ terminal_sent sender s + (if b then 1 else terminal_answers encode_value ops)
        encoded payload true terminal (worked, counted, kept) ih =
            rw (goes_on r (λ _ s. run_script sender encode_value ops ctx s) worked) (
              omega (
                arith,
                late_rest ops r.1 (kept ∙ rw terminal refl),
                counted,
                terminal_one sender encode_value ctx op payload terminal,
              ))
        encoded payload false chunk (worked, counted, kept) ih =
            rw (goes_on r (λ _ s. run_script sender encode_value ops ctx s) worked) (
              omega (
                arith,
                ih (kept ∙ rw (chunk, early) refl),
                counted,
                chunk_none sender encode_value ctx op payload chunk,
              ))

        not_encoded :
            (e : ProcwireError) (b : Bool)
            → is_terminal op ≡ b
            → Did sender encode_value ctx accepts has_writer op s (err e) r
            → terminal_sent sender (after (then_rest ops r))
              ≡ terminal_sent sender s + (if b then 0 else 1)
        not_encoded e true terminal (failed, counted, kept) =
            rw (stops r (λ _ s. run_script sender encode_value ops ctx s) e failed) (
              omega (
                arith,
                ap (terminal_sent sender) (after_responded (err e, r.1) (kept ∙ rw terminal refl)),
                counted,
              ))
        not_encoded e false chunk (failed, counted, kept) =
            rw (stops r (λ _ s. run_script sender encode_value ops ctx s) e failed)
              (omega (arith, failed_early e r.1 (kept ∙ rw (chunk, early) refl), counted))

      run_script-terminal_answers :
          (ops : List (Operation T)) (s : Shared W)
          → s.responded ≡ false
          → terminal_sent sender (after (run_script sender encode_value ops ctx s))
            ≡ terminal_sent sender s + terminal_answers encode_value ops
      unfolding run_script after_handler
      run_script-terminal_answers [] s early = omega arith
      run_script-terminal_answers (op ∷ ops) s early =
          let r = run sender encode_value ctx op s in
          go (payload_of encode_value op) refl (run_script-terminal_answers ops r.1)
        where
          did :
              (p : Result (List ℕ))
              → payload_of encode_value op ≡ p
              → Did sender encode_value ctx accepts has_writer op s p
                  (run sender encode_value ctx op s)
          did p e =
              run-Did sender encode_value ctx accepts has_writer op s p
                (rw early (and-false (is_terminal op))) e

          go :
              (p : Result (List ℕ))
              → payload_of encode_value op ≡ p
              → ((run sender encode_value ctx op s).1.responded ≡ false
                  → terminal_sent sender (
                      after (
                        run_script sender encode_value ops ctx
                          (run sender encode_value ctx op s).1))
                    ≡ terminal_sent sender (run sender encode_value ctx op s).1
                      + terminal_answers encode_value ops)
              → terminal_sent sender (after (then_rest ops (run sender encode_value ctx op s)))
                ≡ terminal_sent sender s + elim p [
                  | ok payload ↦ if is_terminal op then 1 else terminal_answers encode_value ops
                  | err e ↦ if is_terminal op then 0 else 1
                ]
          go (ok payload) e ih =
              encoded op ops s early (run sender encode_value ctx op s) payload (is_terminal op)
                refl (did (ok payload) e) ih
          go (err x) e ih =
              not_encoded op ops s early (run sender encode_value ctx op s) x (is_terminal op) refl
                (did (err x) e)

  -- How many frames that are not chunks the task of a request hands to the writer, when its handler is
  -- a sequence of operations, each with `?`: one, if the value of the first terminal operation encodes
  -- or that of a chunk before it does not; none, if the handler succeeds with no terminal operation,
  -- or if the value of its first terminal operation does not encode, in which case the error of the
  -- handler is not sent either. The context has a writer, which accepts; the request is not yet
  -- responded; the texts of errors encode.
  pub handle_request-terminal_answers :
      (registry : HandlerRegistry (Handler W)) (ctx : RequestContext) (payload : List ℕ)
      (ops : List (Operation T)) (s : Shared W) (bytes : ProcwireError → List ℕ)
      → get_handler_by_id registry ctx.method_id
        ≡ some (λ payload. run_script sender encode_value ops)
      → ctx.has_writer ≡ true
      → s.responded ≡ false
      → ((x : W) (f : OutboundFrame) → (sender.send x f).0 ≡ ok tt)
      → ((e : ProcwireError) → encode_value (text e) ≡ ok (bytes e))
      → terminal_sent sender (handle_request sender encode_value text registry ctx payload s)
        ≡ terminal_sent sender s + terminal_answers encode_value ops
  handle_request-terminal_answers registry ctx payload ops s bytes found has_writer early accepts
        texts_encode =
      ap (terminal_sent sender) (
        handle_request-found sender encode_value text registry ctx payload has_writer s
          (some (λ payload. run_script sender encode_value ops)) found)
      ∙ run_script-terminal_answers ctx accepts has_writer bytes texts_encode ops s early
