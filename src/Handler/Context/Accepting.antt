-- ===== src/Handler/Context/Accepting.antt =====
-- What the operations of a context do to a writer that accepts every frame.
use procwire_rust.Base.{ℕ, ◌+◌, ◌≡◌, refl, ap, ◌∙◌, true, false, ◌&&◌, ◌||◌, List}
use procwire_rust.Error.{Result, ok, err, response_already_sent}
use procwire_rust.Protocol.Wire.{encode}
use procwire_rust.Writer.Defs.{OutboundFrame, new}
use procwire_rust.Control.Init.{ResponseType, result, stream, ack, no_response}
use procwire_rust.Handler.Context.{
  FrameSender, RequestContext, Shared, hand_over, Operation, respond_with, respond_bytes,
  acknowledge, chunk_with, chunk_bytes, finish, fail_with, run,
}
use procwire_rust.Handler.Context.Frames.{
  failure_flags, is_terminal, flags_of, payload_of, answer, run-attempt,
}
use procwire_rust.Handler.Context.Once.{
  is_terminal_frame, terminal_frames, terminal_sent, terminal_frames-append,
}
use procwire_rust.Handler.Typed.{HandlerResult}

module _ {W T : Type 0} (sender : FrameSender W) (encode_value : T → Result (List ℕ))
    (ctx : RequestContext) where
  error_flags_terminal :
      (t : ResponseType) (payload : List ℕ)
      → let c : RequestContext = record ctx { response_type = t } in
        is_terminal_frame (answer c (failure_flags c.response_type) payload) ≡ 1
  unfolding new encode
  error_flags_terminal stream payload = refl
  error_flags_terminal result payload = refl
  error_flags_terminal ack payload = refl
  error_flags_terminal no_response payload = refl

  pub terminal_one :
      (op : Operation T) (payload : List ℕ)
      → is_terminal op ≡ true
      → is_terminal_frame (answer ctx (flags_of ctx op) payload) ≡ 1
  unfolding new encode
  terminal_one (respond_with v) payload h = refl
  terminal_one (respond_bytes bytes) payload h = refl
  terminal_one acknowledge payload h = refl
  terminal_one finish payload h = refl
  terminal_one (fail_with v) payload h = error_flags_terminal ctx.response_type payload
  terminal_one (chunk_with v) payload h = cc
  terminal_one (chunk_bytes bytes) payload h = cc

  module _ (accepts : (x : W) (f : OutboundFrame) → (sender.send x f).0 ≡ ok tt)
      (has_writer : ctx.has_writer ≡ true) where
    -- What a writer that accepts makes of a frame.
    record Handed (f : OutboundFrame) (s : Shared W) (r : HandlerResult W) : Type 0 where
      worked : r.0 ≡ ok tt
      counted : terminal_sent sender r.1 ≡ terminal_sent sender s + is_terminal_frame f
      kept : r.1.responded ≡ s.responded

    hand_over-Handed : (f : OutboundFrame) (s : Shared W) → Handed f s (hand_over sender ctx f s)
    unfolding hand_over
    hand_over-Handed f s =
        let x = (sender.send s.writer f).1 in
        let sent : sender.send s.writer f ≡ (ok tt, x) = ap (λ r. (r, x)) (accepts s.writer f) in
        record {
          worked = accepts s.writer f;
          counted =
              ap terminal_frames (sender.send_accepts s.writer x f sent)
              ∙ terminal_frames-append (sender.accepted s.writer) f;
          kept = refl;
        }

    -- What an operation does whose payload is `p`, unless it is a second terminal one.
    abbrev pub Did : Operation T → Shared W → Result (List ℕ) → HandlerResult W → Type 0
    Did op s (ok payload) r =
        (r.0 ≡ ok tt)
        × (terminal_sent sender r.1
            ≡ terminal_sent sender s + is_terminal_frame (answer ctx (flags_of ctx op) payload))
        × (r.1.responded ≡ (is_terminal op || s.responded))
    Did op s (err e) r =
        (r.0 ≡ err e)
        × (terminal_sent sender r.1 ≡ terminal_sent sender s)
        × (r.1.responded ≡ (is_terminal op || s.responded))

    pub run-again :
        (op : Operation T) (s : Shared W)
        → (is_terminal op && s.responded) ≡ true
        → run sender encode_value ctx op s ≡ (err response_already_sent, s)
    run-again op s again = run-attempt sender encode_value ctx op s has_writer ∙ rw again refl

    pub run-Did :
        (op : Operation T) (s : Shared W) (p : Result (List ℕ))
        → (is_terminal op && s.responded) ≡ false
        → payload_of encode_value op ≡ p
        → Did op s p (run sender encode_value ctx op s)
    run-Did op s (ok payload) first e =
        let t : Shared W = record s { responded = is_terminal op || s.responded } in
        let handed = hand_over-Handed (answer ctx (flags_of ctx op) payload) t in
        rw (run-attempt sender encode_value ctx op s has_writer, first, e)
          (handed.worked, handed.counted, handed.kept)
    run-Did op s (err x) first e =
        rw (run-attempt sender encode_value ctx op s has_writer, first, e) (refl, refl, refl)
