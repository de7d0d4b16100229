-- ===== src/Client/Session/Flights.antt =====
-- What one step of a task does to its request and to the writer.
use procwire_rust.Base.{
  ℕ, ◌+◌, ◌^◌, ◌%◌, ◌≤◌, ◌<◌, ◌≡◌, refl, sym, ap, ◌∙◌, true, false, List, [], ◌∷◌, ◌++◌, arith,
  length, map, All, append-nil,
}
use procwire_rust.Base.Tasks.{total, Moves-total}
use procwire_rust.Error.{Result, ok, err}
use procwire_rust.Protocol.Header.{is_response}
use procwire_rust.Protocol.Wire.{has_flag}
use procwire_rust.Protocol.Frame.{Frame}
use procwire_rust.Control.Init.{ResponseType, result, stream, ack, no_response}
use procwire_rust.Handler.Context.{
  FrameSender, RequestContext, Shared, mark_responded, hand_over, Operation, respond_with,
  respond_bytes, acknowledge, chunk_with, chunk_bytes, finish, fail_with,
}
use procwire_rust.Handler.Context.Frames.{failure_flags, is_terminal, flags_of, answer_header}
use procwire_rust.Handler.Context.Once.{
  System, Step, mark, mark_again, give_up, send_terminal, send_chunk, marked_weight,
  responded_weight, mark_ok, mark_err,
}
use procwire_rust.Client.Session.Weights.{ends}
use procwire_rust.EndToEnd.{outbound}

-- A frame that answers the request of a context.
pub record IsAnswer (ctx : RequestContext) (f : Frame) : Type 0 where
  pub same_method : f.header.method_id ≡ ctx.method_id
  pub same_request : f.header.request_id ≡ ctx.request_id
  pub flags_small : f.header.flags < 2 ^ 6
  pub length_true : f.header.payload_length ≡ length f.payload % 2 ^ 32
  pub response : is_response f.header ≡ true

error_frame_flags :
    (t : ResponseType) → (failure_flags t < 2 ^ 6) × (has_flag (failure_flags t) 2 ≡ true)
unfolding has_flag
error_frame_flags result = (omega arith, refl)
error_frame_flags stream = (omega arith, refl)
error_frame_flags ack = (omega arith, refl)
error_frame_flags no_response = (omega arith, refl)

module _ {T : Type 0} (ctx : RequestContext) where
  abbrev answer_frame : Operation T → List ℕ → Frame
  answer_frame op payload = record {
    header = answer_header ctx (flags_of ctx op) payload;
    payload = payload;
  }

  operation_flags :
      (op : Operation T) → (flags_of ctx op < 2 ^ 6) × (has_flag (flags_of ctx op) 2 ≡ true)
  unfolding has_flag
  operation_flags (respond_with v) = (omega arith, refl)
  operation_flags (respond_bytes payload) = (omega arith, refl)
  operation_flags acknowledge = (omega arith, refl)
  operation_flags (chunk_with v) = (omega arith, refl)
  operation_flags (chunk_bytes payload) = (omega arith, refl)
  operation_flags finish = (omega arith, refl)
  operation_flags (fail_with v) = error_frame_flags ctx.response_type

  answer_frame-IsAnswer :
      (op : Operation T) (payload : List ℕ) → IsAnswer ctx (answer_frame op payload)
  unfolding is_response
  answer_frame-IsAnswer op payload = record {
    same_method = refl;
    same_request = refl;
    flags_small = (operation_flags op).0;
    length_true = refl;
    response = (operation_flags op).1;
  }

  chunk_ends_none :
      (op : Operation T) (payload : List ℕ)
      → is_terminal op ≡ false
      → ends (answer_frame op payload) ≡ 0
  unfolding is_response has_flag
  chunk_ends_none (chunk_with v) payload h = refl
  chunk_ends_none (chunk_bytes bytes) payload h = refl
  chunk_ends_none op payload h = cc

ends_at_most_one : (f : Frame) → ends f ≤ 1
ends_at_most_one f = ground arith

module _ {W T : Type 0} (sender : FrameSender W) (encode_value : T → Result (List ℕ))
    (ctx : RequestContext) where
  -- What a step of a task has sent: the frames are behind those accepted before, they answer the
  -- request, and those that end it are paid for by its mark.
  pub record Sends (s t : System W T) (sent : List Frame) : Type 0 where
    pub accepted :
        sender.accepted t.shared.writer ≡ sender.accepted s.shared.writer ++ map outbound sent
    pub paid :
        total ends sent + total marked_weight t.tasks + responded_weight s.shared.responded
        ≤ total marked_weight s.tasks + responded_weight t.shared.responded
    pub answers : All (IsAnswer ctx) sent

  -- What a writer that may refuse makes of a frame.
  hand_over-accepted :
      (f : Frame) (s : Shared W)
      → (sent : List Frame) × (sender.accepted (hand_over sender ctx (outbound f) s).1.writer
          ≡ sender.accepted s.writer ++ map outbound sent)
        × (total ends sent ≤ ends f)
        × (IsAnswer ctx f → All (IsAnswer ctx) sent)
        × ((hand_over sender ctx (outbound f) s).1.responded ≡ s.responded)
  unfolding hand_over
  hand_over-accepted f s = go (sender.send s.writer (outbound f)) refl
    where
      go :
          (r : Result (Unit {0}) × W)
          → sender.send s.writer (outbound f) ≡ r
          → (sent : List Frame) × (sender.accepted r.1
              ≡ sender.accepted s.writer ++ map outbound sent)
            × (total ends sent ≤ ends f)
            × (IsAnswer ctx f → All (IsAnswer ctx) sent)
            × (s.responded ≡ s.responded)
      go (ok u, x) h = (f ∷ [], sender.send_accepts s.writer x _ h, omega arith, λ a. (a, tt), refl)
      go (err e, x) h = (
        [],
        sender.send_refuses s.writer x _ e h ∙ sym (append-nil (sender.accepted s.writer)),
        omega arith,
        λ a. tt,
        refl,
      )

  nothing_sent :
      (s t : System W T)
      → sender.accepted t.shared.writer ≡ sender.accepted s.shared.writer
      → total marked_weight t.tasks + responded_weight s.shared.responded
        ≤ total marked_weight s.tasks + responded_weight t.shared.responded
      → (sent : List Frame) × Sends s t sent
  nothing_sent s t same paid = (
    [],
    record {
      accepted = same ∙ sym (append-nil (sender.accepted s.shared.writer));
      paid = omega arith;
      answers = tt;
    },
  )

  mark_keeps :
      (s sh : Shared W) (r : Result (Unit {0})) → mark_responded s ≡ (r, sh) → sh.writer ≡ s.writer
  unfolding mark_responded
  mark_keeps s sh r e = ground arith

  pub Step-Sends :
      {s t : System W T} → Step sender encode_value ctx s t → (sent : List Frame) × Sends s t sent
  Step-Sends {s = s} (mark {us} {sh} op terminal e m) =
      nothing_sent s _ (ap sender.accepted (mark_keeps s.shared sh (ok tt) e))
        (omega (arith, Moves-total marked_weight m, mark_ok sender encode_value ctx s.shared sh e))
  Step-Sends {s = s} (mark_again {sh} {e} h) =
      nothing_sent s _ (ap sender.accepted (mark_keeps s.shared sh (err e) h)) (
        omega (
          arith,
          ap (λ sh. responded_weight sh.responded)
              (mark_err sender encode_value ctx s.shared sh e h),
        ))
  Step-Sends {s = s} (give_up op e m) =
      nothing_sent s _ refl (omega (arith, Moves-total marked_weight m))
  Step-Sends {s = s} (send_terminal op payload e m) =
      let f = answer_frame ctx op payload in
      let (sent, accepted, few, answers, same) = hand_over-accepted f s.shared in
      (
        sent,
        record {
          accepted = accepted;
          paid = omega (
            arith,
            few,
            ends_at_most_one f,
            Moves-total marked_weight m,
            ap responded_weight same,
          );
          answers = answers (answer_frame-IsAnswer ctx op payload);
        },
      )
  Step-Sends {s = s} (send_chunk op payload chunk e) =
      let f = answer_frame ctx op payload in
      let (sent, accepted, few, answers, same) = hand_over-accepted f s.shared in
      (
        sent,
        record {
          accepted = accepted;
          paid = omega (arith, few, chunk_ends_none ctx op payload chunk, ap responded_weight same);
          answers = answers (answer_frame-IsAnswer ctx op payload);
        },
      )
