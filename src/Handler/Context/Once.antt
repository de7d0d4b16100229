-- ===== src/Handler/Context/Once.antt =====
-- One terminal response for each request, however the tasks that share its context take turns. A task
-- marks the request as responded and sends its frame in two steps; others may run in between.
use procwire_rust.Base.{
  ℕ, suc, ◌+◌, ◌≤◌, ◌≡◌, refl, sym, ap, subst, Bool, true, false, List, [], ◌∷◌, ◌++◌, arith, ◌==◌,
  if◌then◌else◌, get_or, replicate,
}
use procwire_rust.Base.Tasks.{Moves, total, Moves-total, total-replicate}
use procwire_rust.Error.{Result, ok, err, ProcwireError}
use procwire_rust.Protocol.Wire.{encode, stream_chunk_flags}
use procwire_rust.Writer.Defs.{OutboundFrame, new}
use procwire_rust.Handler.Context.{
  FrameSender, RequestContext, Shared, fresh, mark_responded, hand_over, Operation, chunk_with,
  chunk_bytes,
}
use procwire_rust.Handler.Context.Frames.{is_terminal, flags_of, payload_of, answer}

-- A task between two operations, or past `mark_responded` in a terminal one.
pub data Task (T : Type 0) : Type 0 where
  idle : Task T
  marked : Operation T → Task T

pub record System (W T : Type 0) : Type 0 where
  pub shared : Shared W
  pub tasks : List (Task T)

-- The flags in the header of a frame, and whether they are not those of a chunk.
abbrev pub frame_flags : OutboundFrame → ℕ
frame_flags f = get_or f.header 2 0

abbrev pub is_terminal_frame : OutboundFrame → ℕ
is_terminal_frame f = if frame_flags f == stream_chunk_flags then 0 else 1

abbrev pub terminal_frames : List OutboundFrame → ℕ
terminal_frames [] = 0
terminal_frames (f ∷ fs) = is_terminal_frame f + terminal_frames fs

-- The terminal frames that the writer has accepted.
abbrev pub terminal_sent : {W : Type 0} → FrameSender W → Shared W → ℕ
terminal_sent sender s = terminal_frames (sender.accepted s.writer)

module _ {W T : Type 0} (sender : FrameSender W) (encode_value : T → Result (List ℕ))
    (ctx : RequestContext) where
  pub data Step (s : System W T) : System W T → Type 0 where
    mark :
        {us : List (Task T)} {sh : Shared W} (op : Operation T)
        → is_terminal op ≡ true
        → mark_responded s.shared ≡ (ok tt, sh)
        → Moves idle (marked op) s.tasks us
        → Step s (record { shared = sh; tasks = us })
    -- `ResponseAlreadySent`
    mark_again :
        {sh : Shared W} {e : ProcwireError}
        → mark_responded s.shared ≡ (err e, sh)
        → Step s (record s { shared = sh })
    -- the value does not encode
    give_up :
        {us : List (Task T)} {e : ProcwireError} (op : Operation T)
        → payload_of encode_value op ≡ err e
        → Moves (marked op) idle s.tasks us
        → Step s (record s { tasks = us })
    send_terminal :
        {us : List (Task T)} (op : Operation T) (payload : List ℕ)
        → payload_of encode_value op ≡ ok payload
        → Moves (marked op) idle s.tasks us
        → Step s (record {
          shared = (hand_over sender ctx (answer ctx (flags_of ctx op) payload) s.shared).1;
          tasks = us;
        })
    send_chunk :
        (op : Operation T) (payload : List ℕ)
        → is_terminal op ≡ false
        → payload_of encode_value op ≡ ok payload
        → Step s (record s {
          shared = (hand_over sender ctx (answer ctx (flags_of ctx op) payload) s.shared).1;
        })

  pub data Reach (s : System W T) : System W T → Type 0 where
    here : Reach s s
    next : {t u : System W T} → Reach s t → Step t u → Reach s u

abbrev pub marked_weight : {T : Type 0} → Task T → ℕ
marked_weight idle = 0
marked_weight (marked op) = 1

abbrev pub responded_weight : Bool → ℕ
responded_weight true = 1
responded_weight false = 0

pub terminal_frames-append :
    (fs : List OutboundFrame) (f : OutboundFrame)
    → terminal_frames (fs ++ (f ∷ [])) ≡ terminal_frames fs + is_terminal_frame f
terminal_frames-append [] f = omega arith
terminal_frames-append (g ∷ fs) f = omega (arith, terminal_frames-append fs f)

module _ {W T : Type 0} (sender : FrameSender W) (encode_value : T → Result (List ℕ))
    (ctx : RequestContext) where
  -- The terminal frames that are accepted, and those that are still to be sent.
  abbrev committed : System W T → ℕ
  committed s = terminal_frames (sender.accepted s.shared.writer) + total marked_weight s.tasks

  record Inv (before : ℕ) (s : System W T) : Type 0 where
    once : committed s ≤ before + responded_weight s.shared.responded

  hand_over-frames :
      (f : OutboundFrame) (s : Shared W)
      → (terminal_frames (sender.accepted (hand_over sender ctx f s).1.writer)
          ≤ terminal_frames (sender.accepted s.writer) + is_terminal_frame f)
        × (responded_weight (hand_over sender ctx f s).1.responded ≡ responded_weight s.responded)
  unfolding hand_over
  hand_over-frames f s = go (sender.send s.writer f) refl
    where
      go :
          (r : Result (Unit {0}) × W)
          → sender.send s.writer f ≡ r
          → (terminal_frames (sender.accepted r.1)
              ≤ terminal_frames (sender.accepted s.writer) + is_terminal_frame f)
            × (responded_weight s.responded ≡ responded_weight s.responded)
      go (ok u, x) h = (
        omega (
          arith,
          ap terminal_frames (sender.send_accepts s.writer x f h),
          terminal_frames-append (sender.accepted s.writer) f,
        ),
        refl,
      )
      go (err e, x) h =
          (omega (arith, ap terminal_frames (sender.send_refuses s.writer x f e h)), refl)

  pub mark_ok :
      (s sh : Shared W)
      → mark_responded s ≡ (ok tt, sh)
      → (responded_weight s.responded ≡ 0)
        × (responded_weight sh.responded ≡ 1)
        × (terminal_frames (sender.accepted sh.writer) ≡ terminal_frames (sender.accepted s.writer))
  unfolding mark_responded
  mark_ok s sh e = ground arith

  pub mark_err : (s sh : Shared W) (x : ProcwireError) → mark_responded s ≡ (err x, sh) → sh ≡ s
  unfolding mark_responded
  mark_err s sh x e = ground arith

  one_at_most : (f : OutboundFrame) → is_terminal_frame f ≤ 1
  one_at_most f = ground arith

  pub chunk_none :
      (op : Operation T) (payload : List ℕ)
      → is_terminal op ≡ false
      → is_terminal_frame (answer ctx (flags_of ctx op) payload) ≡ 0
  unfolding new encode
  chunk_none (chunk_with v) payload h = refl
  chunk_none (chunk_bytes bytes) payload h = refl
  chunk_none op payload h = cc

  Step-Inv :
      {before : ℕ} {s t : System W T}
      → Step sender encode_value ctx s t
      → Inv before s
      → Inv before t
  Step-Inv {s = s} (mark {us} {sh} op terminal e m) v =
      omega (arith, Moves-total marked_weight m, mark_ok s.shared sh e)
  Step-Inv {before} {s} (mark_again {sh} {e} h) v =
      subst (λ sh. Inv before (record s { shared = sh })) (sym (mark_err s.shared sh e h)) v
  Step-Inv (give_up op e m) v = omega (arith, Moves-total marked_weight m)
  Step-Inv {s = s} (send_terminal op payload e m) v = omega (
    arith,
    Moves-total marked_weight m,
    hand_over-frames (answer ctx (flags_of ctx op) payload) s.shared,
    one_at_most (answer ctx (flags_of ctx op) payload),
  )
  Step-Inv {s = s} (send_chunk op payload chunk e) v = omega (
    arith,
    hand_over-frames (answer ctx (flags_of ctx op) payload) s.shared,
    chunk_none op payload chunk,
  )

  abbrev pub start : ℕ → W → System W T
  start n writer = record { shared = fresh writer; tasks = replicate n idle }

  -- However `n` tasks that use one context and its clones take turns, the writer accepts at most one
  -- terminal frame from them, that is one whose flags are not those of a chunk, and none before the
  -- request is marked as responded.
  pub Reach-Once :
      (n : ℕ) (writer : W) (s : System W T)
      → Reach sender encode_value ctx (start n writer) s
      → (terminal_frames (sender.accepted s.shared.writer)
          ≤ suc (terminal_frames (sender.accepted writer)))
        × (s.shared.responded ≡ false
            → terminal_frames (sender.accepted s.shared.writer)
              ≤ terminal_frames (sender.accepted writer))
  Reach-Once n writer s r = let v = reached r in ground arith
    where
      reached :
          {t : System W T}
          → Reach sender encode_value ctx (start n writer) t
          → Inv (terminal_frames (sender.accepted writer)) t
      reached here = omega (arith, total-replicate marked_weight n idle refl)
      reached (next r st) = Step-Inv st (reached r)
