-- ===== src/EndToEnd/Session.antt =====
-- A whole session, from the bytes that the client reads to the frames that the parent gets back.
use procwire_rust.Base.{
  ℕ, ◌+◌, ◌^◌, ◌≤◌, ◌<◌, ◌≡◌, sym, subst, ◌∙◌, ◌⊎◌, inl, inr, List, [], ◌∷◌, arith, length, map,
  All, All-concat, All-cut, ◌≢◌, ap, concat,
}
use procwire_rust.Base.Tasks.{total}
use procwire_rust.Error.{Result, ok, err, ProcwireError}
use procwire_rust.Protocol.Wire.{IsByte, absolute_max_payload_size}
use procwire_rust.Protocol.Frame.{Frame}
use procwire_rust.Protocol.FrameBuffer.{FrameBuffer, with_max_payload, push}
use procwire_rust.Protocol.FrameBuffer.Sound.{IsFrame, IsValid}
use procwire_rust.Protocol.FrameBuffer.Delivery.{Delivers, push-Delivers}
use procwire_rust.Protocol.FrameBuffer.Reassembly.{push_all, push_all-concat, Agrees}
use procwire_rust.Writer.Defs.{OutboundFrame, new}
use procwire_rust.Writer.Channel.{Mpsc}
use procwire_rust.Writer.Batch.{AsyncWrite}
use procwire_rust.Writer.Batch.Slices.{batch_bytes}
use procwire_rust.Writer.Pipeline as Pipeline
use procwire_rust.Writer.Pipeline.{returned}
use procwire_rust.Writer.Pipeline.Progress.{LoopRun, stay, IsAtRest}
use procwire_rust.Writer.Pipeline.Drains.{LoopRun-Drained}
use procwire_rust.Handler.Context.{FrameSender}
use procwire_rust.Handler.Registry.{HandlerRegistry}
use procwire_rust.Handler.Registry.Ids.{Registration, register_all}
use procwire_rust.Handler.Registry.EventIds.{event_ids_fit}
use procwire_rust.Client.Session.{Session, start, Reach}
use procwire_rust.Client.Session.Weights.{asked, replied, ended, total_mono}
use procwire_rust.Client.Session.Answered.{
  IsSound, Answered, responded-le-open, open_at, responded_at,
}
use procwire_rust.Client.Session.Account.{Reach-Answered}
use procwire_rust.EndToEnd.{outbound, written-received, batch_bytes-IsByte}

-- Frames that come out of a fresh buffer keep the contract, whatever bytes went in.
push_all-IsFrame :
    (k : ℕ) (reads : List (List ℕ)) (fb : FrameBuffer) (frames : List Frame)
    → All (All IsByte) reads
    → push_all (with_max_payload k) reads ≡ (ok frames, fb)
    → All (IsFrame k) frames
push_all-IsFrame k reads fb frames are_bytes e =
    let valid : IsValid (with_max_payload k) = record { buffered_bytes = tt; awaited = tt } in
    let whole : push (with_max_payload k) (concat reads) ≡ (ok frames, fb) =
      subst (λ r. Agrees r (push (with_max_payload k) (concat reads))) e
        (push_all-concat (with_max_payload k) reads valid (omega arith) are_bytes) in
    let delivered : Delivers k (concat reads) (push (with_max_payload k) (concat reads)) =
      push-Delivers (with_max_payload k) (concat reads) valid (All-concat IsByte reads are_bytes) in
    (subst (Delivers k (concat reads)) whole delivered).0

-- A payload of bytes that the parent's limit `m` admits.
pub record Fits (m : ℕ) (f : OutboundFrame) : Type 0 where
  pub payload_bytes : All IsByte f.payload
  pub within_maximum : length f.payload ≤ m
  pub within_absolute : length f.payload ≤ absolute_max_payload_size

sound-IsFrame :
    (m : ℕ) (fs : List Frame) → All IsSound fs → All (Fits m) (map outbound fs) → All (IsFrame m) fs
unfolding new
sound-IsFrame m [] s h = tt
sound-IsFrame m (f ∷ fs) (s, ss) (h, hs) =
    let length_true : f.header.payload_length ≡ length f.payload = omega arith in
    (
      record {
        in_range = omega arith;
        contract = record {
          method_id_used = s.method_used;
          within_maximum = omega arith;
          within_absolute = omega arith;
          reserved_bits_clear = s.flags_small;
        };
        payload_bytes = h.payload_bytes;
        payload_length_true = sym length_true;
      },
      sound-IsFrame m fs ss hs,
    )

-- Frames that are all written are received, in whatever pieces the bytes come.
in_any_cut :
    (m : ℕ) (fs : List Frame) (written : List ℕ) (cut : List ℕ → List (List ℕ))
    → All (IsFrame m) fs
    → written ≡ batch_bytes (map outbound fs)
    → ((bytes : List ℕ) → concat (cut bytes) ≡ bytes)
    → push_all (with_max_payload m) (cut written) ≡ (ok fs, with_max_payload m)
in_any_cut m fs written cut valid e cuts =
    let whole : concat (cut written) ≡ batch_bytes (map outbound fs) = cuts written ∙ e in
    written-received m fs (cut written) valid whole (
      All-cut IsByte (cut written) (subst (All IsByte) (sym whole) (batch_bytes-IsByte m fs valid)))

-- What the parent gets back, by the ids of a method and a request: no more frames that end a request
-- than it asked, and replies only to what it asked.
pub record Answers (asks gets : List Frame) (method request : ℕ) : Type 0 where
  pub at_most_once : total (ended method request) gets ≤ total (asked method request) asks
  pub only_asked :
      (total (replied method request) gets ≡ 0) ⊎ (1 ≤ total (asked method request) asks)

-- What the parent's frame buffer makes of these reads: frames and no error, that answer what was
-- asked.
abbrev pub Received : ℕ → List Frame → List (List ℕ) → Type 0
Received m asks reads =
    (gets : List Frame) × (push_all (with_max_payload m) reads ≡ (ok gets, with_max_payload m))
    × ((method request : ℕ) → Answers asks gets method request)

module _ {H W T C S : Type 0} (sender : FrameSender W) (encode : T → Result (List ℕ))
    (mpsc : Mpsc C) (w : AsyncWrite S) (max_pending : ℕ) where
  Answered-Answers :
      (registry : HandlerRegistry H) (frames sent : List Frame) (s : Session W T)
      → Answered registry sender encode frames sent s
      → (method request : ℕ) → Answers frames sent method request
  Answered-Answers registry frames sent s v method request = record {
    at_most_once = omega (
      arith,
      v.once method request,
      v.known method request,
      total_mono (responded_at method request) (open_at method request) s.flights
          (responded-le-open method request),
    );
    only_asked = elim (v.replies method request) [
      | inl none ↦ inl none
      | inr some_open ↦ inr (omega (arith, some_open, v.known method request))
    ];
  }

  -- Whatever bytes a client reads that its frame buffer cuts into frames, and however its tasks, its
  -- events and its writer have taken turns on these: the writer task alone comes to rest, and then a
  -- write has failed, or what the parent's frame buffer makes of the written bytes, in any cut, is a
  -- list of frames and no error. For any ids of a method and a request, it has no more terminal
  -- responses than the client read requests under them, and no response where it read none. The
  -- channel and the sink are empty at first, the channel has taken the frames of the session, the
  -- writer task has not returned, all payloads fit the parent's limit, and the registry has fewer
  -- than 65,535 registrations.
  pub session-Received :
      (rs : List (Registration H)) (k limit m n : ℕ) (writer : W) (c : C) (sink : S)
      (incoming : List (List ℕ)) (frames : List Frame) (fb : FrameBuffer) (s : Session W T)
      (p : Pipeline.System C S) (cut : List ℕ → List (List ℕ))
      → length rs + 1 < 2 ^ 16
      → sender.accepted writer ≡ []
      → All (All IsByte) incoming
      → push_all (with_max_payload k) incoming ≡ (ok frames, fb)
      → Reach (register_all rs) sender encode (start limit writer) frames s
      → mpsc.queue c ≡ []
      → w.sent sink ≡ []
      → Pipeline.Reach mpsc w max_pending (Pipeline.start mpsc w max_pending n c sink) p
      → ((r : Result (Unit {0})) → p.loop ≢ returned r)
      → p.accepted ≡ sender.accepted s.writer
      → All (Fits m) p.accepted
      → ((bytes : List ℕ) → concat (cut bytes) ≡ bytes)
      → (u : Pipeline.System C S) × LoopRun mpsc w max_pending p u
        × IsAtRest mpsc w max_pending u
        × (((e : ProcwireError) × (u.loop ≡ returned (err e)))
            ⊎ Received m frames (cut (w.sent u.sink)))
  session-Received rs k limit m n writer c sink incoming frames fb s p cut few nothing are_bytes
        framed reach no_queue unwritten run running same fit cuts =
      let (sent, v) =
        Reach-Answered (register_all rs) sender encode k limit writer frames s
          (event_ids_fit rs few) nothing (push_all-IsFrame k incoming fb frames are_bytes framed)
          reach in
      let accepted : p.accepted ≡ map outbound sent = same ∙ v.accepted in
      let valid = sound-IsFrame m sent v.sound (subst (All (Fits m)) accepted fit) in
      let (u, more, bound, rest, drained) =
        LoopRun-Drained mpsc w max_pending n c sink p p no_queue unwritten run running stay in
      (
        u,
        more,
        rest,
        elim drained [
          | inl failed ↦ inl failed
          | inr (done, written) ↦ inr (
            sent,
            in_any_cut m sent (w.sent u.sink) cut valid (written ∙ ap batch_bytes accepted) cuts,
            Answered-Answers (register_all rs) frames sent s v,
          )
        ],
      )
