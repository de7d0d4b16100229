-- ===== src/Writer/Pipeline/Whereabouts.antt =====
-- Where the frames are that the channel has taken: an invariant of the steps of handles and writer task.
use procwire_rust.Base.{
  ℕ, ◌≤◌, ◌≡◌, refl, sym, ap, subst, ◌∙◌, List, [], ◌∷◌, ◌++◌, arith, length, take, All,
  append_assoc, append-nil, length-append, All-append, All-before, All-behind, take-append,
}
use procwire_rust.Base.Tasks.{Moves, Moves-All, Moves-at, All-replicate}
use procwire_rust.Error.{Result, ok, err}
use procwire_rust.Backpressure.{fetch_add, fetch_sub}
use procwire_rust.Writer.Defs.{OutboundFrame}
use procwire_rust.Writer.Channel.{Mpsc}
use procwire_rust.Writer.Batch.{AsyncWrite, write_batch}
use procwire_rust.Writer.Batch.Slices.{HasHeader, batch_bytes}
use procwire_rust.Writer.Batch.Delivery.{Written, write_batch-Written}
use procwire_rust.Writer.Pipeline.{
  Sender, Loop, receiving, collecting, writing, written, returned, System, SenderStep, LoopStep,
  Reach, start, idle, checked, waiting, counted, load_free, load_full, load_again, time_up, add,
  queue_frame, queue_full, queue_closed, recv_first, recv_none, try_recv_more, batch_full,
  try_recv_nothing, try_recv_disconnected, write_ok, write_err, count_off, here, sender_step,
  loop_step,
}

-- The frame that a task is about to send has a header.
abbrev pub CarriesHeader : Sender → Type 0
CarriesHeader idle = Unit {0}
CarriesHeader (checked f) = HasHeader f
CarriesHeader (waiting f) = HasHeader f
CarriesHeader (counted f) = HasHeader f

pub batch_bytes-append :
    (xs ys : List OutboundFrame) → batch_bytes (xs ++ ys) ≡ batch_bytes xs ++ batch_bytes ys
batch_bytes-append [] ys = refl
batch_bytes-append (x ∷ xs) ys =
    rw (batch_bytes-append xs ys)
      (sym (append_assoc (x.header ++ x.payload) (batch_bytes xs) (batch_bytes ys)))

module _ {C S : Type 0} (mpsc : Mpsc C) (w : AsyncWrite S) (max_pending : ℕ) where
  -- What the sink has taken, at each place of the loop, with what is in the batch, lost, and done.
  abbrev pub Sink : Loop → List OutboundFrame → List OutboundFrame → List OutboundFrame → S → Type 0
  Sink receiving batch lost done sink =
      (batch ≡ []) × (lost ≡ []) × (w.sent sink ≡ batch_bytes done)
  Sink written batch lost done sink =
      (lost ≡ []) × (w.sent sink ≡ batch_bytes done ++ batch_bytes batch)
  Sink (returned (ok u)) batch lost done sink =
      (batch ≡ []) × (lost ≡ []) × (w.sent sink ≡ batch_bytes done)
  Sink (returned (err e)) batch lost done sink =
      (batch ≡ [])
      × ((k : ℕ) × (k ≤ length (batch_bytes lost))
          × (w.sent sink ≡ batch_bytes done ++ take k (batch_bytes lost)))
  Sink _ batch lost done sink = (lost ≡ []) × (w.sent sink ≡ batch_bytes done)

  abbrev pub SinkAt : Loop → System C S → Type 0
  SinkAt l s = Sink l s.batch s.lost s.done s.sink

  -- The frames that the channel has taken, by where they are now.
  abbrev pub whereabouts : System C S → List OutboundFrame
  whereabouts s = s.done ++ (s.batch ++ (s.lost ++ mpsc.queue s.channel))

  pub record Inv (s : System C S) : Type 0 where
    pub sending : All CarriesHeader s.senders
    pub headers : All HasHeader s.accepted
    pub in_order : s.accepted ≡ whereabouts s
    pub sink_holds : SinkAt s.loop s

  -- A task that moves on to the same frame, or to none, keeps the invariant.
  moved :
      (s : System C S) (p : ℕ) {t u : Sender} {us : List Sender}
      → Inv s
      → Moves t u s.senders us
      → (CarriesHeader t → CarriesHeader u)
      → Inv (record s { senders = us; pending = p })
  moved s p v m f = record {
    sending = Moves-All CarriesHeader m f v.sending;
    headers = v.headers;
    in_order = v.in_order;
    sink_holds = v.sink_holds;
  }

  append_last :
      (a b c d e : List OutboundFrame) → (a ++ (b ++ (c ++ d))) ++ e ≡ a ++ (b ++ (c ++ (d ++ e)))
  append_last a b c d e = rw (append_assoc, append_assoc, append_assoc)

  SenderStep-Inv : {s t : System C S} → SenderStep mpsc w max_pending s t → Inv s → Inv t
  SenderStep-Inv {s = s} (load_free f hf free m) v = moved s s.pending v m (λ _. hf)
  SenderStep-Inv {s = s} (load_full f hf full m) v = moved s s.pending v m (λ _. hf)
  SenderStep-Inv {s = s} (load_again f free m) v = moved s s.pending v m (λ h. h)
  SenderStep-Inv {s = s} (time_up f full m) v = moved s s.pending v m (λ _. tt)
  SenderStep-Inv {s = s} (add f m) v = moved s (fetch_add s.pending 1) v m (λ h. h)
  SenderStep-Inv {s = s} (queue_frame {us} {c} f e m) v = record {
    sending = Moves-All CarriesHeader m (λ _. tt) v.sending;
    headers =
        All-append HasHeader s.accepted (f ∷ []) v.headers (Moves-at CarriesHeader m v.sending, tt);
    in_order =
        rw (mpsc.send_queues s.channel c f e, v.in_order)
          (append_last s.done s.batch s.lost (mpsc.queue s.channel) (f ∷ []));
    sink_holds = v.sink_holds;
  }
  SenderStep-Inv {s = s} (queue_full f e m) v = moved s (fetch_sub s.pending 1) v m (λ _. tt)
  SenderStep-Inv {s = s} (queue_closed f e m) v = moved s (fetch_sub s.pending 1) v m (λ _. tt)

  sink_at : (s : System C S) {l : Loop} → Inv s → s.loop ≡ l → SinkAt l s
  sink_at s v now = subst (λ l. SinkAt l s) now v.sink_holds

  -- A batch that is filled is written next.
  filled : (s : System C S) → Inv s → s.loop ≡ collecting → Inv (record s { loop = writing })
  filled s v now = record {
    sending = v.sending;
    headers = v.headers;
    in_order = v.in_order;
    sink_holds = sink_at s v now;
  }

  -- The batch holds accepted frames, so `write_batch` has written it as it says.
  batch-Written :
      (s : System C S) {r : Result (Unit {0}) × S}
      → Inv s
      → w.sent s.sink ≡ batch_bytes s.done
      → write_batch w s.batch s.sink ≡ r
      → Written w (batch_bytes s.done) (batch_bytes s.batch) r
  batch-Written s v holds e =
      subst (λ r. Written w (batch_bytes s.done) (batch_bytes s.batch) r) e
        (subst (λ before. Written w before (batch_bytes s.batch) (write_batch w s.batch s.sink))
          holds
          (write_batch-Written w s.batch s.sink (
            All-before HasHeader s.batch _
              (All-behind HasHeader s.done _ (subst (All HasHeader) v.in_order v.headers)))))

  -- What a failed write has taken is a part of what is lost with it.
  left_behind :
      (s : System C S) {sink : S}
      → (k : ℕ) × (k ≤ length (batch_bytes s.batch))
        × (w.sent sink ≡ batch_bytes s.done ++ take k (batch_bytes s.batch))
      → (k : ℕ) × (k ≤ length (batch_bytes (s.batch ++ mpsc.queue s.channel)))
        × (w.sent sink
            ≡ batch_bytes s.done ++ take k (batch_bytes (s.batch ++ mpsc.queue s.channel)))
  left_behind s (k, le, holds) = (
    k,
    rw (batch_bytes-append s.batch)
        (omega (arith, length-append (batch_bytes s.batch) (batch_bytes (mpsc.queue s.channel)))),
    holds ∙ rw (batch_bytes-append s.batch, take-append k (batch_bytes s.batch) _ le),
  )

  LoopStep-Inv : {s t : System C S} → LoopStep mpsc w max_pending s t → Inv s → Inv t
  LoopStep-Inv {s = s} (recv_first {c} {f} now e) v =
      let (no_batch, no_lost, holds) = sink_at s v now in
      record {
        sending = v.sending;
        headers = v.headers;
        in_order = v.in_order ∙ rw (no_batch, mpsc.recv_takes s.channel c f e, no_lost);
        sink_holds = (no_lost, holds);
      }
  LoopStep-Inv {s = s} (recv_none now e) v =
      let (no_batch, no_lost, holds) = sink_at s v now in
      record {
        sending = v.sending;
        headers = v.headers;
        in_order =
            v.in_order
            ∙ rw (mpsc.recv_disconnected s.channel e, mpsc.drop_receiver_drops s.channel);
        sink_holds = (no_batch, no_lost, holds);
      }
  LoopStep-Inv {s = s} (try_recv_more {c} {f} now room e) v =
      let (no_lost, holds) = sink_at s v now in
      record {
        sending = v.sending;
        headers = v.headers;
        in_order = v.in_order ∙ rw (mpsc.recv_takes s.channel c f e, no_lost, append_assoc s.batch);
        sink_holds = (no_lost, holds);
      }
  LoopStep-Inv {s = s} (batch_full now room) v = filled s v now
  LoopStep-Inv {s = s} (try_recv_nothing now e) v = filled s v now
  LoopStep-Inv {s = s} (try_recv_disconnected now e) v = filled s v now
  LoopStep-Inv {s = s} (write_ok {sink} now e) v =
      let (no_lost, holds) = sink_at s v now in
      record {
        sending = v.sending;
        headers = v.headers;
        in_order = v.in_order;
        sink_holds = (no_lost, batch-Written s v holds e);
      }
  LoopStep-Inv {s = s} (write_err {sink} {e} now we) v =
      let (no_lost, holds) = sink_at s v now in
      record {
        sending = v.sending;
        headers = v.headers;
        in_order =
            v.in_order
            ∙ rw (no_lost, mpsc.drop_receiver_drops s.channel)
                (ap (λ t. s.done ++ t) (sym (append-nil (s.batch ++ mpsc.queue s.channel))));
        sink_holds = (refl, left_behind s (batch-Written s v holds we));
      }
  LoopStep-Inv {s = s} (count_off now) v =
      let (no_lost, holds) = sink_at s v now in
      record {
        sending = v.sending;
        headers = v.headers;
        in_order = v.in_order ∙ sym (append_assoc s.done s.batch (s.lost ++ mpsc.queue s.channel));
        sink_holds = (refl, no_lost, holds ∙ sym (batch_bytes-append s.done s.batch));
      }

  start-Inv :
      (n : ℕ) (c : C) (sink : S)
      → mpsc.queue c ≡ []
      → w.sent sink ≡ []
      → Inv (start mpsc w max_pending n c sink)
  start-Inv n c sink no_queue nothing = record {
    sending = All-replicate CarriesHeader n idle tt;
    headers = tt;
    in_order = sym no_queue;
    sink_holds = (refl, refl, nothing);
  }

  pub Reach-Inv :
      (n : ℕ) (c : C) (sink : S)
      → mpsc.queue c ≡ []
      → w.sent sink ≡ []
      → {t : System C S} → Reach mpsc w max_pending (start mpsc w max_pending n c sink) t
      → Inv t
  Reach-Inv n c sink no_queue nothing here = start-Inv n c sink no_queue nothing
  Reach-Inv n c sink no_queue nothing (sender_step r st) =
      SenderStep-Inv st (Reach-Inv n c sink no_queue nothing r)
  Reach-Inv n c sink no_queue nothing (loop_step r st) =
      LoopStep-Inv st (Reach-Inv n c sink no_queue nothing r)
