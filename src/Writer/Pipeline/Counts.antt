-- ===== src/Writer/Pipeline/Counts.antt =====
-- The counter of pending frames under every interleaving of the handles and the writer task.
use procwire_rust.Base.{
  ℕ, suc, ◌+◌, ◌≤◌, ◌<◌, ◌≡◌, refl, ap, subst, List, [], ◌∷◌, arith, length, length-append,
  length-replicate,
}
use procwire_rust.Base.Tasks.{Moves, Moves-total, Moves-length, total, total-le, total-replicate}
use procwire_rust.Backpressure.{usize_mod}
use procwire_rust.Writer.Defs.{OutboundFrame}
use procwire_rust.Writer.Channel.{Mpsc}
use procwire_rust.Writer.Batch.{AsyncWrite}
use procwire_rust.Writer.Pipeline.{
  Sender, Loop, receiving, returned, System, SenderStep, LoopStep, Reach, start, idle, checked,
  waiting, counted, load_free, load_full, load_again, time_up, add, queue_frame, queue_full,
  queue_closed, recv_first, recv_none, try_recv_more, batch_full, try_recv_nothing,
  try_recv_disconnected, write_ok, write_err, count_off, here, sender_step, loop_step,
}

-- The tasks that are about to add, and those that have added and are about to queue.
abbrev pub checked_weight : Sender → ℕ
checked_weight (checked f) = 1
checked_weight t = 0

abbrev pub counted_weight : Sender → ℕ
counted_weight (counted f) = 1
counted_weight t = 0

checked_weight-le : (t : Sender) → checked_weight t ≤ 1
checked_weight-le idle = omega arith
checked_weight-le (checked f) = omega arith
checked_weight-le (waiting f) = omega arith
checked_weight-le (counted f) = omega arith

abbrev pub counted_tasks : List Sender → ℕ
counted_tasks ts = total counted_weight ts

-- What a move does to the numbers of tasks.
Moves-counts :
    {t u : Sender} {ts us : List Sender}
    → Moves t u ts us
    → (total checked_weight us + checked_weight t ≡ total checked_weight ts + checked_weight u)
      × (counted_tasks us + counted_weight t ≡ counted_tasks ts + counted_weight u)
      × (length us ≡ length ts)
      × (total checked_weight us ≤ length us)
Moves-counts {us = us} m = (
  Moves-total checked_weight m,
  Moves-total counted_weight m,
  Moves-length m,
  total-le checked_weight us checked_weight-le,
)

module _ {C S : Type 0} (mpsc : Mpsc C) (w : AsyncWrite S) (max_pending : ℕ) where
  -- The frames that are on their way: counted and not yet queued, queued, in the batch, or left
  -- behind by a failed write.
  abbrev pub under_way : System C S → ℕ
  under_way s =
      counted_tasks s.senders + (length s.batch + (length s.lost + length (mpsc.queue s.channel)))

  -- Nothing is lost while the loop runs, and nothing is in the batch while it receives.
  abbrev Rest : Loop → List OutboundFrame → List OutboundFrame → Type 0
  Rest receiving batch lost = (length batch ≡ 0) × (length lost ≡ 0)
  Rest (returned r) batch lost = Unit {0}
  Rest _ batch lost = length lost ≡ 0

  abbrev RestOf : System C S → Type 0
  RestOf s = Rest s.loop s.batch s.lost

  record Inv (n : ℕ) (s : System C S) : Type 0 where
    counts : s.pending ≡ under_way s
    tasks_stay : length s.senders ≡ n
    overshoot : suc (s.pending + total checked_weight s.senders) ≤ max_pending + n

  at_place : (s : System C S) {l : Loop} → RestOf s → s.loop ≡ l → Rest l s.batch s.lost
  at_place s v now = subst (λ l. Rest l s.batch s.lost) now v

  dropped : (s : System C S) → length (mpsc.queue (mpsc.drop_receiver s.channel)) ≡ 0
  dropped s = ap length (mpsc.drop_receiver_drops s.channel)

  SenderStep-Inv :
      {n : ℕ} {s t : System C S}
      → max_pending + n < usize_mod
      → SenderStep mpsc w max_pending s t
      → Inv n s
      → Inv n t
  SenderStep-Inv fits (load_free f hf free m) v = omega (arith, Moves-counts m)
  SenderStep-Inv fits (load_full f hf full m) v = omega (arith, Moves-counts m)
  SenderStep-Inv fits (load_again f free m) v = omega (arith, Moves-counts m)
  SenderStep-Inv fits (time_up f full m) v = omega (arith, Moves-counts m)
  SenderStep-Inv fits (add f m) v = omega (arith, Moves-counts m)
  SenderStep-Inv {s = s} fits (queue_frame {us} {c} f e m) v = omega (
    arith,
    Moves-counts m,
    ap length (mpsc.send_queues s.channel c f e),
    length-append (mpsc.queue s.channel) (f ∷ []),
  )
  SenderStep-Inv fits (queue_full f e m) v = omega (arith, Moves-counts m)
  SenderStep-Inv fits (queue_closed f e m) v = omega (arith, Moves-counts m)

  SenderStep-Rest : {s t : System C S} → SenderStep mpsc w max_pending s t → RestOf s → RestOf t
  SenderStep-Rest (load_free f hf free m) q = q
  SenderStep-Rest (load_full f hf full m) q = q
  SenderStep-Rest (load_again f free m) q = q
  SenderStep-Rest (time_up f full m) q = q
  SenderStep-Rest (add f m) q = q
  SenderStep-Rest (queue_frame f e m) q = q
  SenderStep-Rest (queue_full f e m) q = q
  SenderStep-Rest (queue_closed f e m) q = q

  LoopStep-Rest : {s t : System C S} → LoopStep mpsc w max_pending s t → RestOf s → RestOf t
  LoopStep-Rest {s = s} (recv_first now e) q = (at_place s q now).1
  LoopStep-Rest (recv_none now e) q = tt
  LoopStep-Rest {s = s} (try_recv_more now room e) q = at_place s q now
  LoopStep-Rest {s = s} (batch_full now room) q = at_place s q now
  LoopStep-Rest {s = s} (try_recv_nothing now e) q = at_place s q now
  LoopStep-Rest {s = s} (try_recv_disconnected now e) q = at_place s q now
  LoopStep-Rest {s = s} (write_ok now e) q = at_place s q now
  LoopStep-Rest {s = s} (write_err now e) q = tt
  LoopStep-Rest {s = s} (count_off now) q = (refl, at_place s q now)

  Reach-Rest :
      (n : ℕ) (c : C) (sink : S) {t : System C S}
      → Reach mpsc w max_pending (start mpsc w max_pending n c sink) t
      → RestOf t
  Reach-Rest n c sink here = (refl, refl)
  Reach-Rest n c sink (sender_step r st) = SenderStep-Rest st (Reach-Rest n c sink r)
  Reach-Rest n c sink (loop_step r st) = LoopStep-Rest st (Reach-Rest n c sink r)

  LoopStep-Inv :
      {n : ℕ} {s t : System C S}
      → max_pending + n < usize_mod
      → LoopStep mpsc w max_pending s t
      → RestOf s
      → Inv n s
      → Inv n t
  LoopStep-Inv {s = s} fits (recv_first {c} {f} now e) q v =
      let r = at_place s q now in omega (arith, ap length (mpsc.recv_takes s.channel c f e))
  LoopStep-Inv {s = s} fits (recv_none now e) q v =
      omega (arith, ap length (mpsc.recv_disconnected s.channel e), dropped s)
  LoopStep-Inv {s = s} fits (try_recv_more {c} {f} now room e) q v =
      let r = at_place s q now in
      omega (arith, ap length (mpsc.recv_takes s.channel c f e), length-append s.batch (f ∷ []))
  LoopStep-Inv {s = s} fits (batch_full now room) q v = let r = at_place s q now in omega arith
  LoopStep-Inv {s = s} fits (try_recv_nothing now e) q v = let r = at_place s q now in omega arith
  LoopStep-Inv {s = s} fits (try_recv_disconnected now e) q v =
      let r = at_place s q now in omega arith
  LoopStep-Inv {s = s} fits (write_ok now e) q v = let r = at_place s q now in omega arith
  LoopStep-Inv {s = s} fits (write_err now e) q v =
      let r = at_place s q now in
      omega (arith, dropped s, length-append s.batch (mpsc.queue s.channel))
  LoopStep-Inv {s = s} fits (count_off now) q v = let r = at_place s q now in omega arith

  start-Inv :
      (n : ℕ) (c : C) (sink : S)
      → 0 < n
      → mpsc.queue c ≡ []
      → Inv n (start mpsc w max_pending n c sink)
  start-Inv n c sink pos empty = omega (
    arith,
    ap length empty,
    length-replicate n idle,
    total-replicate checked_weight n idle refl,
    total-replicate counted_weight n idle refl,
  )

  -- However `n` tasks that send and the writer task take turns, the counter is exactly the number of
  -- frames that are counted and not yet queued, queued, in the batch of the writer, or left behind by
  -- a write that failed; it never wraps, and it stays below the limit plus the number of tasks.
  pub Reach-Counts :
      (n : ℕ) (c : C) (sink : S) (s : System C S)
      → 0 < n
      → max_pending + n < usize_mod
      → mpsc.queue c ≡ []
      → Reach mpsc w max_pending (start mpsc w max_pending n c sink) s
      → (s.pending ≡ under_way s) × (s.pending < max_pending + n)
  Reach-Counts n c sink s pos fits empty r = let v = reached r in omega arith
    where
      reached :
          {t : System C S}
          → Reach mpsc w max_pending (start mpsc w max_pending n c sink) t
          → Inv n t
      reached here = start-Inv n c sink pos empty
      reached (sender_step r st) = SenderStep-Inv fits st (reached r)
      reached (loop_step r st) = LoopStep-Inv fits st (Reach-Rest n c sink r) (reached r)
