-- ===== src/Writer/Handle/Sends.antt =====
-- What sending a frame does, on every branch.
use procwire_rust.Base.{
  ℕ, suc, ◌≤◌, ◌<◌, ◌≡◌, refl, ◌⊎◌, inl, inr, List, [], ◌∷◌, ◌++◌, arith, leb, All, Bool-cases,
}
use procwire_rust.Error.{Result, ok, err, backpressure_timeout, connection_closed}
use procwire_rust.Backpressure.{usize_mod, fetch_add}
use procwire_rust.Writer.Defs.{OutboundFrame}
use procwire_rust.Writer.Channel.{Mpsc, Sent, sent, full, closed}
use procwire_rust.Writer.Handle.{
  Shared, Limits, Round, Sending, returned, waits_for_backpressure, waits_for_room, try_hand_over,
  try_send,
}

module _ {C : Type 0} (mpsc : Mpsc C) where
  -- What may come of trying to send: the frame is queued behind the others and counted; or the
  -- counter is at the limit or the channel full; or the channel is closed. A frame that is not
  -- queued is not counted.
  abbrev pub Tried : Limits → Shared C → OutboundFrame → Result (Unit {0}) × Shared C → Type 0
  Tried h s f (ok u, s') =
      (s.pending < h.max_pending)
      × (s'.pending ≡ suc s.pending)
      × (mpsc.queue s'.channel ≡ mpsc.queue s.channel ++ (f ∷ []))
  Tried h s f (err e, s') =
      (s' ≡ s)
      × (((e ≡ backpressure_timeout)
            × ((h.max_pending ≤ s.pending) ⊎ (mpsc.try_send s.channel f ≡ full)))
          ⊎ ((e ≡ connection_closed) × (mpsc.try_send s.channel f ≡ closed)))

  Sent-cases : (r : Sent C) → ((c : C) × (r ≡ sent c)) ⊎ ((r ≡ full) ⊎ (r ≡ closed))
  Sent-cases (sent c) = inl (c, refl)
  Sent-cases full = inr (inl refl)
  Sent-cases closed = inr (inr refl)

  -- `try_send` queues the frame and counts it, or refuses it and leaves the channel and the counter
  -- as they were; the error says which of limit, full channel and closed channel it met.
  pub try_send-Tried :
      (h : Limits) (s : Shared C) (f : OutboundFrame)
      → h.max_pending < usize_mod
      → Tried h s f (try_send mpsc h s f)
  unfolding try_send try_hand_over
  try_send-Tried h s f fits = elim (Bool-cases (leb h.max_pending s.pending)) [
    | inl at_limit ↦ rw at_limit (ground arith)
    | inr free ↦ rw free (elim (Sent-cases (mpsc.try_send s.channel f)) [
      | inl (c, e) ↦ rw (try_hand_over, e) (ground (arith, mpsc.send_queues s.channel c f e))
      | inr (inl e) ↦ rw (try_hand_over, e) (ground arith)
      | inr (inr e) ↦ rw (try_hand_over, e) (ground arith)
    ])
  ]

  -- What may come of a `send` whose last load has seen `seen`, and whose add meets the state `met`.
  -- Below the limit it counts the frame, and then queues it behind the others, or waits for room in a
  -- full channel with the frame counted, or finds the channel closed and counts the frame off again. At
  -- the limit it counts nothing and returns with `BackpressureTimeout`.
  abbrev pub Outcome : Limits → Shared C → Shared C → OutboundFrame → Sending C → Type 0
  Outcome h seen met f waits_for_backpressure = ⊥
  Outcome h seen met f (waits_for_room s') =
      (seen.pending < h.max_pending)
      × (s' ≡ record met { pending = fetch_add met.pending 1 })
      × (mpsc.try_send met.channel f ≡ full)
  Outcome h seen met f (returned (ok u) s') =
      (seen.pending < h.max_pending)
      × (s'.pending ≡ fetch_add met.pending 1)
      × (mpsc.queue s'.channel ≡ mpsc.queue met.channel ++ (f ∷ []))
  Outcome h seen met f (returned (err e) s') =
      ((e ≡ backpressure_timeout) × (h.max_pending ≤ seen.pending) × (s' ≡ seen))
      ⊎ ((e ≡ connection_closed)
          × (seen.pending < h.max_pending)
          × (mpsc.try_send met.channel f ≡ closed)
          × (s'.channel ≡ met.channel)
          × (s'.pending ≡ met.pending))

  -- Some round of the wait comes after the timeout.
  abbrev pub Expires : ℕ → List (Round C) → Type 0
  Expires timeout [] = ⊥
  Expires timeout (r ∷ rounds) = (timeout < r.elapsed) ⊎ Expires timeout rounds

  -- Some round of the wait has these states.
  abbrev pub IsRound : Shared C → Shared C → List (Round C) → Type 0
  IsRound seen met [] = ⊥
  IsRound seen met (r ∷ rounds) = ((seen ≡ r.seen) × (met ≡ r.met)) ⊎ IsRound seen met rounds

  -- The counters that an add may meet are `usize`.
  abbrev pub AllFit : List (Round C) → Type 0
  AllFit rounds = All (λ (r : Round C). r.met.pending < usize_mod) rounds
