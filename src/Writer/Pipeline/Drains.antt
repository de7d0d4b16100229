-- ===== src/Writer/Pipeline/Drains.antt =====
-- The writer task alone comes to rest, and then all accepted frames are written.
use procwire_rust.Base.{
  ℕ, ◌+◌, ◌≤◌, ◌≡◌, refl, sym, ap, subst, ◌∙◌, ◌≢◌, ◌⊎◌, inl, inr, List, [], arith, append-nil,
}
use procwire_rust.Error.{Result, ok, err, ProcwireError}
use procwire_rust.Writer.Defs.{OutboundFrame}
use procwire_rust.Writer.Channel.{Mpsc, Received, received, nothing_yet, disconnected}
use procwire_rust.Writer.Batch.{AsyncWrite, write_batch}
use procwire_rust.Writer.Batch.Slices.{batch_bytes}
use procwire_rust.Writer.Pipeline.{
  Loop, receiving, collecting, writing, written, returned, System, LoopStep, Reach, start,
  recv_first, recv_none, try_recv_more, batch_full, try_recv_nothing, try_recv_disconnected,
  write_ok, write_err, count_off, loop_step,
}
use procwire_rust.Writer.Pipeline.Progress.{
  LoopRun, stay, go_on, steps, work, LoopRun-work, IsAtRest, collecting-Moves, writing-Moves,
  LoopRun-both, comes_to_rest,
}
use procwire_rust.Writer.Pipeline.Whereabouts.{SinkAt, Inv, Reach-Inv}

module _ {C S : Type 0} (mpsc : Mpsc C) (w : AsyncWrite S) (max_pending : ℕ) where
  -- The task takes no frame that it has not been sent.
  LoopStep-accepted : {s t : System C S} → LoopStep mpsc w max_pending s t → t.accepted ≡ s.accepted
  LoopStep-accepted (recv_first now e) = refl
  LoopStep-accepted (recv_none now e) = refl
  LoopStep-accepted (try_recv_more now room e) = refl
  LoopStep-accepted (batch_full now room) = refl
  LoopStep-accepted (try_recv_nothing now e) = refl
  LoopStep-accepted (try_recv_disconnected now e) = refl
  LoopStep-accepted (write_ok now e) = refl
  LoopStep-accepted (write_err now e) = refl
  LoopStep-accepted (count_off now) = refl

  LoopRun-accepted : {s t : System C S} → LoopRun mpsc w max_pending s t → t.accepted ≡ s.accepted
  LoopRun-accepted stay = refl
  LoopRun-accepted (go_on run st) = LoopStep-accepted st ∙ LoopRun-accepted run

  -- A task that has returned leaves an empty channel.
  abbrev Leaves : Loop → List OutboundFrame → Type 0
  Leaves (returned r) q = q ≡ []
  Leaves _ q = Unit {0}

  abbrev LeavesNone : System C S → Type 0
  LeavesNone s = Leaves s.loop (mpsc.queue s.channel)

  LoopStep-LeavesNone : {s t : System C S} → LoopStep mpsc w max_pending s t → LeavesNone t
  LoopStep-LeavesNone (recv_first now e) = tt
  LoopStep-LeavesNone {s = s} (recv_none now e) = mpsc.drop_receiver_drops s.channel
  LoopStep-LeavesNone (try_recv_more now room e) = tt
  LoopStep-LeavesNone (batch_full now room) = tt
  LoopStep-LeavesNone (try_recv_nothing now e) = tt
  LoopStep-LeavesNone (try_recv_disconnected now e) = tt
  LoopStep-LeavesNone (write_ok now e) = tt
  LoopStep-LeavesNone {s = s} (write_err now e) = mpsc.drop_receiver_drops s.channel
  LoopStep-LeavesNone (count_off now) = tt

  LoopRun-LeavesNone :
      {s t : System C S} → LoopRun mpsc w max_pending s t → LeavesNone s → LeavesNone t
  LoopRun-LeavesNone stay h = h
  LoopRun-LeavesNone (go_on run st) h = LoopStep-LeavesNone st

  -- What is at rest: all accepted frames are written and counted off, or a write has failed.
  abbrev pub Drained : List OutboundFrame → System C S → Type 0
  Drained accepted t =
      ((e : ProcwireError) × (t.loop ≡ returned (err e)))
      ⊎ ((t.done ≡ accepted) × (w.sent t.sink ≡ batch_bytes accepted))

  all_done :
      (t : System C S)
      → Inv mpsc w max_pending t
      → t.batch ≡ []
      → t.lost ≡ []
      → mpsc.queue t.channel ≡ []
      → w.sent t.sink ≡ batch_bytes t.done
      → Drained t.accepted t
  all_done t v no_batch no_lost no_queue holds =
      let same : t.done ≡ t.accepted =
        sym (v.in_order ∙ rw (no_batch, no_lost, no_queue) (append-nil t.done)) in
      inr (same, holds ∙ ap batch_bytes same)

  module _ (t : System C S) (v : Inv mpsc w max_pending t)
      (rest : IsAtRest mpsc w max_pending t) where
    receiving-Drained :
        t.loop ≡ receiving
        → SinkAt mpsc w max_pending receiving t
        → (r : Received C) → mpsc.try_recv t.channel ≡ r
        → Drained t.accepted t
    receiving-Drained now sink (received f c) e = absurd (rest _ (recv_first now e))
    receiving-Drained now sink disconnected e = absurd (rest _ (recv_none now e))
    receiving-Drained now (no_batch, no_lost, holds) nothing_yet e =
        all_done t v no_batch no_lost (mpsc.recv_nothing t.channel e) holds

    rest-Drained : LeavesNone t → Drained t.accepted t
    rest-Drained none_left = go t.loop refl v.sink_holds none_left
      where
        go :
            (l : Loop)
            → t.loop ≡ l
            → SinkAt mpsc w max_pending l t
            → Leaves l (mpsc.queue t.channel)
            → Drained t.accepted t
        go receiving now sink h = receiving-Drained now sink (mpsc.try_recv t.channel) refl
        go collecting now sink h =
            let (u, st) =
              collecting-Moves mpsc w max_pending t now (mpsc.try_recv t.channel) refl in
            absurd (rest u st)
        go writing now sink h =
            let (u, st) =
              writing-Moves mpsc w max_pending t now (write_batch w t.batch t.sink) refl in
            absurd (rest u st)
        go written now sink h = absurd (rest _ (count_off now))
        go (returned (ok u)) now (no_batch, no_lost, holds) h =
            all_done t v no_batch no_lost h holds
        go (returned (err e)) now sink h = inl (e, now)

  LoopRun-Reach :
      {r s t : System C S}
      → Reach mpsc w max_pending r s
      → LoopRun mpsc w max_pending s t
      → Reach mpsc w max_pending r t
  LoopRun-Reach before stay = before
  LoopRun-Reach before (go_on run st) = loop_step (LoopRun-Reach before run) st

  -- From whatever tasks that send have made of the channel, as long as the writer task has not
  -- returned: any run of its own steps can be continued to one that ends, and has at most `work` steps
  -- in all; where it ends the task has no step left, and all frames that the channel has taken are
  -- written and counted off, in order, unless a write has failed.
  pub LoopRun-Drained :
      (n : ℕ) (c : C) (sink : S) (s t : System C S)
      → mpsc.queue c ≡ []
      → w.sent sink ≡ []
      → Reach mpsc w max_pending (start mpsc w max_pending n c sink) s
      → ((r : Result (Unit {0})) → s.loop ≢ returned r)
      → (run : LoopRun mpsc w max_pending s t)
      → (u : System C S) × (more : LoopRun mpsc w max_pending t u) × (steps mpsc w max_pending run
            + steps mpsc w max_pending more
          ≤ work mpsc w max_pending s)
        × IsAtRest mpsc w max_pending u
        × Drained s.accepted u
  LoopRun-Drained n c sink s t no_queue nothing before running run =
      let (u, more, rest) = comes_to_rest mpsc w max_pending t in
      let whole = LoopRun-both mpsc w max_pending run more in
      let v = Reach-Inv mpsc w max_pending n c sink no_queue nothing (LoopRun-Reach before whole) in
      let drained = rest-Drained u v rest (LoopRun-LeavesNone whole (leaves s.loop refl)) in
      (
        u,
        more,
        omega (arith, LoopRun-work mpsc w max_pending run, LoopRun-work mpsc w max_pending more),
        rest,
        subst (λ accepted. Drained accepted u) (LoopRun-accepted whole) drained,
      )
    where
      leaves : (l : Loop) → s.loop ≡ l → Leaves l (mpsc.queue s.channel)
      leaves (returned r) now = absurd (running r now)
      leaves receiving now = tt
      leaves collecting now = tt
      leaves writing now = tt
      leaves written now = tt
