-- ===== src/Writer/Pipeline.antt =====
-- src/writer.rs: the handles and the writer task together, as steps of one system. Each task is where it
-- stands between two operations on the shared counter and channel, and any task may make the next
-- step. A handle's task that is past its checks cannot be refused by the counter any more.
pub mod Counts
pub mod Whereabouts
pub mod Order
pub mod Progress
pub mod Drains
use procwire_rust.Base.{ℕ, ◌≤◌, ◌<◌, ◌≡◌, List, [], ◌∷◌, ◌++◌, length, replicate}
use procwire_rust.Base.Tasks.{Moves}
use procwire_rust.Error.{Result, ok, err, ProcwireError}
use procwire_rust.Backpressure.{fetch_add, fetch_sub}
use procwire_rust.Writer.Defs.{OutboundFrame, max_batch_size}
use procwire_rust.Writer.Channel.{
  Mpsc, Sent, sent, full, closed, received, nothing_yet, disconnected,
}
use procwire_rust.Writer.Batch.{AsyncWrite, write_batch}
use procwire_rust.Writer.Batch.Slices.{HasHeader}

-- A task that sends: outside of `send` and `try_send`; past their checks, about to add; waiting in
-- `wait_for_backpressure`; past the add, about to queue.
pub data Sender : Type 0 where
  idle : Sender
  checked : OutboundFrame → Sender
  waiting : OutboundFrame → Sender
  counted : OutboundFrame → Sender

-- The writer task: at `recv`, filling a batch, past that, past the write, or returned.
pub data Loop : Type 0 where
  receiving collecting writing written : Loop
  returned : Result (Unit {0}) → Loop

pub record System (C S : Type 0) : Type 0 where
  pub channel : C
  pub pending : ℕ
  pub senders : List Sender
  pub loop : Loop
  pub batch : List OutboundFrame
  pub sink : S
  -- all frames that the channel has taken, and those of the batches that are written and counted off
  pub accepted : List OutboundFrame
  pub done : List OutboundFrame
  -- the frames that a failed write has left in the batch and in the channel
  pub lost : List OutboundFrame

module _ {C S : Type 0} (mpsc : Mpsc C) (w : AsyncWrite S) (max_pending : ℕ) where
  -- `send`, `wait_for_backpressure` and `try_send`; the type of a frame says that it has a header.
  pub data SenderStep (s : System C S) : System C S → Type 0 where
    load_free :
        {us : List Sender} (f : OutboundFrame)
        → HasHeader f
        → s.pending < max_pending
        → Moves idle (checked f) s.senders us
        → SenderStep s (record s { senders = us })
    -- `try_send` returns here, and its task stays idle
    load_full :
        {us : List Sender} (f : OutboundFrame)
        → HasHeader f
        → max_pending ≤ s.pending
        → Moves idle (waiting f) s.senders us
        → SenderStep s (record s { senders = us })
    load_again :
        {us : List Sender} (f : OutboundFrame)
        → s.pending < max_pending
        → Moves (waiting f) (checked f) s.senders us
        → SenderStep s (record s { senders = us })
    -- `BackpressureTimeout`
    time_up :
        {us : List Sender} (f : OutboundFrame)
        → max_pending ≤ s.pending
        → Moves (waiting f) idle s.senders us
        → SenderStep s (record s { senders = us })
    add :
        {us : List Sender} (f : OutboundFrame)
        → Moves (checked f) (counted f) s.senders us
        → SenderStep s (record s { senders = us; pending = fetch_add s.pending 1 })
    queue_frame :
        {us : List Sender} {c : C} (f : OutboundFrame)
        → mpsc.try_send s.channel f ≡ sent c
        → Moves (counted f) idle s.senders us
        → SenderStep s (record s { senders = us; channel = c; accepted = s.accepted ++ (f ∷ []) })
    -- `BackpressureTimeout` of `try_send`; in `send` the task stays where it is
    queue_full :
        {us : List Sender} (f : OutboundFrame)
        → mpsc.try_send s.channel f ≡ full
        → Moves (counted f) idle s.senders us
        → SenderStep s (record s { senders = us; pending = fetch_sub s.pending 1 })
    -- `ConnectionClosed`
    queue_closed :
        {us : List Sender} (f : OutboundFrame)
        → mpsc.try_send s.channel f ≡ closed
        → Moves (counted f) idle s.senders us
        → SenderStep s (record s { senders = us; pending = fetch_sub s.pending 1 })

  -- `writer_loop`
  pub data LoopStep (s : System C S) : System C S → Type 0 where
    recv_first :
        {c : C} {f : OutboundFrame}
        → s.loop ≡ receiving
        → mpsc.try_recv s.channel ≡ received f c
        → LoopStep s (record s { loop = collecting; channel = c; batch = f ∷ [] })
    recv_none :
        s.loop ≡ receiving
        → mpsc.try_recv s.channel ≡ disconnected
        → LoopStep s (record s { loop = returned (ok tt); channel = mpsc.drop_receiver s.channel })
    try_recv_more :
        {c : C} {f : OutboundFrame}
        → s.loop ≡ collecting
        → length s.batch < max_batch_size
        → mpsc.try_recv s.channel ≡ received f c
        → LoopStep s (record s { loop = collecting; channel = c; batch = s.batch ++ (f ∷ []) })
    batch_full :
        s.loop ≡ collecting
        → max_batch_size ≤ length s.batch
        → LoopStep s (record s { loop = writing })
    try_recv_nothing :
        s.loop ≡ collecting
        → mpsc.try_recv s.channel ≡ nothing_yet
        → LoopStep s (record s { loop = writing })
    try_recv_disconnected :
        s.loop ≡ collecting
        → mpsc.try_recv s.channel ≡ disconnected
        → LoopStep s (record s { loop = writing })
    write_ok :
        {sink : S}
        → s.loop ≡ writing
        → write_batch w s.batch s.sink ≡ (ok tt, sink)
        → LoopStep s (record s { loop = written; sink = sink })
    -- `?` returns, and the receiver is dropped with the frames that it holds
    write_err :
        {sink : S} {e : ProcwireError}
        → s.loop ≡ writing
        → write_batch w s.batch s.sink ≡ (err e, sink)
        → LoopStep s (record s {
          loop = returned (err e);
          sink = sink;
          channel = mpsc.drop_receiver s.channel;
          batch = [];
          lost = s.batch ++ mpsc.queue s.channel;
        })
    count_off :
        s.loop ≡ written
        → LoopStep s (record s {
          loop = receiving;
          pending = fetch_sub s.pending (length s.batch);
          batch = [];
          done = s.done ++ s.batch;
        })

  pub data Reach (s : System C S) : System C S → Type 0 where
    here : Reach s s
    sender_step : {t u : System C S} → Reach s t → SenderStep t u → Reach s u
    loop_step : {t u : System C S} → Reach s t → LoopStep t u → Reach s u

  -- `spawn_writer_task`, and `n` tasks with a clone of its handle.
  abbrev pub start : ℕ → C → S → System C S
  start n channel sink = record {
    channel = channel;
    pending = 0;
    senders = replicate n idle;
    loop = receiving;
    batch = [];
    sink = sink;
    accepted = [];
    done = [];
    lost = [];
  }
