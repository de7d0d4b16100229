-- ===== src/Writer/PipelineTests.antt =====
-- A run of handles and writer task over a concrete channel, and the theorems on it.
use procwire_rust.Base.{
  ℕ, ◌+◌, ◌≤◌, ◌<◌, ◌≡◌, refl, List, [], ◌∷◌, ◌++◌, arith, length, ltb, if◌then◌else◌,
}
use procwire_rust.Base.Tasks.{first, later}
use procwire_rust.Writer.Defs.{OutboundFrame}
use procwire_rust.Writer.Channel.{
  Mpsc, Sent, sent, full, closed, Received, received, nothing_yet, disconnected,
}
use procwire_rust.Writer.Batch.{write_batch, all_slices, total_size, build_remaining_slices}
use procwire_rust.Writer.Handle.{
  Shared, Limits, Round, returned, send, try_send, wait_for_backpressure, after_wait,
}
use procwire_rust.Error.{err, backpressure_timeout}
use procwire_rust.Writer.Handle.Sends.{Tried, try_send-Tried}
use procwire_rust.Writer.Pipeline.{
  System, Reach, start, load_free, add, queue_frame, recv_first, try_recv_nothing, write_ok, here,
  sender_step, loop_step, idle, written, receiving, count_off,
}
use procwire_rust.Writer.Pipeline.Counts.{under_way, Reach-Counts}
use procwire_rust.Writer.Pipeline.Drains.{Drained, LoopRun-Drained}
use procwire_rust.Writer.Pipeline.Progress.{LoopRun, stay, go_on, steps, work, IsAtRest}
use procwire_rust.Writer.Pipeline.Order.{IsPrefix, Reach-Order}
use procwire_rust.Writer.Pipeline.Whereabouts.{whereabouts}
use procwire_rust.Writer.Tests.{frame, trickle}

-- A channel with room for two frames whose senders stay; its state is its queue.
abbrev pub send_two : List OutboundFrame → OutboundFrame → Sent (List OutboundFrame)
send_two q f = if ltb (length q) 2 then sent (q ++ (f ∷ [])) else full

abbrev pub recv_two : List OutboundFrame → Received (List OutboundFrame)
recv_two [] = nothing_yet
recv_two (f ∷ q) = received f q

pub send_two-queues :
    (q q' : List OutboundFrame) (f : OutboundFrame) → send_two q f ≡ sent q' → q' ≡ q ++ (f ∷ [])
send_two-queues q q' f e = ground arith

pub recv_two-takes :
    (q q' : List OutboundFrame) (f : OutboundFrame) → recv_two q ≡ received f q' → q ≡ f ∷ q'
recv_two-takes [] q' f e = cc
recv_two-takes (g ∷ q) q' f e = cc

pub recv_two-nothing : (q : List OutboundFrame) → recv_two q ≡ nothing_yet → q ≡ []
recv_two-nothing [] e = refl
recv_two-nothing (g ∷ q) e = cc

pub recv_two-disconnected : (q : List OutboundFrame) → recv_two q ≡ disconnected → q ≡ []
recv_two-disconnected [] e = refl
recv_two-disconnected (g ∷ q) e = cc

abbrev pub two : Mpsc (List OutboundFrame)
two = record {
  try_send = send_two;
  try_recv = recv_two;
  drop_receiver = λ q. [];
  queue = λ q. q;
  send_queues = send_two-queues;
  recv_takes = recv_two-takes;
  recv_nothing = recv_two-nothing;
  recv_disconnected = recv_two-disconnected;
  drop_receiver_drops = λ q. refl;
}

abbrev limits : Limits
limits = record { max_pending = 1; timeout = 10 }

abbrev quiet : Shared (List OutboundFrame)
quiet = record { channel = []; pending = 0 }

abbrev busy : Shared (List OutboundFrame)
busy = record { channel = frame ∷ []; pending = 1 }

abbrev wait : List (Round (List OutboundFrame))
wait =
    record { seen = busy; met = busy; elapsed = 5 }
    ∷ record { seen = quiet; met = busy; elapsed = 11 }
    ∷ []

try_send-Tried_example : Tried two limits quiet frame (try_send two limits quiet frame)
try_send-Tried_example = try_send-Tried two limits quiet frame (omega arith)

-- One of two tasks sends a frame, which the writer task takes and writes.
abbrev pub at_end : System (List OutboundFrame) (List ℕ)
at_end = record {
  channel = [];
  pending = 1;
  senders = idle ∷ idle ∷ [];
  loop = written;
  batch = frame ∷ [];
  sink = frame.header ++ frame.payload;
  accepted = frame ∷ [];
  done = [];
  lost = [];
}

pub run_two : Reach two trickle 1 (start two trickle 1 2 [] []) at_end
unfolding write_batch build_remaining_slices all_slices total_size
run_two =
    loop_step
      (loop_step
        (loop_step
          (sender_step
            (sender_step (sender_step here (load_free frame refl (omega arith) (later first)))
              (add frame (later first)))
            (queue_frame frame refl (later first)))
          (recv_first refl refl))
        (try_recv_nothing refl refl))
      (write_ok refl refl)

Reach-Counts_example : (at_end.pending ≡ under_way two trickle 1 at_end) × (at_end.pending < 1 + 2)
Reach-Counts_example =
    Reach-Counts two trickle 1 2 [] [] at_end (omega arith) (omega arith) refl run_two

Reach-Order_example :
    (at_end.accepted ≡ whereabouts two trickle 1 at_end) × IsPrefix two trickle 1 at_end
Reach-Order_example = Reach-Order two trickle 1 2 [] [] at_end refl refl run_two

-- The writer task counts the frame off, and waits for the next.
abbrev drained : System (List OutboundFrame) (List ℕ)
drained = record at_end { loop = receiving; pending = 0; batch = []; done = frame ∷ [] }

count_off_run : LoopRun two trickle 1 at_end drained
count_off_run = go_on stay (count_off refl)

LoopRun-Drained_example :
    (u : System (List OutboundFrame) (List ℕ)) × (more : LoopRun two trickle 1 drained u) × (steps
          two trickle 1 count_off_run
        + steps two trickle 1 more
      ≤ work two trickle 1 at_end)
    × IsAtRest two trickle 1 u
    × Drained two trickle 1 at_end.accepted u
LoopRun-Drained_example =
    LoopRun-Drained two trickle 1 2 [] [] at_end drained refl refl run_two (λ r e. absurd (cc))
      count_off_run

-- A channel whose receiver is gone, with a frame still counted, as a failed write leaves them.
gone : Mpsc (Unit {0})
gone = record {
  try_send = λ c f. closed;
  try_recv = λ c. disconnected;
  drop_receiver = λ c. c;
  queue = λ c. [];
  send_queues = λ c c' f e. absurd (cc);
  recv_takes = λ c c' f e. absurd (cc);
  recv_nothing = λ c e. refl;
  recv_disconnected = λ c e. refl;
  drop_receiver_drops = λ c. refl;
}

abbrev left_over : Shared (Unit {0})
left_over = record { channel = tt; pending = 1 }

-- `send` waits for its whole time, and does not say that the connection is closed.
times_out :
    send gone limits left_over left_over
      (record { seen = left_over; met = left_over; elapsed = 5 }
        ∷ record { seen = left_over; met = left_over; elapsed = 11 }
        ∷ [])
      frame
    ≡ returned (err backpressure_timeout) left_over
unfolding send wait_for_backpressure after_wait
times_out = refl
