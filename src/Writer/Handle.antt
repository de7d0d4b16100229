-- ===== src/Writer/Handle.antt =====
-- src/writer.rs, `WriterHandle`: sending a frame to the writer task. The counter of pending frames and
-- the channel are shared by all handles and are the state here; times are in microseconds.
pub mod Sends
use procwire_rust.Base.{ℕ, Bool, Option, none, some, List, [], ◌∷◌, ltb, leb, if◌then◌else◌}
use procwire_rust.Error.{Result, ok, err, backpressure_timeout, connection_closed}
use procwire_rust.Backpressure.{fetch_add, fetch_sub}
use procwire_rust.Writer.Defs.{OutboundFrame, WriterConfig}
use procwire_rust.Writer.Channel.{Mpsc, Sent, sent, full, closed}

pub record Shared (C : Type 0) : Type 0 where
  pub channel : C
  pub pending : ℕ

-- One round of a wait: what its `load` sees of the shared state, what the other tasks have made of it by
-- an add behind this load, and the time that has passed.
pub record Round (C : Type 0) : Type 0 where
  pub seen : Shared C
  pub met : Shared C
  pub elapsed : ℕ

-- How far a `send` has come: it has returned, it waits in `wait_for_backpressure`, or it waits for room
-- in the channel, with its frame counted.
pub data Sending (C : Type 0) : Type 0 where
  returned : Result (Unit {0}) → Shared C → Sending C
  waits_for_backpressure : Sending C
  waits_for_room : Shared C → Sending C

-- What a handle keeps for itself.
pub record Limits : Type 0 where
  pub max_pending : ℕ
  pub timeout : ℕ

-- `spawn_writer_task`: the handle and the shared state that it starts with, over a new channel.
abbrev pub spawn : {C : Type 0} → WriterConfig → C → Limits × Shared C
spawn config channel = (
  record { max_pending = config.max_pending_frames; timeout = config.backpressure_timeout },
  record { channel = channel; pending = 0 },
)

module _ {C : Type 0} (mpsc : Mpsc C) where
  unfoldable pub is_backpressure_active : Limits → Shared C → Bool
  is_backpressure_active h s = leb h.max_pending s.pending

  -- The end of `send`, once the counter counts the frame. A full channel keeps the task waiting, and
  -- once others have made room it comes here again.
  unfoldable pub hand_over : Shared C → OutboundFrame → Sending C
  hand_over s frame = elim (mpsc.try_send s.channel frame) [
    | sent c ↦ returned (ok tt) (record s { channel = c })
    | full ↦ waits_for_room s
    | closed ↦ returned (err connection_closed) (record s { pending = fetch_sub s.pending 1 })
  ]

  -- `fetch_add(1)`, and the frame goes to the channel.
  unfoldable pub count_and_hand_over : Shared C → OutboundFrame → Sending C
  unfolding hand_over
  count_and_hand_over s frame = hand_over (record s { pending = fetch_add s.pending 1 }) frame

  -- The loop of `wait_for_backpressure`, with the round in which it ends; `none` is a task that still
  -- waits when the rounds end.
  unfoldable pub wait_for_backpressure :
      Limits → List (Round C) → Option (Result (Unit {0}) × Round C)
  wait_for_backpressure h [] = none
  wait_for_backpressure h (r ∷ rounds) =
      let again = wait_for_backpressure h rounds in
      if ltb r.seen.pending h.max_pending
      then some (ok tt, r)
      else if ltb h.timeout r.elapsed
      then some (err backpressure_timeout, r)
      else again

  -- `?` on the end of the wait.
  unfoldable pub after_wait : OutboundFrame → Option (Result (Unit {0}) × Round C) → Sending C
  unfolding count_and_hand_over
  after_wait frame none = waits_for_backpressure
  after_wait frame (some (err e, r)) = returned (err e) r.seen
  after_wait frame (some (ok u, r)) = count_and_hand_over r.met frame

  -- `s` is the state at the first load, `met` the one at the add behind it.
  unfoldable pub send : Limits → Shared C → Shared C → List (Round C) → OutboundFrame → Sending C
  unfolding wait_for_backpressure after_wait
  send h s met rounds frame =
      if leb h.max_pending s.pending
      then after_wait frame (wait_for_backpressure h rounds)
      else count_and_hand_over met frame

  -- The end of `try_send`; the frame of a full channel is refused.
  unfoldable pub try_hand_over : Shared C → OutboundFrame → Result (Unit {0}) × Shared C
  try_hand_over s frame = elim (mpsc.try_send s.channel frame) [
    | sent c ↦ (ok tt, record s { channel = c })
    | full ↦ (err backpressure_timeout, record s { pending = fetch_sub s.pending 1 })
    | closed ↦ (err connection_closed, record s { pending = fetch_sub s.pending 1 })
  ]

  unfoldable pub try_send : Limits → Shared C → OutboundFrame → Result (Unit {0}) × Shared C
  unfolding try_hand_over
  try_send h s frame =
      if leb h.max_pending s.pending
      then (err backpressure_timeout, s)
      else try_hand_over (record s { pending = fetch_add s.pending 1 }) frame
