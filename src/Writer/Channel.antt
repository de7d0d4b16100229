-- ===== src/Writer/Channel.antt =====
-- The `mpsc` channel of tokio between the handles and the writer task, as src/writer.rs relies on it.
use procwire_rust.Base.{◌≡◌, List, [], ◌∷◌, ◌++◌}
use procwire_rust.Writer.Defs.{OutboundFrame}

-- What sending gives: the frame is queued, or the channel has no room, or its receiver is gone.
pub data Sent (C : Type 0) : Type 0 where
  sent : C → Sent C
  full : Sent C
  closed : Sent C

-- What receiving gives: a frame, or nothing for now, or nothing any more.
pub data Received (C : Type 0) : Type 0 where
  received : OutboundFrame → C → Received C
  nothing_yet : Received C
  disconnected : Received C

-- `send` waits while `try_send` gives `full`, and `recv` while `try_recv` gives `nothing_yet`. A frame is
-- queued behind the others and taken from the front; a receiver that is dropped drops the queue.
pub record Mpsc (C : Type 0) : Type 0 where
  pub try_send : C → OutboundFrame → Sent C
  pub try_recv : C → Received C
  pub drop_receiver : C → C
  pub queue : C → List OutboundFrame
  pub send_queues :
      (c c' : C) (f : OutboundFrame) → try_send c f ≡ sent c' → queue c' ≡ queue c ++ (f ∷ [])
  pub recv_takes :
      (c c' : C) (f : OutboundFrame) → try_recv c ≡ received f c' → queue c ≡ f ∷ queue c'
  pub recv_nothing : (c : C) → try_recv c ≡ nothing_yet → queue c ≡ []
  pub recv_disconnected : (c : C) → try_recv c ≡ disconnected → queue c ≡ []
  pub drop_receiver_drops : (c : C) → queue (drop_receiver c) ≡ []
