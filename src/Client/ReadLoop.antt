-- ===== src/Client/ReadLoop.antt =====
-- src/client.rs, `read_loop`: reads are pushed into the frame buffer, and the frames are dispatched in
-- order. `dispatch` is the effect of `dispatch_frame` on the state `S`.
pub mod Order
pub mod Verdict
use procwire_rust.Base.{ℕ, Option, none, some, List, [], ◌∷◌}
use procwire_rust.Error.{Result, ok, err, ProcwireError}
use procwire_rust.Protocol.Frame.{Frame}
use procwire_rust.Protocol.FrameBuffer.{FrameBuffer, push}
use procwire_rust.Client.Auth.{Read, bytes, closed, read_error}

module _ {S : Type 0} (dispatch : S → Frame → S) where
  -- `for frame in frames`
  abbrev pub dispatch_all : S → List Frame → S
  dispatch_all s [] = s
  dispatch_all s (frame ∷ frames) = dispatch_all (dispatch s frame) frames

  -- The loop over the reads; no result is a loop that still waits for the next read.
  unfoldable pub read_all : S → FrameBuffer → List Read → Option (Result (Unit {0})) × S
  read_all s fb [] = (none, s)
  read_all s fb (closed ∷ reads) = (some (ok tt), s)
  read_all s fb (read_error e ∷ reads) = (some (err e), s)
  read_all s fb (bytes bs ∷ reads) =
      let (pushed, fb') = push fb bs in
      elim pushed [
        | err e ↦ (some (err e), s)
        | ok frames ↦ read_all (dispatch_all s frames) fb' reads
      ]

  unfoldable pub read_loop :
      S → FrameBuffer → List Frame → List Read → Option (Result (Unit {0})) × S
  unfolding read_all
  read_loop s fb initial_frames reads = read_all (dispatch_all s initial_frames) fb reads
