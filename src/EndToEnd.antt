-- ===== src/EndToEnd.antt =====
-- From the writer of one side to the frame buffer of the other: src/writer.rs and
-- src/protocol/frame_buffer.rs together.
pub mod Session
mod Tests
use procwire_rust.Base.{
  ℕ, ◌+◌, ◌≤◌, ◌≡◌, refl, sym, ap, subst, ◌∙◌, List, [], ◌∷◌, ◌++◌, arith, length, take, take_all,
  map, All, All-append, concat, append_assoc, append-nil,
}
use procwire_rust.Error.{Result, ok, err}
use procwire_rust.Protocol.Wire.{IsByte, encode}
use procwire_rust.Protocol.Wire.RoundTrip.{encode-IsByte}
use procwire_rust.Protocol.Frame.{Frame, build_frame}
use procwire_rust.Protocol.FrameBuffer.{with_max_payload}
use procwire_rust.Protocol.FrameBuffer.Sound.{IsFrame, stream}
use procwire_rust.Protocol.FrameBuffer.Reassembly.{push_all, push_all-stream}
use procwire_rust.Writer.Defs.{OutboundFrame, new}
use procwire_rust.Writer.Channel.{Mpsc}
use procwire_rust.Writer.Batch.{AsyncWrite}
use procwire_rust.Writer.Batch.Slices.{batch_bytes}
use procwire_rust.Writer.Pipeline.{System, Reach, start}
use procwire_rust.Writer.Pipeline.Order.{IsPrefix, Reach-Order}
use procwire_rust.Writer.Pipeline.Whereabouts.{whereabouts}

-- `OutboundFrame::new` of the parts of a frame.
abbrev pub outbound : Frame → OutboundFrame
outbound f = new f.header f.payload

batch_bytes-stream : (fs : List Frame) → batch_bytes (map outbound fs) ≡ stream fs
unfolding new build_frame
batch_bytes-stream [] = refl
batch_bytes-stream (f ∷ fs) = ap (λ t. (encode f.header ++ f.payload) ++ t) (batch_bytes-stream fs)

-- Written frames, in any cut, come out of the other side's frame buffer.
pub written-received :
    (m : ℕ) (fs : List Frame) (reads : List (List ℕ))
    → All (IsFrame m) fs
    → concat reads ≡ batch_bytes (map outbound fs)
    → All (All IsByte) reads
    → push_all (with_max_payload m) reads ≡ (ok fs, with_max_payload m)
written-received m fs reads valid written are_bytes =
    push_all-stream m fs reads valid (written ∙ batch_bytes-stream fs) are_bytes

-- They are bytes.
pub batch_bytes-IsByte :
    (m : ℕ) (fs : List Frame) → All (IsFrame m) fs → All IsByte (batch_bytes (map outbound fs))
unfolding new
batch_bytes-IsByte m [] valid = tt
batch_bytes-IsByte m (f ∷ fs) (v, valid) =
    All-append IsByte (encode f.header ++ f.payload) (batch_bytes (map outbound fs))
      (All-append IsByte (encode f.header) f.payload (encode-IsByte f.header v.in_range)
        v.payload_bytes)
      (batch_bytes-IsByte m fs valid)

module _ {C S : Type 0} (mpsc : Mpsc C) (w : AsyncWrite S) (max_pending : ℕ) where
  -- No frame that was accepted is in the batch, in the channel, or lost.
  pub record IsDrained (s : System C S) : Type 0 where
    pub no_batch : s.batch ≡ []
    pub none_lost : s.lost ≡ []
    pub no_queue : mpsc.queue s.channel ≡ []

  all_written :
      (s : System C S)
      → IsDrained s
      → s.accepted ≡ whereabouts mpsc w max_pending s
      → IsPrefix mpsc w max_pending s
      → w.sent s.sink ≡ batch_bytes s.accepted
  all_written s d order (k, le, holds) =
      let done : s.accepted ≡ s.done =
        order ∙ rw (d.no_batch, d.none_lost, d.no_queue) (append-nil s.done) in
      holds
      ∙ take_all k (batch_bytes s.accepted) (omega (arith, ap (λ fs. length (batch_bytes fs)) done))

  -- Frames that keep the wire contract and that tasks have sent through clones of one handle, under any
  -- interleaving with the writer task, come out of the frame buffer of the other side as these frames,
  -- in the order in which the channel took them, once none of them is under way; however the written
  -- bytes are cut into reads.
  pub sent-received :
      (m n : ℕ) (c : C) (sink : S) (s : System C S) (fs : List Frame) (reads : List (List ℕ))
      → mpsc.queue c ≡ []
      → w.sent sink ≡ []
      → Reach mpsc w max_pending (start mpsc w max_pending n c sink) s
      → IsDrained s
      → s.accepted ≡ map outbound fs
      → All (IsFrame m) fs
      → concat reads ≡ w.sent s.sink
      → All (All IsByte) reads
      → push_all (with_max_payload m) reads ≡ (ok fs, with_max_payload m)
  sent-received m n c sink s fs reads no_queue nothing r drained accepted valid same are_bytes =
      let (order, prefix) = Reach-Order mpsc w max_pending n c sink s no_queue nothing r in
      written-received m fs reads valid
        (same ∙ all_written s drained order prefix ∙ ap batch_bytes accepted) are_bytes
