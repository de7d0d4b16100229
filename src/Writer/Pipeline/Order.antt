-- ===== src/Writer/Pipeline/Order.antt =====
-- The order of the frames under every interleaving of the handles and the writer task.
use procwire_rust.Base.{
  ℕ, ◌+◌, ◌≤◌, ◌≡◌, refl, sym, ap, ◌∙◌, List, [], ◌++◌, arith, length, take, append-nil,
  take-append, take-append_past, take_all,
}
use procwire_rust.Error.{ok, err}
use procwire_rust.Writer.Defs.{OutboundFrame}
use procwire_rust.Writer.Channel.{Mpsc}
use procwire_rust.Writer.Batch.{AsyncWrite}
use procwire_rust.Writer.Batch.Slices.{batch_bytes}
use procwire_rust.Writer.Pipeline.{
  Loop, receiving, collecting, writing, written, returned, System, Reach, start,
}
use procwire_rust.Writer.Pipeline.Whereabouts.{
  batch_bytes-append, SinkAt, whereabouts, Inv, Reach-Inv,
}

module _ {C S : Type 0} (mpsc : Mpsc C) (w : AsyncWrite S) (max_pending : ℕ) where
  -- A prefix of the bytes of the accepted frames, at least those that are done.
  abbrev pub IsPrefix : System C S → Type 0
  IsPrefix s =
      (k : ℕ) × (length (batch_bytes s.done) ≤ k)
      × (w.sent s.sink ≡ take k (batch_bytes s.accepted))

  prefix_at :
      (s : System C S) (rest more : List OutboundFrame) (k : ℕ)
      → s.accepted ≡ s.done ++ (rest ++ more)
      → k ≤ length (batch_bytes rest)
      → w.sent s.sink ≡ batch_bytes s.done ++ take k (batch_bytes rest)
      → IsPrefix s
  prefix_at s rest more k order le holds = (
    length (batch_bytes s.done) + k,
    omega arith,
    holds
        ∙ sym (
            rw
              (
                order,
                batch_bytes-append s.done,
                batch_bytes-append rest,
                take-append_past (batch_bytes s.done),
                take-append k (batch_bytes rest) _ le,
              )
              refl),
  )

  -- Only whole frames are written.
  prefix_done :
      (s : System C S) → Inv mpsc w max_pending s → w.sent s.sink ≡ batch_bytes s.done → IsPrefix s
  prefix_done s v holds =
      prefix_at s [] (s.batch ++ (s.lost ++ mpsc.queue s.channel)) 0 v.in_order (omega arith)
        (holds ∙ sym (append-nil (batch_bytes s.done)))

  Inv-IsPrefix : (s : System C S) → Inv mpsc w max_pending s → IsPrefix s
  Inv-IsPrefix s v = go s.loop v.sink_holds
    where
      go : (l : Loop) → SinkAt mpsc w max_pending l s → IsPrefix s
      go receiving (no_batch, no_lost, holds) = prefix_done s v holds
      go collecting (no_lost, holds) = prefix_done s v holds
      go writing (no_lost, holds) = prefix_done s v holds
      go written (no_lost, holds) =
          prefix_at s s.batch (s.lost ++ mpsc.queue s.channel) (length (batch_bytes s.batch))
            v.in_order (omega arith)
            (holds
              ∙ ap (λ t. batch_bytes s.done ++ t)
                  (sym (take_all _ (batch_bytes s.batch) (omega arith))))
      go (returned (ok u)) (no_batch, no_lost, holds) = prefix_done s v holds
      go (returned (err e)) (no_batch, (k, le, holds)) =
          prefix_at s s.lost (mpsc.queue s.channel) k (v.in_order ∙ rw no_batch refl) le holds

  -- However the tasks that send and the writer task take turns, the frames that the channel has taken
  -- are, in that order, those that are written and counted off, those in the batch, those that a failed
  -- write left behind, and those still queued. What the sink has taken are the first bytes of these
  -- frames, one after the other, with at least all frames that are counted off.
  pub Reach-Order :
      (n : ℕ) (c : C) (sink : S) (s : System C S)
      → mpsc.queue c ≡ []
      → w.sent sink ≡ []
      → Reach mpsc w max_pending (start mpsc w max_pending n c sink) s
      → (s.accepted ≡ whereabouts mpsc w max_pending s) × IsPrefix s
  Reach-Order n c sink s no_queue nothing r =
      let v = Reach-Inv mpsc w max_pending n c sink no_queue nothing r in
      (v.in_order, Inv-IsPrefix s v)
