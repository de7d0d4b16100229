-- ===== src/Writer/Batch/Delivery.antt =====
-- `write_batch` under every writer: what has been taken when it returns.
use procwire_rust.Base.{
  ℕ, zero, suc, ◌+◌, ◌≤◌, ◌<◌, ◌≡◌, refl, sym, ap, ◌∙◌, List, [], ◌∷◌, ◌++◌, append_assoc,
  append-nil, arith, ltb, ◌==◌, length, take, drop, is_nil, concat, All, length-drop, take_all,
  take-append-take-drop, inl, inr, Bool-cases, ltb→lt, not_ltb→le, true, ◌≢◌, eq_nil_of_is_nil,
  ==_iff,
}
use native.Mathlib.Nat.{zero-add}
use procwire_rust.Error.{Result, ok, err}
use procwire_rust.Writer.Defs.{OutboundFrame}
use procwire_rust.Writer.Batch.{
  AsyncWrite, build_remaining_slices, all_slices, total_size, finish, on_written, write_rest,
  after_first, write_batch,
}
use procwire_rust.Writer.Batch.Slices.{
  HasHeader, batch_bytes, total_size-length, concat-all_slices, build_remaining_slices-drop,
}

module _ {S : Type 0} (w : AsyncWrite S) where
  -- What the writer has taken since `before`: on success all of `bytes`, on an error a prefix.
  abbrev pub Written : List ℕ → List ℕ → Result (Unit {0}) × S → Type 0
  Written before bytes (ok u, s') = w.sent s' ≡ before ++ bytes
  Written before bytes (err e, s') =
      (k : ℕ) × (k ≤ length bytes) × (w.sent s' ≡ before ++ take k bytes)

  -- Every byte is taken before the flush.
  finish-Written :
      (before bytes : List ℕ) (s : S)
      → w.sent s ≡ before ++ bytes
      → Written before bytes (finish w s)
  unfolding finish
  finish-Written before bytes s e = go (w.flush s) (w.flush_takes s)
    where
      go : (r : Result (Unit {0}) × S) → w.sent r.1 ≡ w.sent s → Written before bytes r
      go (ok u, s') h = h ∙ e
      go (err x, s') h = (
        length bytes,
        omega arith,
        h ∙ e ∙ ap (λ t. before ++ t) (sym (take_all _ bytes (omega arith))),
      )

  -- What a vectored write of the bytes behind the first `done` leaves.
  abbrev Progress : List ℕ → List ℕ → ℕ → Result ℕ × S → Type 0
  Progress before bytes done (ok n, s') =
      (done + n ≤ length bytes) × (w.sent s' ≡ before ++ take (done + n) bytes)
  Progress before bytes done (err e, s') = w.sent s' ≡ before ++ take done bytes

  write_vectored-Progress :
      (before bytes : List ℕ) (done : ℕ) (s : S) (slices : List (List ℕ))
      → done ≤ length bytes
      → w.sent s ≡ before ++ take done bytes
      → concat slices ≡ drop done bytes
      → Progress before bytes done (w.write_vectored s slices)
  write_vectored-Progress before bytes done s slices h e es = go (w.write_vectored s slices) refl
    where
      go : (r : Result ℕ × S) → w.write_vectored s slices ≡ r → Progress before bytes done r
      go (ok n, s') q =
          let (le, taken) = w.write_takes s s' slices n q in
          let le' : n ≤ length (drop done bytes) = rw es at le in
          (
            omega (arith, length-drop done bytes),
            taken ∙ rw (e, es, append_assoc, take-append-take-drop done n bytes),
          )
      go (err x, s') q = w.write_fails s s' slices x q ∙ e

  on_written-Written :
      (before bytes : List ℕ) (done : ℕ) (go_on : ℕ → S → Result (Unit {0}) × S) (r : Result ℕ × S)
      → done ≤ length bytes
      → Progress before bytes done r
      → ((n : ℕ) (s' : S)
          → 0 < n
          → done + n ≤ length bytes
          → w.sent s' ≡ before ++ take (done + n) bytes
          → Written before bytes (go_on n s'))
      → Written before bytes (on_written w go_on r)
  unfolding on_written
  on_written-Written before bytes done go_on (err e, s') h p ih = (done, h, p)
  on_written-Written before bytes done go_on (ok zero, s') h p ih = (done + 0, p.0, p.1)
  on_written-Written before bytes done go_on (ok (suc n), s') h p ih =
      ih (suc n) s' (omega arith) p.0 p.1

  never_empty :
      (batch : List OutboundFrame) (done : ℕ)
      → All HasHeader batch
      → done < length (batch_bytes batch)
      → is_nil (build_remaining_slices batch done) ≢ true
  never_empty batch done hb lt nil =
      let slices : List (List ℕ) = build_remaining_slices batch done in
      let none_left : 0 ≡ length (drop done (batch_bytes batch)) =
        rw (eq_nil_of_is_nil slices nil) at
          (ap length (build_remaining_slices-drop batch done hb)) in
      omega (arith, length-drop done (batch_bytes batch))

  -- From any point of the batch on, and with a unit of fuel for each byte that is left.
  write_rest-Written :
      (fuel : ℕ) (batch : List OutboundFrame) (before : List ℕ) (done : ℕ) (s : S)
      → All HasHeader batch
      → done ≤ length (batch_bytes batch)
      → length (batch_bytes batch) ≤ done + fuel
      → w.sent s ≡ before ++ take done (batch_bytes batch)
      → Written before
          (batch_bytes batch)
          (write_rest w fuel batch (length (batch_bytes batch)) done s)
  unfolding write_rest
  write_rest-Written zero batch before done s hb le fuel_enough e =
      finish-Written before (batch_bytes batch) s
        (e ∙ ap (λ t. before ++ t) (take_all done _ (omega arith)))
  write_rest-Written (suc fuel) batch before done s hb le fuel_enough e =
      elim (Bool-cases (ltb done (length (batch_bytes batch)))) [
        | inr all ↦ rw all (
            finish-Written before (batch_bytes batch) s
              (e ∙ ap (λ t. before ++ t) (take_all done _ (not_ltb→le _ _ all))))
        | inl more ↦ elim (Bool-cases (is_nil (build_remaining_slices batch done))) [
          | inl none_left ↦ absurd (never_empty batch done hb (ltb→lt _ _ more) none_left)
          | inr some_left ↦
              rw (more, some_left)
                (on_written-Written before (batch_bytes batch) done _ _ le
                  (write_vectored-Progress before (batch_bytes batch) done s _ le e
                    (build_remaining_slices-drop batch done hb))
                  (λ n s' pos le' e'.
                    write_rest-Written fuel batch before (done + n) s' hb le' (omega arith) e'))
        ]
      ]

  after_first-Written :
      (batch : List OutboundFrame) (before : List ℕ) (r : Result ℕ × S)
      → All HasHeader batch
      → Progress before (batch_bytes batch) 0 r
      → Written before (batch_bytes batch) (after_first w batch r)
  unfolding after_first
  after_first-Written batch before (err e, s) hb p = (0, omega arith, p)
  after_first-Written batch before (ok n, s) hb (le, taken) =
      elim (Bool-cases (n == total_size batch)) [
        | inl all ↦ rw all (
            finish-Written before (batch_bytes batch) s (
              taken
              ∙ ap (λ t. before ++ t)
                  (take_all (0 + n) _ (
                    omega
                      (arith, (==_iff n (total_size batch)).0 all, total_size-length batch hb)))))
        | inr part ↦ elim (Bool-cases (n == 0)) [
          | inl nothing ↦ rw (part, nothing) (0 + n, le, taken)
          | inr something ↦
              rw (part, something, total_size-length batch hb)
                (write_rest-Written (length (batch_bytes batch)) batch before n s hb (omega arith)
                  (omega arith)
                  (taken ∙ ap (λ k. before ++ take k (batch_bytes batch)) (zero-add n)))
        ]
      ]

  -- When `write_batch` returns `Ok`, the writer has taken the bytes of the whole batch, in order,
  -- whatever parts it took at a time; when it returns an error, it has taken a prefix of them.
  pub write_batch-Written :
      (batch : List OutboundFrame) (s : S)
      → All HasHeader batch
      → Written (w.sent s) (batch_bytes batch) (write_batch w batch s)
  unfolding write_batch
  write_batch-Written [] s h = sym (append-nil (w.sent s))
  write_batch-Written (f ∷ fs) s h =
      after_first-Written (f ∷ fs) (w.sent s) (w.write_vectored s (all_slices (f ∷ fs))) h (
        write_vectored-Progress (w.sent s) (batch_bytes (f ∷ fs)) 0 s _ (omega arith)
          (sym (append-nil (w.sent s))) (concat-all_slices (f ∷ fs)))
