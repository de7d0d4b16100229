-- ===== src/Protocol/FrameBuffer/Delivery.antt =====
-- What `push` delivers: exactly the frames that were sent, however the bytes are cut into reads.
use procwire_rust.Base.{
  ℕ, zero, suc, ◌<◌, ◌≡◌, refl, sym, subst, inl, inr, List, [], ◌∷◌, ◌++◌, append_assoc, arith, All,
  All-append,
}
use procwire_rust.Error.{Result, ok, err}
use procwire_rust.Protocol.Wire.{Header, InRange, IsByte, encode, validate}
use procwire_rust.Protocol.Frame.{Frame, build_frame}
use procwire_rust.Protocol.FrameBuffer.{
  FrameBuffer, State, waiting_for_header, waiting_for_payload, extend, push,
}
use procwire_rust.Protocol.FrameBuffer.Step.{measure, try_extract_one-smaller}
use procwire_rust.Protocol.FrameBuffer.Chunks.{
  rounds, prepend, run, run-none, run-some, run-err, push-run,
}
use procwire_rust.Protocol.FrameBuffer.Sound.{
  IsFrame, IsValid, IsShort, pending, pending_in, stream, try_extract_one-Outcome,
}

-- What a `push` may do on a valid buffer that stands, with the new bytes, for the bytes `p`.
abbrev pub Delivers : ℕ → List ℕ → Result (List Frame) × FrameBuffer → Type 0
Delivers m p (ok fs, fb') =
    All (IsFrame m) fs
    × IsValid fb'
    × IsShort fb'
    × (fb'.max_payload_size ≡ m)
    × (p ≡ stream fs ++ pending fb')
Delivers m p (err e, fb') =
    (fs : List Frame) × (h : Header) × (rest : List ℕ) × All (IsFrame m) fs
    × InRange h
    × (validate h m ≡ err e)
    × (p ≡ stream fs ++ (encode h ++ rest))

prepend-Delivers :
    (m : ℕ) (p q : List ℕ) (f : Frame) (r : Result (List Frame) × FrameBuffer)
    → IsFrame m f
    → p ≡ build_frame f.header f.payload ++ q
    → Delivers m q r
    → Delivers m p (prepend (f ∷ []) r)
prepend-Delivers m p q f (ok fs, fb') hf e (all, v, s, k, eq) =
    ((hf, all), v, s, k, rw (e, append_assoc, ← eq))
prepend-Delivers m p q f (err x, fb') hf e (fs, h, rest, all, range, bad, eq) =
    (f ∷ fs, h, rest, (hf, all), range, bad, rw (e, append_assoc, ← eq))

run-Delivers :
    (n : ℕ) (fb : FrameBuffer)
    → measure fb < n
    → IsValid fb
    → Delivers fb.max_payload_size (pending fb) (run fb)
run-Delivers zero fb h v = absurd (omega arith)
run-Delivers (suc n) fb h v = elim (rounds fb) [
  | inl (fb', e) ↦
      let (v', short, k, eq) = rw e at (try_extract_one-Outcome fb v) in
      rw (run-none fb e) (tt, v', short, k, sym eq)
  | inr (inl (f, fb', e)) ↦
      let (v', hf, k, eq) = rw e at (try_extract_one-Outcome fb v) in
      rw (run-some fb e) (
        prepend-Delivers fb.max_payload_size (pending fb) (pending fb') f (run fb') hf eq (
          subst (λ m. Delivers m (pending fb') (run fb')) k
            (run-Delivers n fb' (omega (arith, try_extract_one-smaller fb e)) v')))
  | inr (inr (x, fb', e)) ↦
      let (bad, rest, range, refused, eq, same) = rw e at (try_extract_one-Outcome fb v) in
      rw (run-err fb e) ([], bad, rest, tt, range, refused, eq)
]

pending-extend :
    (fb : FrameBuffer) (bytes : List ℕ) → pending (extend fb bytes) ≡ pending fb ++ bytes
unfolding extend
pending-extend fb bytes = go fb.state
  where
    go : (s : State) → pending_in s (fb.buffer ++ bytes) ≡ pending_in s fb.buffer ++ bytes
    go waiting_for_header = refl
    go (waiting_for_payload h r) = sym (append_assoc (encode h) fb.buffer bytes)

extend-IsValid :
    (fb : FrameBuffer) (bytes : List ℕ) → IsValid fb → All IsByte bytes → IsValid (extend fb bytes)
unfolding extend
extend-IsValid fb bytes v hb = record {
  buffered_bytes = All-append IsByte fb.buffer bytes v.buffered_bytes hb;
  awaited = v.awaited;
}

-- On a valid buffer `push` returns frames that all keep the wire contract, and these frames followed
-- by what stays pending are byte for byte what was pending followed by the new bytes; the buffer
-- stays valid, and holds less than a header, or less than the payload that it awaits. An error is
-- the verdict of `validate` on a header in those bytes, behind frames that keep the contract.
pub push-Delivers :
    (fb : FrameBuffer) (bytes : List ℕ)
    → IsValid fb
    → All IsByte bytes
    → Delivers fb.max_payload_size (pending fb ++ bytes) (push fb bytes)
unfolding extend
push-Delivers fb bytes v hb =
    rw (push-run, ← pending-extend)
      (run-Delivers (suc (measure (extend fb bytes))) (extend fb bytes) (omega arith)
        (extend-IsValid fb bytes v hb))
