-- ===== src/Protocol/FrameBuffer/Step.antt =====
-- One call of `try_extract_one`: what more bytes behind the buffer change, and that a frame makes
-- the buffer smaller.
use procwire_rust.Base.{
  ℕ, ◌+◌, ◌-◌, ◌≤◌, ◌<◌, ◌≡◌, refl, sym, ap, Option, none, some, List, arith, ltb, ◌==◌, length,
  take, drop, length-append, length-drop, take-append, drop-append, inl, inr, Bool-cases,
  not_ltb→le, le→not_ltb, Option-cases,
}
use procwire_rust.Error.{Result, ok, err, Result-cases}
use procwire_rust.Protocol.Wire.{Header, header_size, decode, validate}
use procwire_rust.Protocol.Frame.{Frame}
use procwire_rust.Protocol.FrameBuffer.{
  State, waiting_for_header, waiting_for_payload, FrameBuffer, extract_payload, accept_header,
  extract_header, extract_in, try_extract_one, extend,
}

-- What the loop of `push` counts down.
abbrev pub state_weight : State → ℕ
state_weight waiting_for_header = 0
state_weight (waiting_for_payload h r) = 1

abbrev pub measure : FrameBuffer → ℕ
measure fb = length fb.buffer + state_weight fb.state

-- How the outcome on a buffer with `more` behind it follows from the outcome without.
abbrev pub Carries :
    List ℕ → Result (Option Frame) × FrameBuffer → Result (Option Frame) × FrameBuffer → Type 0
Carries more (ok none, fb') s = s ≡ try_extract_one (extend fb' more)
Carries more (ok (some f), fb') s = s ≡ (ok (some f), extend fb' more)
Carries more (err e, fb') s = s ≡ (err e, extend fb' more)

extract_payload-Carries :
    (fb : FrameBuffer) (more : List ℕ) (h : Header) (r : ℕ)
    → fb.state ≡ waiting_for_payload h r
    → Carries more (extract_payload fb h r) (extract_payload (extend fb more) h r)
unfolding extract_payload extend try_extract_one
extract_payload-Carries fb more h r e = elim (Bool-cases (ltb (length fb.buffer) r)) [
  | inl short ↦ rw short (ap (λ s. extract_in s (extend fb more)) (sym e))
  | inr full ↦
      let fits : r ≤ length fb.buffer = not_ltb→le _ _ full in
      rw (
        full,
        length-append fb.buffer more,
        le→not_ltb (length fb.buffer + length more) r (omega arith),
        take-append r fb.buffer more fits,
        drop-append r fb.buffer more fits,
      )
]

accept_header-Carries :
    (fb : FrameBuffer) (more : List ℕ) (h : Header)
    → header_size ≤ length fb.buffer
    → Carries more (accept_header fb h) (accept_header (extend fb more) h)
unfolding accept_header extend
accept_header-Carries fb more h fits = elim (Result-cases (validate h fb.max_payload_size)) [
  | inl (u, v) ↦ elim (Bool-cases (h.payload_length == 0)) [
    | inl z ↦ rw (v, accept_header, z, drop-append header_size fb.buffer more fits)
    | inr z ↦
        rw (v, accept_header, z, drop-append header_size fb.buffer more fits)
          (extract_payload-Carries _ more h h.payload_length refl)
  ]
  | inr (e, v) ↦ rw (v, accept_header)
]

extract_header-Carries :
    (fb : FrameBuffer) (more : List ℕ)
    → fb.state ≡ waiting_for_header
    → Carries more (extract_header fb) (extract_header (extend fb more))
unfolding extract_header extend try_extract_one
extract_header-Carries fb more e = elim (Bool-cases (ltb (length fb.buffer) header_size)) [
  | inl short ↦ rw short (ap (λ s. extract_in s (extend fb more)) (sym e))
  | inr full ↦
      let fits : header_size ≤ length fb.buffer = not_ltb→le _ _ full in
      rw
        (
          full,
          length-append fb.buffer more,
          le→not_ltb (length fb.buffer + length more) header_size (omega arith),
          take-append header_size fb.buffer more fits,
        )
        (elim (Option-cases (decode (take header_size fb.buffer))) [
          | inl d ↦ rw (d, extract_header)
          | inr (h, d) ↦ rw (d, extract_header) (accept_header-Carries fb more h fits)
        ])
]

-- More bytes behind the buffer change nothing of a frame or an error that is there already, and
-- where none is, the call goes on from where it stopped.
pub try_extract_one-Carries :
    (fb : FrameBuffer) (more : List ℕ)
    → Carries more (try_extract_one fb) (try_extract_one (extend fb more))
unfolding try_extract_one extend
try_extract_one-Carries fb more = go fb.state refl
  where
    go : (s : State) → fb.state ≡ s → Carries more (extract_in s fb) (extract_in s (extend fb more))
    go waiting_for_header e = extract_header-Carries fb more e
    go (waiting_for_payload h r) e = extract_payload-Carries fb more h r e

extract_payload-smaller :
    (fb : FrameBuffer) (h : Header) (r : ℕ) {f : Frame} {fb' : FrameBuffer}
    → extract_payload fb h r ≡ (ok (some f), fb')
    → measure fb' ≤ length fb.buffer
unfolding extract_payload
extract_payload-smaller fb h r e = ground (arith, length-drop r fb.buffer)

accept_header-smaller :
    (fb : FrameBuffer) (h : Header) {f : Frame} {fb' : FrameBuffer}
    → header_size ≤ length fb.buffer
    → accept_header fb h ≡ (ok (some f), fb')
    → measure fb' < length fb.buffer
unfolding accept_header
accept_header-smaller fb h fits e =
    let short : length (drop header_size fb.buffer) ≡ length fb.buffer - header_size =
      length-drop header_size fb.buffer in
    ground (arith, short, length-drop h.payload_length (drop header_size fb.buffer))

extract_header-smaller :
    (fb : FrameBuffer) {f : Frame} {fb' : FrameBuffer}
    → extract_header fb ≡ (ok (some f), fb')
    → measure fb' < length fb.buffer
unfolding extract_header
extract_header-smaller fb e = elim (Bool-cases (ltb (length fb.buffer) header_size)) [
  | inl short ↦ cc (rw short at e)
  | inr full ↦ elim (Option-cases (decode (take header_size fb.buffer))) [
    | inl d ↦ cc (rw (full, d, extract_header) at e)
    | inr (h, d) ↦
        accept_header-smaller fb h (not_ltb→le _ _ full) (rw (full, d, extract_header) at e)
  ]
]

-- A call that returns a frame lowers the measure.
pub try_extract_one-smaller :
    (fb : FrameBuffer) {f : Frame} {fb' : FrameBuffer}
    → try_extract_one fb ≡ (ok (some f), fb')
    → measure fb' < measure fb
unfolding try_extract_one
try_extract_one-smaller fb {f} {fb'} = go fb.state refl
  where
    go :
        (s : State) → fb.state ≡ s → extract_in s fb ≡ (ok (some f), fb') → measure fb' < measure fb
    go waiting_for_header st e = omega (arith, extract_header-smaller fb e)
    go (waiting_for_payload h r) st e =
        let w : state_weight fb.state ≡ 1 = ap state_weight st in
        omega (arith, extract_payload-smaller fb h r e)
