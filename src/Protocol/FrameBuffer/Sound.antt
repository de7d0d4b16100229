-- ===== src/Protocol/FrameBuffer/Sound.antt =====
-- What comes out of a `FrameBuffer` is what went in: every frame keeps the wire contract, no byte is
-- lost or made up, and what stays buffered is bounded.
use procwire_rust.Base.{
  ℕ, ◌≤◌, ◌<◌, ◌≡◌, ◌≢◌, refl, sym, ap, subst, ◌∙◌, Option, none, some, inl, inr, List, [], ◌∷◌,
  ◌++◌, append-nil, append_assoc, arith, length, take, drop, All, length-take, take-append-drop,
  take_all, ltb, ◌==◌, Bool-cases, Option-cases, ltb→lt, not_ltb→le, All-drop, All-take,
}
use procwire_rust.Error.{Result, ok, err, Result-cases}
use procwire_rust.Protocol.Wire.{Header, header_size, InRange, IsByte, encode, decode, validate}
use procwire_rust.Protocol.Wire.Validate.{MeetsContract, validate_iff}
use procwire_rust.Protocol.Wire.RoundTrip.{encode-decode}
use procwire_rust.Protocol.Frame.{Frame, build_frame}
use procwire_rust.Protocol.FrameBuffer.{
  FrameBuffer, State, waiting_for_header, waiting_for_payload, extract_payload, accept_header,
  extract_header, extract_in, try_extract_one,
}

-- A frame as the wire contract wants it, under the limit `m`.
pub record IsFrame (m : ℕ) (f : Frame) : Type 0 where
  pub in_range : InRange f.header
  pub contract : MeetsContract f.header m
  pub payload_bytes : All IsByte f.payload
  pub payload_length_true : length f.payload ≡ f.header.payload_length

-- The bytes of frames sent one after the other.
abbrev pub stream : List Frame → List ℕ
stream [] = []
stream (f ∷ fs) = build_frame f.header f.payload ++ stream fs

-- The header that a payload is awaited for has been checked.
abbrev pub Awaited : ℕ → State → Type 0
Awaited m waiting_for_header = Unit {0}
Awaited m (waiting_for_payload h r) = InRange h × MeetsContract h m × (r ≡ h.payload_length)

pub record IsValid (fb : FrameBuffer) : Type 0 where
  pub buffered_bytes : All IsByte fb.buffer
  pub awaited : Awaited fb.max_payload_size fb.state

-- The received bytes that have not come out in a frame: a header already taken off counts.
abbrev pub pending_in : State → List ℕ → List ℕ
pending_in waiting_for_header bytes = bytes
pending_in (waiting_for_payload h r) bytes = encode h ++ bytes

abbrev pub pending : FrameBuffer → List ℕ
pending fb = pending_in fb.state fb.buffer

-- Too little is buffered for another frame.
abbrev pub IsShortIn : State → List ℕ → Type 0
IsShortIn waiting_for_header bytes = length bytes < header_size
IsShortIn (waiting_for_payload h r) bytes = length bytes < r

abbrev pub IsShort : FrameBuffer → Type 0
IsShort fb = IsShortIn fb.state fb.buffer

-- What one call of `try_extract_one` may do on a valid buffer `fb` under the limit `m` that stands
-- for the bytes `p`.
abbrev Outcome : ℕ → List ℕ → FrameBuffer → Result (Option Frame) × FrameBuffer → Type 0
Outcome m p fb (ok none, fb') =
    IsValid fb' × IsShort fb' × (fb'.max_payload_size ≡ m) × (pending fb' ≡ p)
Outcome m p fb (ok (some f), fb') =
    IsValid fb'
    × IsFrame m f
    × (fb'.max_payload_size ≡ m)
    × (p ≡ build_frame f.header f.payload ++ pending fb')
Outcome m p fb (err e, fb') =
    (h : Header) × (rest : List ℕ) × InRange h
    × (validate h m ≡ err e)
    × (p ≡ encode h ++ rest)
    × (fb' ≡ fb)

module _ (fb : FrameBuffer) (h : Header) (r : ℕ) (bytes : All IsByte fb.buffer) where
  waits-Outcome :
      (p : List ℕ) (fb0 : FrameBuffer)
      → fb.state ≡ waiting_for_payload h r
      → Awaited fb.max_payload_size (waiting_for_payload h r)
      → p ≡ encode h ++ fb.buffer
      → length fb.buffer < r
      → Outcome fb.max_payload_size p fb0 (ok none, fb)
  waits-Outcome p fb0 st aw e short = (
    record { buffered_bytes = bytes; awaited = subst (Awaited fb.max_payload_size) (sym st) aw },
    subst (λ s. IsShortIn s fb.buffer) (sym st) short,
    refl,
    ap (λ s. pending_in s fb.buffer) st ∙ sym e,
  )

  extract_payload-Outcome :
      (p : List ℕ) (fb0 : FrameBuffer)
      → fb.state ≡ waiting_for_payload h r
      → Awaited fb.max_payload_size (waiting_for_payload h r)
      → p ≡ encode h ++ fb.buffer
      → Outcome fb.max_payload_size p fb0 (extract_payload fb h r)
  unfolding extract_payload build_frame
  extract_payload-Outcome p fb0 st aw e = elim (Bool-cases (ltb (length fb.buffer) r)) [
    | inl short ↦ rw short (waits-Outcome p fb0 st aw e (ltb→lt _ _ short))
    | inr full ↦ rw full (
      record { buffered_bytes = All-drop IsByte r fb.buffer bytes; awaited = tt },
      record {
        in_range = aw.0;
        contract = aw.1;
        payload_bytes = All-take IsByte r fb.buffer bytes;
        payload_length_true = omega (arith, length-take r fb.buffer, not_ltb→le _ _ full, aw.2);
      },
      refl,
      rw (append_assoc, take-append-drop r fb.buffer) e,
    )
  ]

accept_header-Outcome :
    (fb : FrameBuffer) (h : Header)
    → All IsByte fb.buffer
    → fb.state ≡ waiting_for_header
    → InRange h
    → fb.buffer ≡ encode h ++ drop header_size fb.buffer
    → Outcome fb.max_payload_size fb.buffer fb (accept_header fb h)
unfolding accept_header build_frame
accept_header-Outcome fb h bytes st range e =
    let rest_bytes : All IsByte (drop header_size fb.buffer) =
      All-drop IsByte header_size fb.buffer bytes in
    elim (Result-cases (validate h fb.max_payload_size)) [
      | inl (tt', v) ↦
          let contract : MeetsContract h fb.max_payload_size =
            (validate_iff h fb.max_payload_size range).0 v in
          elim (Bool-cases (h.payload_length == 0)) [
            | inl z ↦
                rw (v, accept_header, z)
                  (
                    record {
                      buffered_bytes = rest_bytes;
                      awaited = subst (Awaited fb.max_payload_size) (sym st) tt;
                    },
                    record {
                      in_range = range;
                      contract = contract;
                      payload_bytes = tt;
                      payload_length_true = ground arith;
                    },
                    refl,
                    rw append-nil (
                        e
                        ∙ ap (λ s. encode h ++ pending_in s (drop header_size fb.buffer)) (sym st)),
                  )
            | inr z ↦
                rw (v, accept_header, z)
                  (extract_payload-Outcome _ h h.payload_length rest_bytes fb.buffer fb refl
                    (range, contract, refl) e)
          ]
      | inr (x, v) ↦ rw (v, accept_header) (h, drop header_size fb.buffer, range, v, e, refl)
    ]

decode-ne-none : (buf : List ℕ) → header_size ≤ length buf → decode (take header_size buf) ≢ none
unfolding decode
decode-ne-none buf fits = ground (arith, length-take header_size buf)

extract_header-Outcome :
    (fb : FrameBuffer)
    → All IsByte fb.buffer
    → fb.state ≡ waiting_for_header
    → Outcome fb.max_payload_size fb.buffer fb (extract_header fb)
unfolding extract_header
extract_header-Outcome fb bytes st = elim (Bool-cases (ltb (length fb.buffer) header_size)) [
  | inl short ↦ rw short (
    record { buffered_bytes = bytes; awaited = subst (Awaited fb.max_payload_size) (sym st) tt },
    subst (λ s. IsShortIn s fb.buffer) (sym st) (ltb→lt _ _ short),
    refl,
    ap (λ s. pending_in s fb.buffer) st,
  )
  | inr full ↦ elim (Option-cases (decode (take header_size fb.buffer))) [
    | inl d ↦ absurd (decode-ne-none fb.buffer (not_ltb→le _ _ full) d)
    | inr (h, d) ↦
        let (range, bytes_of_h) =
          encode-decode (take header_size fb.buffer) h (All-take IsByte header_size fb.buffer bytes)
            d in
        rw (full, d, extract_header)
          (accept_header-Outcome fb h bytes st range (
            sym (
              ap (λ t. t ++ drop header_size fb.buffer)
                (bytes_of_h
                  ∙ take_all header_size _ (omega (arith, length-take header_size fb.buffer)))
              ∙ take-append-drop header_size fb.buffer)))
  ]
]

pub try_extract_one-Outcome :
    (fb : FrameBuffer)
    → IsValid fb
    → Outcome fb.max_payload_size (pending fb) fb (try_extract_one fb)
unfolding try_extract_one
try_extract_one-Outcome fb v = go fb.state refl
  where
    go : (s : State) → fb.state ≡ s → Outcome fb.max_payload_size (pending fb) fb (extract_in s fb)
    go waiting_for_header st =
        subst (λ s. Outcome fb.max_payload_size (pending_in s fb.buffer) fb (extract_header fb))
          (sym st) (extract_header-Outcome fb v.buffered_bytes st)
    go (waiting_for_payload h r) st =
        extract_payload-Outcome fb h r v.buffered_bytes (pending fb) fb st
          (subst (Awaited fb.max_payload_size) st v.awaited) (ap (λ s. pending_in s fb.buffer) st)
