-- ===== src/Protocol/FrameBuffer/Reassembly.antt =====
-- The bytes of frames that keep the contract come out as these frames, however they are cut into
-- reads.
use procwire_rust.Base.{
  ℕ, ◌+◌, ◌≡◌, refl, sym, ap, ◌∙◌, Option, none, some, inl, inr, List, [], ◌∷◌, ◌++◌, append-nil,
  append_assoc, arith, length, take, drop, All, length-append, concat, take-length-append,
  drop-length-append, ◌==◌, ltb, le→not_ltb, Bool-cases, lt→ltb, false,
}
use procwire_rust.Error.{Result, ok, err, ProcwireError}
use procwire_rust.Protocol.Wire.{Header, header_size, IsByte, encode, decode, validate}
use procwire_rust.Protocol.Wire.Validate.{validate_iff}
use procwire_rust.Protocol.Wire.RoundTrip.{decode-encode}
use procwire_rust.Protocol.Frame.{Frame, build_frame}
use procwire_rust.Protocol.FrameBuffer.{
  FrameBuffer, State, waiting_for_header, waiting_for_payload, with_max_payload, extract_payload,
  accept_header, extract_header, extract_in, try_extract_one, extend, push,
}
use procwire_rust.Protocol.FrameBuffer.Chunks.{
  prepend, prepend-nil, prepend-prepend, run, run-none, run-some, push-run, Joins, push-append,
}
use procwire_rust.Protocol.FrameBuffer.Delivery.{Delivers, push-Delivers}
use procwire_rust.Protocol.FrameBuffer.Sound.{IsFrame, IsValid, pending, IsShort, IsShortIn, stream}

-- A buffer between two frames that holds `bytes`.
abbrev pub holding : ℕ → List ℕ → FrameBuffer
holding m bytes = record { buffer = bytes; state = waiting_for_header; max_payload_size = m }

take-encode : (h : Header) (rest : List ℕ) → take header_size (encode h ++ rest) ≡ encode h
unfolding encode
take-encode h rest = refl

drop-encode : (h : Header) (rest : List ℕ) → drop header_size (encode h ++ rest) ≡ rest
unfolding encode
drop-encode h rest = refl

enough : (h : Header) (rest : List ℕ) → ltb (length (encode h ++ rest)) header_size ≡ false
unfolding encode
enough h rest = ground arith

extract_payload-sent :
    (m : ℕ) (h : Header) (s : State) (payload rest : List ℕ) (r : ℕ)
    → length payload ≡ r
    → extract_payload (record { buffer = payload ++ rest; state = s; max_payload_size = m }) h r
      ≡ (ok (some (record { header = h; payload = payload })), holding m rest)
unfolding extract_payload
extract_payload-sent m h s payload rest r e = rw (
  ← e,
  length-append payload rest,
  le→not_ltb (length payload + length rest) (length payload) (omega arith),
  take-length-append payload rest,
  drop-length-append payload rest,
)

empty-sent :
    (m : ℕ) (h : Header) (payload rest : List ℕ)
    → length payload ≡ 0
    → ◌≡◌ {A = Result (Option Frame) × FrameBuffer}
        (ok (some (record { header = h; payload = [] })), holding m (payload ++ rest))
        (ok (some (record { header = h; payload = payload })), holding m rest)
empty-sent m h [] rest e = refl
empty-sent m h (x ∷ xs) rest e = absurd (omega arith)

accept_header-sent :
    (m : ℕ) (f : Frame) (rest : List ℕ)
    → IsFrame m f
    → accept_header (holding m (encode f.header ++ (f.payload ++ rest))) f.header
      ≡ (ok (some f), holding m rest)
unfolding accept_header
accept_header-sent m f rest hf = elim (Bool-cases (f.header.payload_length == 0)) [
  | inl z ↦
      rw (valid, accept_header, z, drop-encode)
        (empty-sent m f.header f.payload rest (ground (arith, hf.payload_length_true)))
  | inr z ↦
      rw (valid, accept_header, z, drop-encode)
        (extract_payload-sent m f.header _ f.payload rest f.header.payload_length
          hf.payload_length_true)
]
  where
    valid : validate f.header m ≡ ok tt
    valid = (validate_iff f.header m hf.in_range).1 hf.contract

-- A frame at the front of the buffer is cut off it.
pub try_extract_one-sent :
    (m : ℕ) (f : Frame) (rest : List ℕ)
    → IsFrame m f
    → try_extract_one (holding m (build_frame f.header f.payload ++ rest))
      ≡ (ok (some f), holding m rest)
unfolding try_extract_one extract_header build_frame
try_extract_one-sent m f rest hf =
    rw (append_assoc, enough, take-encode, alone, extract_header, append_assoc)
      (accept_header-sent m f rest hf)
  where
    alone : decode (encode f.header) ≡ some f.header
    alone = rw append-nil at (decode-encode f.header [] hf.in_range)

run-sent :
    (m : ℕ) (fs : List Frame) (rest : List ℕ)
    → All (IsFrame m) fs
    → run (holding m (stream fs ++ rest)) ≡ prepend fs (run (holding m rest))
run-sent m [] rest h = sym (prepend-nil _)
run-sent m (f ∷ fs) rest (hf, h) = rw append_assoc (
    run-some _ (try_extract_one-sent m f (stream fs ++ rest) hf)
    ∙ ap (prepend (f ∷ [])) (run-sent m fs rest h)
    ∙ prepend-prepend (f ∷ []) fs (run (holding m rest)))

IsShort-waits : (fb : FrameBuffer) → IsShort fb → try_extract_one fb ≡ (ok none, fb)
unfolding try_extract_one extract_header extract_payload
IsShort-waits fb short = go fb.state short
  where
    go : (s : State) → IsShortIn s fb.buffer → extract_in s fb ≡ (ok none, fb)
    go waiting_for_header lt = rw (lt→ltb _ _ lt)
    go (waiting_for_payload h r) lt = rw (lt→ltb _ _ lt)

-- Frames that keep the contract come out of one `push` of their bytes, in order, and leave nothing.
pub push-stream :
    (m : ℕ) (fs : List Frame)
    → All (IsFrame m) fs
    → push (with_max_payload m) (stream fs) ≡ (ok fs, with_max_payload m)
unfolding extend
push-stream m fs h =
    push-run _ _
    ∙ ap (λ bytes. run (holding m bytes)) (sym (append-nil (stream fs)))
    ∙ run-sent m fs [] h
    ∙ ap (prepend fs) (run-none (holding m []) (IsShort-waits (holding m []) (omega arith)))
    ∙ rw append-nil

-- The reads of a connection, each pushed when it arrives: the frames of all of them and the buffer at
-- the end, or the first error. With an error the frames that the pushes before it have given are left
-- out.
abbrev pub push_all : FrameBuffer → List (List ℕ) → Result (List Frame) × FrameBuffer
push_all fb [] = (ok [], fb)
push_all fb (read ∷ reads) =
    let (r, fb') = push fb read in
    elim r [ ok fs ↦ prepend fs (push_all fb' reads) | err e ↦ (err e, fb') ]

-- The outcome of one `push` that agrees with an outcome of `push_all`; after an error the buffer is
-- not used again.
abbrev pub Agrees : Result (List Frame) × FrameBuffer → Result (List Frame) × FrameBuffer → Type 0
Agrees (ok fs, fb') whole = whole ≡ (ok fs, fb')
Agrees (err e, fb') whole = whole.0 ≡ err e

prepend-Agrees :
    (fs : List Frame) (r whole : Result (List Frame) × FrameBuffer)
    → Agrees r whole
    → Agrees (prepend fs r) (prepend fs whole)
prepend-Agrees fs (ok gs, fb) whole e = rw e
prepend-Agrees fs (err x, fb) (ok hs, fb') e = cc
prepend-Agrees fs (err x, fb) (err y, fb') e = e

push-nil : (fb : FrameBuffer) → IsShort fb → push fb [] ≡ (ok [], fb)
unfolding extend
push-nil fb short =
    push-run fb []
    ∙ ap (λ bytes. run (record fb { buffer = bytes })) (append-nil fb.buffer)
    ∙ run-none fb (IsShort-waits fb short)

pub push_all_ok :
    (fb : FrameBuffer) (read : List ℕ) (reads : List (List ℕ)) {fs : List Frame} {fb1 : FrameBuffer}
    → push fb read ≡ (ok fs, fb1)
    → push_all fb (read ∷ reads) ≡ prepend fs (push_all fb1 reads)
push_all_ok fb read reads e = rw (e, push_all) (rw e)

pub push_all_err :
    (fb : FrameBuffer) (read : List ℕ) (reads : List (List ℕ)) {x : ProcwireError}
    {fb1 : FrameBuffer}
    → push fb read ≡ (err x, fb1)
    → push_all fb (read ∷ reads) ≡ (err x, fb1)
push_all_err fb read reads e = rw (e, push_all) (rw e)

push_all_round :
    (fb : FrameBuffer) (read : List ℕ) (reads : List (List ℕ))
    (r : Result (List Frame) × FrameBuffer)
    → ((fb1 : FrameBuffer)
        → IsValid fb1
        → IsShort fb1
        → Agrees (push_all fb1 reads) (push fb1 (concat reads)))
    → push fb read ≡ r
    → Joins (concat reads) r (push fb (read ++ concat reads))
    → Delivers fb.max_payload_size (pending fb ++ read) r
    → Agrees (push_all fb (read ∷ reads)) (push fb (read ++ concat reads))
push_all_round fb read reads (ok fs, fb1) ih e joined (all, v1, short1, k, eq) =
    rw (push_all_ok fb read reads e, joined) (prepend-Agrees fs _ _ (ih fb1 v1 short1))
push_all_round fb read reads (err x, fb1) ih e joined d = rw (push_all_err fb read reads e, joined)

-- How the bytes of a connection are cut into reads does not change whether they are accepted. If one
-- push of all the bytes accepts them, pushing the reads one by one gives the same frames and the same
-- buffer; if it fails, they fail with the same error, and nothing is said of the frames that the pushes
-- before the failing one have given, which depend on the cut. The buffer is valid and holds no whole
-- frame, as a fresh one.
pub push_all-concat :
    (fb : FrameBuffer) (reads : List (List ℕ))
    → IsValid fb
    → IsShort fb
    → All (All IsByte) reads
    → Agrees (push_all fb reads) (push fb (concat reads))
push_all-concat fb [] v short h = push-nil fb short
push_all-concat fb (read ∷ reads) v short (hr, h) =
    push_all_round fb read reads (push fb read)
      (λ fb1 v1 short1. push_all-concat fb1 reads v1 short1 h) refl
      (push-append fb read (concat reads)) (push-Delivers fb read v hr)

-- Frames that keep the contract, sent one after the other and cut into reads in any way, come out of
-- a fresh buffer as these frames, in order, and leave it as it was.
pub push_all-stream :
    (m : ℕ) (fs : List Frame) (reads : List (List ℕ))
    → All (IsFrame m) fs
    → concat reads ≡ stream fs
    → All (All IsByte) reads
    → push_all (with_max_payload m) reads ≡ (ok fs, with_max_payload m)
push_all-stream m fs reads hf e h = whole (push_all (with_max_payload m) reads) (
    rw (e, push-stream m fs hf) at
      (push_all-concat (with_max_payload m) reads fresh (omega arith) h))
  where
    fresh : IsValid (with_max_payload m)
    fresh = record { buffered_bytes = tt; awaited = tt }

    whole :
        (r : Result (List Frame) × FrameBuffer)
        → Agrees r (ok fs, with_max_payload m)
        → r ≡ (ok fs, with_max_payload m)
    whole (ok gs, fb') a = sym a
    whole (err x, fb') a = cc
