-- ===== src/Client/Auth/Adoption.antt =====
-- A connection is adopted only by its first frame.
use procwire_rust.Base.{
  ℕ, ◌≡◌, refl, sym, ap, subst, ◌∙◌, Option, some, List, [], ◌∷◌, ◌++◌, arith, All, concat, ==_iff,
  append_assoc, append-nil, map,
}
use procwire_rust.Error.{Result, ok, err}
use procwire_rust.Protocol.Wire.{IsByte, auth_method_id}
use procwire_rust.Protocol.Frame.{Frame, build_frame}
use procwire_rust.Protocol.FrameBuffer.{FrameBuffer, with_max_payload, push}
use procwire_rust.Protocol.FrameBuffer.Sound.{IsFrame, IsValid, pending, stream}
use procwire_rust.Protocol.FrameBuffer.Delivery.{Delivers, push-Delivers}
use procwire_rust.Client.Auth.{
  AuthOutcome, adopted, rejected, Read, bytes, closed, read_error, judge, handshake,
  run_auth_handshake,
}
use procwire_rust.Client.Auth.Equality.{constant_time_eq_iff}

-- The bytes of a read are bytes.
abbrev pub HasBytes : Read → Type 0
HasBytes (bytes bs) = All IsByte bs
HasBytes closed = Unit {0}
HasBytes (read_error e) = Unit {0}

-- What an adoption shows of the bytes `p` that were pending before, and of the reads: the bytes used
-- start with a frame that carries the token to the method id of authentication, and go on with
-- exactly the frames and the pending bytes that are passed on; the reads behind are left.
abbrev pub Proved : List ℕ → ℕ → List ℕ → List Read → FrameBuffer → List Frame → List Read → Type 0
Proved token m p reads fb frames rest =
    (used : List (List ℕ)) × (first : Frame) × (reads ≡ map bytes used ++ rest)
    × (first.header.method_id ≡ auth_method_id)
    × (first.payload ≡ token)
    × (p ++ concat used ≡ build_frame first.header first.payload ++ (stream frames ++ pending fb))
    × All (IsFrame m) (first ∷ frames)
    × IsValid fb

module _ (token : List ℕ) (token_bytes : All IsByte token) where
  judge_adopted :
      (m : ℕ) (fb fb' : FrameBuffer) (first : Frame) (frames frames' : List Frame)
      → IsFrame m first
      → judge token fb first frames ≡ adopted fb' frames'
      → (first.header.method_id ≡ auth_method_id)
        × (first.payload ≡ token)
        × (fb ≡ fb')
        × (frames ≡ frames')
  unfolding judge
  judge_adopted m fb fb' first frames frames' valid e = ground (
    arith,
    ==_iff first.header.method_id auth_method_id,
    constant_time_eq_iff first.payload token valid.payload_bytes token_bytes,
  )

  -- What a round does with the answer of `push`.
  abbrev pub round :
      List Read → Result (List Frame) × FrameBuffer → Option (AuthOutcome × List Read)
  round reads (err e, fb1) = some (rejected, reads)
  round reads (ok [], fb1) = handshake token fb1 reads
  round reads (ok (first ∷ frames), fb1) = some (judge token fb1 first frames, reads)

  pub handshake-round :
      (fb : FrameBuffer) (bs : List ℕ) (reads : List Read)
      → handshake token fb (bytes bs ∷ reads) ≡ round reads (push fb bs)
  unfolding handshake
  handshake-round fb bs reads = go (push fb bs) refl
    where
      go :
          (r : Result (List Frame) × FrameBuffer)
          → push fb bs ≡ r
          → handshake token fb (bytes bs ∷ reads) ≡ round reads r
      go (err e, fb1) h = rw (h, handshake) refl
      go (ok [], fb1) h = rw (h, handshake) (rw h refl)
      go (ok (first ∷ frames), fb1) h = rw (h, handshake) (rw h refl)

  round-Proved :
      (m : ℕ) (p : List ℕ) (bs : List ℕ) (r : Result (List Frame) × FrameBuffer) (fb' : FrameBuffer)
      (frames : List Frame) (reads rest : List Read)
      → ((fb1 : FrameBuffer)
          → IsValid fb1
          → handshake token fb1 reads ≡ some (adopted fb' frames, rest)
          → Proved token fb1.max_payload_size (pending fb1) reads fb' frames rest)
      → Delivers m (p ++ bs) r
      → round reads r ≡ some (adopted fb' frames, rest)
      → Proved token m p (bytes bs ∷ reads) fb' frames rest
  round-Proved m p bs (err x, fb1) fb' frames reads rest ih d e = ground arith
  round-Proved m p bs (ok [], fb1) fb' frames reads rest ih (fs_valid, v, short, max, same) e =
      let (used, first, cut, auth, proves, all_bytes, valid, v') = ih fb1 v e in
      (
        bs ∷ used,
        first,
        ap (λ t. bytes bs ∷ t) cut,
        auth,
        proves,
        sym (append_assoc p bs (concat used)) ∙ ap (λ t. t ++ concat used) same ∙ all_bytes,
        subst (λ m. All (IsFrame m) (first ∷ frames)) max valid,
        v',
      )
  round-Proved m p bs (ok (first ∷ fs), fb1) fb' frames reads rest ih
        (fs_valid, v, short, max, same) e =
      let judged : judge token fb1 first fs ≡ adopted fb' frames = cc in
      let left : reads ≡ rest = cc in
      let (auth, proves, same_fb, same_frames) =
        judge_adopted m fb1 fb' first fs frames fs_valid.0 judged in
      (
        bs ∷ [],
        first,
        ap (λ t. bytes bs ∷ t) left,
        auth,
        proves,
        ap (λ t. p ++ t) (append-nil bs)
            ∙ same
            ∙ append_assoc (build_frame first.header first.payload) (stream fs) (pending fb1)
            ∙ rw (same_frames, same_fb) refl,
        (fs_valid.0, subst (All (IsFrame m)) same_frames fs_valid.1),
        subst IsValid same_fb v,
      )

  handshake-Proved :
      (fb fb' : FrameBuffer) (frames : List Frame) (reads rest : List Read)
      → IsValid fb
      → All HasBytes reads
      → handshake token fb reads ≡ some (adopted fb' frames, rest)
      → Proved token fb.max_payload_size (pending fb) reads fb' frames rest
  unfolding handshake
  handshake-Proved fb fb' frames [] rest v hb e = cc
  handshake-Proved fb fb' frames (closed ∷ reads) rest v hb e = ground arith
  handshake-Proved fb fb' frames (read_error x ∷ reads) rest v hb e = ground arith
  handshake-Proved fb fb' frames (bytes bs ∷ reads) rest v (hbs, hb) e =
      round-Proved fb.max_payload_size (pending fb) bs (push fb bs) fb' frames reads rest
        (λ fb1 v1 e1. handshake-Proved fb1 fb' frames reads rest v1 hb e1)
        (push-Delivers fb bs v hbs) (sym (handshake-round fb bs reads) ∙ e)

  -- A connection is adopted only if its first frame, as cut from its reads, goes to the method id of
  -- authentication and carries exactly the token. The frames and the buffer that the read loop goes on
  -- with are valid and are, byte for byte, what was read behind that frame; the other reads are left.
  pub run_auth_handshake-Proved :
      (m : ℕ) (fb : FrameBuffer) (frames : List Frame) (reads rest : List Read)
      → All HasBytes reads
      → run_auth_handshake token m reads ≡ some (adopted fb frames, rest)
      → Proved token m [] reads fb frames rest
  unfolding run_auth_handshake
  run_auth_handshake-Proved m fb frames reads rest hb e =
      handshake-Proved (with_max_payload m) fb frames reads rest
        (record { buffered_bytes = tt; awaited = tt }) hb e
