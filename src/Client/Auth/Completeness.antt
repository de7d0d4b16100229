-- ===== src/Client/Auth/Completeness.antt =====
-- A peer that proves the token is adopted, however its bytes are cut.
use procwire_rust.Base.{
  ℕ, ◌≡◌, refl, sym, ap, subst, ◌∙◌, some, List, [], ◌∷◌, ◌++◌, All, map, Bool-cases, ◌==◌, ==_iff,
  inl, inr,
}
use procwire_rust.Error.{Result, ok, err}
use procwire_rust.Protocol.Wire.{IsByte, auth_method_id}
use procwire_rust.Protocol.Frame.{Frame}
use procwire_rust.Protocol.FrameBuffer.{FrameBuffer, push}
use procwire_rust.Protocol.FrameBuffer.Chunks.{prepend, prepend-nil}
use procwire_rust.Protocol.FrameBuffer.Reassembly.{push_all, push_all_ok, push_all_err}
use procwire_rust.Client.Auth.{
  adopted, rejected, Read, bytes, closed, judge, handshake, constant_time_eq,
}
use procwire_rust.Client.Auth.Equality.{constant_time_eq_iff}
use procwire_rust.Client.Auth.Adoption.{round, handshake-round}

abbrev Pushed : Type 0
Pushed = Result (List Frame) × FrameBuffer

-- What a result with frames in front says of the rest.
prepend-ok :
    (xs : List Frame) (r : Pushed) (ys : List Frame) (fb : FrameBuffer)
    → prepend xs r ≡ (ok ys, fb)
    → (gs : List Frame) × (r ≡ (ok gs, fb)) × (xs ++ gs ≡ ys)
prepend-ok xs (ok gs, fb1) ys fb e =
    let same : xs ++ gs ≡ ys = cc in
    let state : fb1 ≡ fb = cc in (gs, ap (λ t. (ok gs, t)) state, same)
prepend-ok xs (err x, fb1) ys fb e = absurd (cc)

-- A frame that proves the token.
pub record Proves (token : List ℕ) (first : Frame) : Type 0 where
  pub to_auth : first.header.method_id ≡ auth_method_id
  pub carries : first.payload ≡ token

-- The first frame, if there is one, does not prove the token.
abbrev pub Unproved : List ℕ → List Frame → Type 0
Unproved token [] = Unit {0}
Unproved token (first ∷ fs) = ¬ Proves token first

module _ (token : List ℕ) (token_bytes : All IsByte token) where
  judge-Proves :
      (fb : FrameBuffer) (first : Frame) (frames : List Frame)
      → Proves token first
      → judge token fb first frames ≡ adopted fb frames
  unfolding judge
  judge-Proves fb first frames p =
      let own = (constant_time_eq_iff token token token_bytes token_bytes).1 refl in
      rw (p.to_auth, p.carries, own) refl

  -- What the read loop gets of the frames `fs` behind the first.
  abbrev pub Passes : FrameBuffer → List (List ℕ) → List Frame → FrameBuffer → Type 0
  Passes fb cuts fs last =
      (fb' : FrameBuffer) × (frames : List Frame) × (left : List (List ℕ)) × (gs : List Frame)
      × (handshake token fb (map bytes cuts ++ (closed ∷ []))
          ≡ some (adopted fb' frames, map bytes left ++ (closed ∷ [])))
      × (push_all fb' left ≡ (ok gs, last))
      × (frames ++ gs ≡ fs)

  pub handshake-Passes :
      (fb : FrameBuffer) (cuts : List (List ℕ)) (first : Frame) (fs : List Frame)
      (last : FrameBuffer)
      → Proves token first
      → push_all fb cuts ≡ (ok (first ∷ fs), last)
      → Passes fb cuts fs last
  handshake-Passes fb [] first fs last p e = absurd (cc)
  handshake-Passes fb (bs ∷ cuts) first fs last p e =
      go (push fb bs) refl (λ fb1 e1. handshake-Passes fb1 cuts first fs last p e1)
    where
      go :
          (r : Pushed)
          → push fb bs ≡ r
          → ((fb1 : FrameBuffer)
              → push_all fb1 cuts ≡ (ok (first ∷ fs), last)
              → Passes fb1 cuts fs last)
          → Passes fb (bs ∷ cuts) fs last
      go (err x, fb1) h ih = let bad = sym (push_all_err fb bs cuts h) ∙ e in absurd (cc)
      go (ok [], fb1) h ih =
          let later = sym (prepend-nil (push_all fb1 cuts)) ∙ sym (push_all_ok fb bs cuts h) ∙ e in
          let (fb', frames, left, gs, passed, rest, all) = ih fb1 later in
          (
            fb',
            frames,
            left,
            gs,
            handshake-round token token_bytes fb bs (map bytes cuts ++ (closed ∷ []))
                ∙ ap (round token token_bytes (map bytes cuts ++ (closed ∷ []))) h
                ∙ passed,
            rest,
            all,
          )
      go (ok (f ∷ more), fb1) h ih =
          let split = sym (push_all_ok fb bs cuts h) ∙ e in
          let (gs, rest, all) = prepend-ok (f ∷ more) (push_all fb1 cuts) (first ∷ fs) last split in
          let is_first : f ≡ first = cc in
          let behind : more ++ gs ≡ fs = cc in
          (
            fb1,
            more,
            cuts,
            gs,
            handshake-round token token_bytes fb bs (map bytes cuts ++ (closed ∷ []))
                ∙ ap (round token token_bytes (map bytes cuts ++ (closed ∷ []))) h
                ∙ ap (λ o. some (o, map bytes cuts ++ (closed ∷ [])))
                    (judge-Proves fb1 f more (subst (Proves token) (sym is_first) p)),
            rest,
            behind,
          )

  judge-refuses :
      (fb : FrameBuffer) (first : Frame) (frames : List Frame)
      → ¬ Proves token first
      → All IsByte first.payload
      → judge token fb first frames ≡ rejected
  unfolding judge
  judge-refuses fb first frames fails payload_bytes =
      elim (Bool-cases (first.header.method_id == auth_method_id)) [
        | inr other ↦ rw other refl
        | inl to_auth ↦ elim (Bool-cases (constant_time_eq first.payload token)) [
          | inr different ↦ rw (to_auth, different) refl
          | inl same ↦ absurd (
              fails (record {
                to_auth = (==_iff first.header.method_id auth_method_id).0 to_auth;
                carries =
                    (constant_time_eq_iff first.payload token payload_bytes token_bytes).0 same;
              }))
        ]
      ]

  -- A peer whose first frame does not prove the token is refused, and so is one that closes before it
  -- has sent a frame.
  pub handshake-refuses :
      (fb : FrameBuffer) (cuts : List (List ℕ)) (gs : List Frame) (last : FrameBuffer)
      → Unproved token gs
      → All (λ g. All IsByte g.payload) gs
      → push_all fb cuts ≡ (ok gs, last)
      → (left : List Read) × (handshake token fb (map bytes cuts ++ (closed ∷ []))
          ≡ some (rejected, left))
  unfolding handshake
  handshake-refuses fb [] gs last fails are_bytes e = ([], refl)
  handshake-refuses fb (bs ∷ cuts) gs last fails are_bytes e =
      go (push fb bs) refl (λ fb1 e1. handshake-refuses fb1 cuts gs last fails are_bytes e1)
    where
      reads : List Read
      reads = map bytes cuts ++ (closed ∷ [])

      go :
          (r : Pushed)
          → push fb bs ≡ r
          → ((fb1 : FrameBuffer)
              → push_all fb1 cuts ≡ (ok gs, last)
              → (left : List Read) × (handshake token fb1 reads ≡ some (rejected, left)))
          → (left : List Read) × (handshake token fb (bytes bs ∷ reads) ≡ some (rejected, left))
      go (err x, fb1) h ih = let bad = sym (push_all_err fb bs cuts h) ∙ e in absurd (cc)
      go (ok [], fb1) h ih =
          let (left, refused) =
            ih fb1 (sym (prepend-nil (push_all fb1 cuts)) ∙ sym (push_all_ok fb bs cuts h) ∙ e) in
          (
            left,
            handshake-round token token_bytes fb bs reads
                ∙ ap (round token token_bytes reads) h
                ∙ refused,
          )
      go (ok (f ∷ more), fb1) h ih =
          let split = sym (push_all_ok fb bs cuts h) ∙ e in
          let (hs, rest, all) = prepend-ok (f ∷ more) (push_all fb1 cuts) gs last split in
          (
            reads,
            handshake-round token token_bytes fb bs reads
                ∙ ap (round token token_bytes reads) h
                ∙ ap (λ o. some (o, reads))
                    (judge-refuses fb1 f more (subst (Unproved token) (sym all) fails)
                      (subst (All (λ g. All IsByte g.payload)) (sym all) are_bytes).0),
          )
