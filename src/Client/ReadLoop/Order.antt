-- ===== src/Client/ReadLoop/Order.antt =====
-- The frames that the peer has sent are dispatched in order, however their bytes arrive.
use procwire_rust.Base.{
  ℕ, ◌≡◌, refl, sym, ap, subst, ◌∙◌, Option, some, List, [], ◌∷◌, ◌++◌, map, All, concat,
}
use procwire_rust.Error.{Result, ok, err}
use procwire_rust.Protocol.Wire.{IsByte}
use procwire_rust.Protocol.Frame.{Frame}
use procwire_rust.Protocol.FrameBuffer.{FrameBuffer, with_max_payload, push}
use procwire_rust.Protocol.FrameBuffer.Chunks.{prepend}
use procwire_rust.Protocol.FrameBuffer.Sound.{IsFrame, stream}
use procwire_rust.Protocol.FrameBuffer.Reassembly.{push_all, push_all-stream}
use procwire_rust.Client.Auth.{bytes, closed}
use procwire_rust.Client.ReadLoop.{dispatch_all, read_all, read_loop}

module _ {S : Type 0} (dispatch : S → Frame → S) where
  pub dispatch_all-append :
      (s : S) (xs ys : List Frame)
      → dispatch_all dispatch s (xs ++ ys) ≡ dispatch_all dispatch (dispatch_all dispatch s xs) ys
  dispatch_all-append s [] ys = refl
  dispatch_all-append s (x ∷ xs) ys = dispatch_all-append (dispatch s x) xs ys

  -- What the loop makes of an answer of `push_all`, when the connection closes after it.
  abbrev pub Ends : S → Result (List Frame) × FrameBuffer → Option (Result (Unit {0})) × S → Type 0
  Ends s (ok fs, fb) r = r ≡ (some (ok tt), dispatch_all dispatch s fs)
  Ends s (err e, fb) r = r.0 ≡ some (err e)

  prepend-Ends :
      (s : S) (fs : List Frame) (r : Result (List Frame) × FrameBuffer)
      (e : Option (Result (Unit {0})) × S)
      → Ends (dispatch_all dispatch s fs) r e
      → Ends s (prepend fs r) e
  prepend-Ends s fs (ok gs, fb) e h =
      h ∙ ap (λ t. (some (ok tt), t)) (sym (dispatch_all-append s fs gs))
  prepend-Ends s fs (err x, fb) e h = h

  pub read_all-Ends :
      (s : S) (fb : FrameBuffer) (cuts : List (List ℕ))
      → Ends s (push_all fb cuts) (read_all dispatch s fb (map bytes cuts ++ (closed ∷ [])))
  unfolding read_all
  read_all-Ends s fb [] = refl
  read_all-Ends s fb (bs ∷ cuts) = go (push fb bs) (λ s1 fb1. read_all-Ends s1 fb1 cuts)
    where
      go :
          (r : Result (List Frame) × FrameBuffer)
          → ((s1 : S) (fb1 : FrameBuffer)
              → Ends s1
                  (push_all fb1 cuts)
                  (read_all dispatch s1 fb1 (map bytes cuts ++ (closed ∷ []))))
          → Ends s
              (let (x, fb1) = r in
                elim x [ ok fs ↦ prepend fs (push_all fb1 cuts) | err e ↦ (err e, fb1) ])
              (let (x, fb1) = r in
                elim x [
                  | err e ↦ (some (err e), s)
                  | ok fs ↦
                      read_all dispatch
                        (dispatch_all dispatch s fs)
                        fb1
                        (map bytes cuts ++ (closed ∷ []))
                ])
      go (err e, fb1) ih = refl
      go (ok fs, fb1) ih = prepend-Ends s fs _ _ (ih (dispatch_all dispatch s fs) fb1)

  -- Frames that keep the wire contract, sent one after the other and cut into reads in any way, are
  -- dispatched in order behind the initial frames, and the loop ends without an error when the
  -- connection closes.
  pub read_loop-stream :
      (s : S) (m : ℕ) (initial fs : List Frame) (cuts : List (List ℕ))
      → All (IsFrame m) fs
      → concat cuts ≡ stream fs
      → All (All IsByte) cuts
      → read_loop dispatch s (with_max_payload m) initial (map bytes cuts ++ (closed ∷ []))
        ≡ (some (ok tt), dispatch_all dispatch s (initial ++ fs))
  unfolding read_loop
  read_loop-stream s m initial fs cuts valid same are_bytes =
      let s' = dispatch_all dispatch s initial in
      let loop = read_all dispatch s' (with_max_payload m) (map bytes cuts ++ (closed ∷ [])) in
      subst (λ r. Ends s' r loop) (push_all-stream m fs cuts valid same are_bytes)
        (read_all-Ends s' (with_max_payload m) cuts)
      ∙ ap (λ t. (some (ok tt), t)) (sym (dispatch_all-append s initial fs))
