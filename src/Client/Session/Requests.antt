-- ===== src/Client/Session/Requests.antt =====
-- What arriving frames do to the account of a session: they ask, and may start a task.
use procwire_rust.Base.{ℕ, ◌≡◌, refl, sym, ap, subst, false, List, [], ◌∷◌, ◌++◌, arith, inl, inr}
use procwire_rust.Base.Tasks.{total-replicate}
use procwire_rust.Error.{Result}
use procwire_rust.Protocol.Header.{is_response}
use procwire_rust.Protocol.Frame.{Frame}
use procwire_rust.Protocol.FrameBuffer.Sound.{IsFrame}
use procwire_rust.Handler.Context.{FrameSender}
use procwire_rust.Handler.Context.Once.{idle, marked_weight}
use procwire_rust.Handler.Registry.{HandlerRegistry}
use procwire_rust.Client.Dispatch.{Runtime, spawn}
use procwire_rust.Client.Session.{Session, flight_of, arrive}
use procwire_rust.Client.Session.Weights.{under, under_zero, asked, total-append}
use procwire_rust.Client.Session.Answered.{Answered}
use procwire_rust.Client.Session.Arrivals.{arrive-Arrived}

module _ {H W T : Type 0} (registry : HandlerRegistry H) (sender : FrameSender W)
    (encode : T → Result (List ℕ)) where
  module _ {frames sent : List Frame} {s : Session W T}
      (v : Answered registry sender encode frames sent s) where
    arrives_only :
        (frame : Frame) (runtime : Runtime)
        → Answered registry sender encode
            (frames ++ (frame ∷ []))
            sent
            (record s { runtime = runtime })
    arrives_only frame runtime = record {
      accepted = v.accepted;
      once = v.once;
      known = λ m r. omega (arith, v.known m r, total-append (asked m r) frames (frame ∷ []));
      replies = v.replies;
      ids = v.ids;
      sound = v.sound;
    }

    arrives_started :
        (k : ℕ) (frame : Frame) (clones : ℕ) (runtime : Runtime)
        → IsFrame k frame
        → is_response frame.header ≡ false
        → Answered registry sender encode (frames ++ (frame ∷ [])) sent (record s {
          runtime = runtime;
          flights = flight_of registry sender encode s.runtime frame clones ∷ s.flights;
        })
    arrives_started k frame clones runtime valid asks =
        let id = frame.header.method_id in
        let q = frame.header.request_id in
        let asked_once : (m r : ℕ) → asked m r frame ≡ under m r id q 1 = λ m r. rw asks refl in
        record {
          accepted = v.accepted;
          once = λ m r. omega (
            arith,
            v.once m r,
            under_zero m r id q,
            ap (under m r id q) (total-replicate marked_weight clones idle refl),
          );
          known = λ m r.
              omega
                (arith, v.known m r, total-append (asked m r) frames (frame ∷ []), asked_once m r);
          replies = λ m r. elim (v.replies m r) [
            | inl none_before ↦ inl none_before
            | inr some_open ↦ inr (omega (arith, some_open))
          ];
          ids = (
            record {
              method_used = valid.contract.method_id_used;
              method_width = valid.in_range.method_id_fits;
              request_width = valid.in_range.request_id_fits;
            },
            v.ids,
          );
          sound = v.sound;
        }

    pub arrive-Answered :
        (k : ℕ) (frame : Frame) (clones : ℕ)
        → IsFrame k frame
        → Answered registry sender encode
            (frames ++ (frame ∷ []))
            sent
            (arrive registry sender encode frame clones s)
    arrive-Answered k frame clones valid =
        elim (arrive-Arrived registry sender encode frame clones s) [
          | inl (e, asks) ↦
              subst (Answered registry sender encode (frames ++ (frame ∷ [])) sent) (sym e)
                (arrives_started k frame clones (spawn registry s.runtime frame) valid asks)
          | inr (inl (token, found, aborts, e)) ↦
              subst (Answered registry sender encode (frames ++ (frame ∷ [])) sent) (sym e)
                (arrives_only frame (record s.runtime { cancelled = token ∷ s.runtime.cancelled }))
          | inr (inr e) ↦
              subst (Answered registry sender encode (frames ++ (frame ∷ [])) sent) (sym e)
                (arrives_only frame s.runtime)
        ]
