-- ===== src/Client/Session/Events.antt =====
-- What events do to the account of a session: they are sent, and answer nothing.
use procwire_rust.Base.{
  ℕ, ◌^◌, ◌≤◌, ◌<◌, ◌≡◌, refl, sym, ap, ◌∙◌, List, [], ◌∷◌, ◌++◌, arith, map-append, All-append,
  inl, inr, Option, none, some,
}
use Prim.Native.String.{String}
use procwire_rust.Error.{Result, ok, err}
use procwire_rust.Protocol.Wire.{has_flag}
use procwire_rust.Protocol.Header.{is_response}
use procwire_rust.Protocol.Frame.{Frame}
use procwire_rust.Writer.Defs.{new}
use procwire_rust.Handler.Context.{FrameSender}
use procwire_rust.Handler.Registry.{HandlerRegistry, get_event_id}
use procwire_rust.Client.Emit.{event_header, emit_payload}
use procwire_rust.Client.Session.{Session}
use procwire_rust.Client.Session.Weights.{under_zero, replied, ended, total-append}
use procwire_rust.EndToEnd.{outbound}
use procwire_rust.Client.Session.Answered.{IsSound, Answered}

module _ {H W T : Type 0} (registry : HandlerRegistry H) (sender : FrameSender W)
    (encode : T → Result (List ℕ)) where
  module _ {frames sent : List Frame} {s : Session W T}
      (v : Answered registry sender encode frames sent s) where
    kept-Answered :
        (writer : W)
        → sender.accepted writer ≡ sender.accepted s.writer
        → Answered registry sender encode frames sent (record s { writer = writer })
    kept-Answered writer same = record {
      accepted = same ∙ v.accepted;
      once = v.once;
      known = v.known;
      replies = v.replies;
      ids = v.ids;
      sound = v.sound;
    }

    event-Answered :
        (id : ℕ) (payload : List ℕ) (writer : W)
        → 1 ≤ id
        → id < 2 ^ 16
        → sender.accepted writer
          ≡ sender.accepted s.writer ++ (new (event_header id payload) payload ∷ [])
        → (sent' : List Frame) × Answered registry sender encode frames sent'
            (record s { writer = writer })
    unfolding is_response has_flag
    event-Answered id payload writer used fits accepts =
        let f : Frame = record { header = event_header id payload; payload = payload } in
        (
          sent ++ (f ∷ []),
          record {
            accepted =
                accepts
                ∙ ap (λ fs. fs ++ (outbound f ∷ [])) v.accepted
                ∙ sym (map-append outbound sent (f ∷ []));
            once = λ m r.
                omega
                  (arith, v.once m r, total-append (ended m r) sent (f ∷ []), under_zero m r id 0);
            known = v.known;
            replies = λ m r. elim (v.replies m r) [
              | inl none_before ↦ inl (
                  omega (
                    arith,
                    none_before,
                    total-append (replied m r) sent (f ∷ []),
                    under_zero m r id 0,
                  ))
              | inr some_open ↦ inr some_open
            ];
            ids = v.ids;
            sound = All-append IsSound sent (f ∷ []) v.sound (
              record {
                method_used = λ e. absurd (omega arith);
                method_width = fits;
                request_width = omega arith;
                flags_small = omega arith;
                length_true = refl;
              },
              tt,
            );
          },
        )

    pub emits-Answered :
        ((event : String) (id : ℕ)
          → get_event_id registry event ≡ some id
          → (1 ≤ id) × (id < 2 ^ 16))
        → (event : String) (payload : Result (List ℕ))
        → (sent' : List Frame) × Answered registry sender encode frames sent' (record s {
          writer =
              (emit_payload registry sender event (get_event_id registry event) payload s.writer).1;
        })
    emits-Answered event_ids event payload = go (get_event_id registry event) refl payload
      where
        go :
            (found : Option ℕ)
            → get_event_id registry event ≡ found
            → (payload : Result (List ℕ))
            → (sent' : List Frame) × Answered registry sender encode frames sent' (record s {
              writer = (emit_payload registry sender event found payload s.writer).1;
            })
        go none e payload = (sent, kept-Answered s.writer refl)
        go (some id) e (err x) = (sent, kept-Answered s.writer refl)
        go (some id) e (ok bytes) =
            sends (sender.send s.writer (new (event_header id bytes) bytes)) refl
          where
            sends :
                (r : Result (Unit {0}) × W)
                → sender.send s.writer (new (event_header id bytes) bytes) ≡ r
                → (sent' : List Frame) × Answered registry sender encode frames sent'
                    (record s { writer = r.1 })
            sends (ok u, x) h =
                event-Answered id bytes x (event_ids event id e).0 (event_ids event id e).1
                  (sender.send_accepts s.writer x _ h)
            sends (err y, x) h = (sent, kept-Answered x (sender.send_refuses s.writer x _ y h))
