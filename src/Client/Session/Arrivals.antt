-- ===== src/Client/Session/Arrivals.antt =====
-- What an arriving frame makes of a session.
use procwire_rust.Base.{
  ℕ, suc, ◌≡◌, refl, sym, subst, true, false, List, ◌∷◌, arith, ==_iff, ◌==◌, Bool-cases, ◌⊎◌, inl,
  inr, Option, none, some, if◌then◌else◌,
}
use procwire_rust.Base.Assoc.{lookup, number_key}
use procwire_rust.Error.{Result}
use procwire_rust.Protocol.Header.{is_response}
use procwire_rust.Protocol.Frame.{Frame}
use procwire_rust.Handler.Context.{FrameSender}
use procwire_rust.Handler.Registry.{HandlerRegistry}
use procwire_rust.Client.Dispatch.{Runtime, dispatch_frame, abort, spawn, cancel_found}
use procwire_rust.Protocol.Wire.{abort_method_id, auth_method_id}
use procwire_rust.Client.Session.{Session, flight_of, arrive}

module _ {H W T : Type 0} (registry : HandlerRegistry H) (sender : FrameSender W)
    (encode : T → Result (List ℕ)) where
  -- What a frame makes of the runtime: the request starts a task; or an ABORT cancels the token that is
  -- entered under its request id; or nothing happens.
  abbrev Dispatched : Runtime → Frame → Runtime → Type 0
  Dispatched rt frame rt' =
      ((rt' ≡ spawn registry rt frame) × (is_response frame.header ≡ false))
      ⊎ (((token : ℕ) × (lookup number_key frame.header.request_id rt.active_contexts ≡ some token)
            × (frame.header.method_id ≡ abort_method_id)
            × (rt' ≡ record rt { cancelled = token ∷ rt.cancelled }))
          ⊎ (rt' ≡ rt))

  abort-Dispatched :
      (rt : Runtime) (frame : Frame)
      → frame.header.method_id ≡ abort_method_id
      → Dispatched rt frame (abort rt frame.header.request_id)
  unfolding abort
  abort-Dispatched rt frame e =
      go (lookup number_key frame.header.request_id rt.active_contexts) refl
    where
      go :
          (found : Option ℕ)
          → lookup number_key frame.header.request_id rt.active_contexts ≡ found
          → Dispatched rt frame (cancel_found rt found)
      go none h = inr (inr refl)
      go (some token) h = inr (inl (token, h, e, refl))

  dispatch_frame-Dispatched :
      (rt : Runtime) (frame : Frame) → Dispatched rt frame (dispatch_frame registry rt frame)
  unfolding dispatch_frame
  dispatch_frame-Dispatched rt frame =
      elim (Bool-cases (frame.header.method_id == abort_method_id)) [
        | inl aborts ↦
            rw aborts
              (abort-Dispatched rt frame ((==_iff frame.header.method_id abort_method_id).0 aborts))
        | inr other ↦ rw other (elim (Bool-cases (frame.header.method_id == auth_method_id)) [
          | inl auth ↦ rw auth (inr (inr refl))
          | inr no_auth ↦ rw no_auth (elim (Bool-cases (is_response frame.header)) [
            | inl response ↦ rw response (inr (inr refl))
            | inr asks ↦ rw asks (elim (Bool-cases (rt.permits == 0)) [
              | inl busy ↦ rw busy (inr (inr refl))
              | inr free ↦ rw free (inl (refl, refl))
            ])
          ])
        ])
      ]

  -- The session that a frame leads to, in the same three cases.
  abbrev pub Arrived : Frame → ℕ → Session W T → Session W T → Type 0
  Arrived frame clones s t =
      ((t ≡ record {
        runtime = spawn registry s.runtime frame;
        flights = flight_of registry sender encode s.runtime frame clones ∷ s.flights;
        writer = s.writer;
      })
        × (is_response frame.header ≡ false))
      ⊎ (((token : ℕ) × (lookup number_key frame.header.request_id s.runtime.active_contexts
              ≡ some token)
            × (frame.header.method_id ≡ abort_method_id)
            × (t ≡ record s {
              runtime = record s.runtime { cancelled = token ∷ s.runtime.cancelled };
            }))
          ⊎ (t ≡ s))

  abbrev after_dispatch : Frame → ℕ → Session W T → Runtime → Session W T
  after_dispatch frame clones s rt = record {
    runtime = rt;
    flights =
        if rt.next_token == s.runtime.next_token
        then s.flights
        else flight_of registry sender encode s.runtime frame clones ∷ s.flights;
    writer = s.writer;
  }

  spawn-Arrived :
      (frame : Frame) (clones : ℕ) (s : Session W T)
      → is_response frame.header ≡ false
      → Arrived frame clones s (after_dispatch frame clones s (spawn registry s.runtime frame))
  unfolding spawn
  spawn-Arrived frame clones s asks =
      let other : (suc s.runtime.next_token == s.runtime.next_token) ≡ false =
        ground (arith, ==_iff (suc s.runtime.next_token) s.runtime.next_token) in
      inl (rw other refl, asks)

  after_dispatch-Arrived :
      (frame : Frame) (clones : ℕ) (s : Session W T) (rt : Runtime)
      → Dispatched s.runtime frame rt
      → Arrived frame clones s (after_dispatch frame clones s rt)
  after_dispatch-Arrived frame clones s rt (inl (e, asks)) =
      subst (λ rt. Arrived frame clones s (after_dispatch frame clones s rt)) (sym e)
        (spawn-Arrived frame clones s asks)
  after_dispatch-Arrived frame clones s rt (inr (inl (token, found, aborts, e))) =
      let own : (s.runtime.next_token == s.runtime.next_token) ≡ true =
        (==_iff s.runtime.next_token s.runtime.next_token).1 refl in
      subst (λ rt. Arrived frame clones s (after_dispatch frame clones s rt)) (sym e)
        (inr (inl (token, found, aborts, rw own refl)))
  after_dispatch-Arrived frame clones s rt (inr (inr e)) =
      let own : (s.runtime.next_token == s.runtime.next_token) ≡ true =
        (==_iff s.runtime.next_token s.runtime.next_token).1 refl in
      subst (λ rt. Arrived frame clones s (after_dispatch frame clones s rt)) (sym e)
        (inr (inr (rw own refl)))

  pub arrive-Arrived :
      (frame : Frame) (clones : ℕ) (s : Session W T)
      → Arrived frame clones s (arrive registry sender encode frame clones s)
  unfolding arrive
  arrive-Arrived frame clones s =
      after_dispatch-Arrived frame clones s (dispatch_frame registry s.runtime frame)
        (dispatch_frame-Dispatched s.runtime frame)
