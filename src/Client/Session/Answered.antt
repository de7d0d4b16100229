-- ===== src/Client/Session/Answered.antt =====
-- What holds of a session at all times between the requests that arrived and the frames that the
-- writer has accepted.
use procwire_rust.Base.{
  ℕ, ◌+◌, ◌^◌, ◌%◌, ◌≤◌, ◌<◌, ◌≡◌, ◌≢◌, refl, sym, ap, ◌∙◌, List, [], ◌∷◌, ◌++◌, arith, length, map,
  map-append, All, All-append, ◌==◌, ◌&&◌, Bool-cases, ◌⊎◌, inl, inr, if◌then◌else◌,
}
use procwire_rust.Base.Tasks.{Moves, total, Moves-total, Moves-All, Moves-at}
use procwire_rust.Error.{Result}
use procwire_rust.Protocol.Header.{is_response}
use procwire_rust.Protocol.Frame.{Frame}
use procwire_rust.Handler.Context.{FrameSender, RequestContext}
use procwire_rust.Handler.Context.Once as Once
use procwire_rust.Handler.Context.Once.{idle, marked_weight, responded_weight}
use procwire_rust.Handler.Registry.{HandlerRegistry}
use procwire_rust.Client.Session.{Flight, Session, view, put_back}
use procwire_rust.Client.Session.Flights.{IsAnswer, Step-Sends}
use procwire_rust.Client.Session.Weights.{
  under, under_paid, under_cases, asked, replied, ends, ended, total-append, Moves-le,
}
use procwire_rust.EndToEnd.{outbound}

-- The ids of a request that came over the wire.
pub record HasIds (ctx : RequestContext) : Type 0 where
  pub method_used : ctx.method_id ≢ 0
  pub method_width : ctx.method_id < 2 ^ 16
  pub request_width : ctx.request_id < 2 ^ 32

-- A frame whose header is in order.
pub record IsSound (f : Frame) : Type 0 where
  pub method_used : f.header.method_id ≢ 0
  pub method_width : f.header.method_id < 2 ^ 16
  pub request_width : f.header.request_id < 2 ^ 32
  pub flags_small : f.header.flags < 2 ^ 6
  pub length_true : f.header.payload_length ≡ length f.payload % 2 ^ 32

IsAnswer-IsSound : {ctx : RequestContext} {f : Frame} → HasIds ctx → IsAnswer ctx f → IsSound f
IsAnswer-IsSound {ctx} {f} h a = record {
  method_used = λ e. h.method_used (sym a.same_method ∙ e);
  method_width = omega arith;
  request_width = omega arith;
  flags_small = a.flags_small;
  length_true = a.length_true;
}

All-IsSound :
    {ctx : RequestContext} (sent : List Frame)
    → HasIds ctx
    → All (IsAnswer ctx) sent
    → All IsSound sent
All-IsSound [] h a = tt
All-IsSound (f ∷ sent) h (a, more) = (IsAnswer-IsSound h a, All-IsSound sent h more)

module _ (method request : ℕ) where
  IsAnswer-total :
      (weight : Frame → ℕ) (ctx : RequestContext) (sent : List Frame)
      → All (IsAnswer ctx) sent
      → total (λ f. under method request f.header.method_id f.header.request_id (weight f)) sent
        ≡ under method request ctx.method_id ctx.request_id (total weight sent)
  IsAnswer-total weight ctx [] a =
      elim (Bool-cases ((ctx.method_id == method) && (ctx.request_id == request))) [
        | inl same ↦ rw same refl
        | inr other ↦ rw other refl
      ]
  IsAnswer-total weight ctx (f ∷ sent) (a, more) =
      let rest = IsAnswer-total weight ctx sent more in
      rw (a.same_method, a.same_request, rest)
        (elim (Bool-cases ((ctx.method_id == method) && (ctx.request_id == request))) [
          | inl same ↦ rw same refl
          | inr other ↦ rw other (omega arith)
        ])

module _ {T : Type 0} (method request : ℕ) where
  -- The request of a context under these ids, its marks, and whether it is responded.
  abbrev pub open_at : Flight T → ℕ
  open_at q = under method request q.context.method_id q.context.request_id 1

  abbrev pub marked_at : Flight T → ℕ
  marked_at q =
      under method request q.context.method_id q.context.request_id (total marked_weight q.tasks)

  abbrev pub responded_at : Flight T → ℕ
  responded_at q =
      under method request q.context.method_id q.context.request_id (responded_weight q.responded)

  pub responded-le-open : (q : Flight T) → responded_at q ≤ open_at q
  responded-le-open q = ground arith

module _ {H W T : Type 0} (registry : HandlerRegistry H) (sender : FrameSender W)
    (encode : T → Result (List ℕ)) where
  -- Between the frames that arrived and those that were sent, for every two ids of a method and a
  -- request: terminal frames are paid for by requests that are responded, requests by frames that
  -- arrived, and where none is open none is replied to.
  pub record Answered (frames sent : List Frame) (s : Session W T) : Type 0 where
    pub accepted : sender.accepted s.writer ≡ map outbound sent
    pub once :
        (m r : ℕ)
        → total (ended m r) sent + total (marked_at m r) s.flights
          ≤ total (responded_at m r) s.flights
    pub known : (m r : ℕ) → total (open_at m r) s.flights ≤ total (asked m r) frames
    pub replies : (m r : ℕ) → (total (replied m r) sent ≡ 0) ⊎ (1 ≤ total (open_at m r) s.flights)
    pub ids : All (λ (q : Flight T). HasIds q.context) s.flights
    pub sound : All IsSound sent

  module _ {frames sent : List Frame} {s : Session W T} (v : Answered frames sent s) where
    pub uses-Answered :
        {t : Once.System W T} {q : Flight T} {qs : List (Flight T)}
        → Once.Step sender encode q.context (view registry sender encode s q) t
        → Moves q (put_back registry sender encode q t) s.flights qs
        → (sent' : List Frame) × Answered frames sent'
            (record s { flights = qs; writer = t.shared.writer })
    uses-Answered {t} {q} {qs} st m =
        let (more, did) = Step-Sends sender encode q.context st in
        (
          sent ++ more,
          record {
            accepted =
                did.accepted
                ∙ ap (λ fs. fs ++ map outbound more) v.accepted
                ∙ sym (map-append outbound sent more);
            once = λ method request. omega (
              arith,
              v.once method request,
              total-append (ended method request) sent more,
              IsAnswer-total method request ends q.context more did.answers,
              Moves-total (marked_at method request) m,
              Moves-total (responded_at method request) m,
              under_paid method request q.context.method_id q.context.request_id _ _ _ _ _ did.paid,
            );
            known = λ method request.
                omega (arith, v.known method request, Moves-total (open_at method request) m);
            replies = λ method request. elim (v.replies method request) [
              | inr some_open ↦
                  inr (omega (arith, some_open, Moves-total (open_at method request) m))
              | inl none_before ↦
                  elim (under_cases method request q.context.method_id q.context.request_id
                    (total (λ f. if is_response f.header then 1 else 0) more)) [
                      | inl none_more ↦ inl (
                          omega (
                            arith,
                            none_before,
                            none_more,
                            total-append (replied method request) sent more,
                            IsAnswer-total method request
                                (λ f. if is_response f.header then 1 else 0) q.context more
                                did.answers,
                          ))
                      | inr this_open ↦ inr (
                          omega (
                            arith,
                            this_open,
                            Moves-le (open_at method request) m,
                            Moves-total (open_at method request) m,
                          ))
                    ]
            ];
            ids = Moves-All (λ (q : Flight T). HasIds q.context) m (λ h. h) v.ids;
            sound = All-append IsSound sent more v.sound (
                All-IsSound more (Moves-at (λ (q : Flight T). HasIds q.context) m v.ids)
                  did.answers);
          },
        )
