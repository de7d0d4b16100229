-- ===== src/Client/Dispatch/Request.antt =====
-- src/client.rs, the handler task that `dispatch_frame` spawns, from its payload to its answer.
use procwire_rust.Base.{
  ℕ, ◌≡◌, refl, sym, ap, ◌∙◌, subst, ◌⊎◌, inl, inr, true, false, Option, none, some, List, [], ◌∷◌,
  ◌++◌,
}
use procwire_rust.Error.{Result, ok, err, ProcwireError, handler_not_found, msgpack_decode}
use procwire_rust.Codec.{RmpSerde, decode}
use procwire_rust.Handler.Context.{FrameSender, RequestContext, Shared, error_with, run, fail_with}
use procwire_rust.Handler.Context.Frames.{failure_flags, answer, Answers, run-Answers}
use procwire_rust.Writer.Defs.{OutboundFrame}
use procwire_rust.Handler.Registry.{HandlerRegistry, get_handler_by_id, call_found, dispatch}
use procwire_rust.Handler.Typed.{HandlerResult, Handler, typed_handler}
use procwire_rust.Client.Dispatch.{after_handler}

true-false : true ≡ false → ⊥
true-false e = cc

ok-err : {A : Type 0} {x : A} {e : ProcwireError} → ok x ≡ err e → ⊥
ok-err e = cc

module _ {W T : Type 0} (sender : FrameSender W) (encode : T → Result (List ℕ))
    (text : ProcwireError → T) (registry : HandlerRegistry (Handler W)) (ctx : RequestContext)
    (payload : List ℕ) where
  -- The call of a handler that `dispatch` finds.
  abbrev pub call : Handler W → Shared W → HandlerResult W
  call handler s = handler payload ctx s

  -- The body of the task; the entry of its context and its permit are those of `complete`.
  unfoldable pub handle_request : Shared W → Shared W
  unfolding after_handler dispatch
  handle_request s = after_handler sender encode text ctx (dispatch call registry ctx.method_id s)

  -- The request is answered with an error, in the way of a context.
  abbrev pub Fails : ProcwireError → Shared W → Shared W → Type 0
  Fails e s s' =
      (s' ≡ (error_with sender ctx encode (text e) s).1)
      × Answers sender encode ctx (fail_with (text e)) s (error_with sender ctx encode (text e) s)

  -- A handler of values of the type `V`.
  abbrev pub Typed : Type 0 → Type 0
  Typed V = V → RequestContext → Shared W → HandlerResult W

  abbrev pub boxed : {V : Type 0} → RmpSerde V → Option (Typed V) → Option (Handler W)
  boxed rmp none = none
  boxed rmp (some handler) = some (typed_handler rmp handler)

  -- What becomes of a request, by the handler of its method and the value of its payload.
  abbrev pub Handled : {V : Type 0} → Option (Typed V) → V ⊎ ℕ → Shared W → Shared W → Type 0
  Handled none value s s' = Fails (handler_not_found ctx.method_id) s s'
  Handled (some handler) (inr n) s s' = Fails (msgpack_decode n) s s'
  Handled (some handler) (inl v) s s' = s' ≡ after_handler sender encode text ctx (handler v ctx s)

  module _ (has_writer : ctx.has_writer ≡ true) where
    after_handler-Fails :
        (e : ProcwireError) (s : Shared W)
        → s.responded ≡ false
        → Fails e s (after_handler sender encode text ctx (err e, s))
    unfolding after_handler run
    after_handler-Fails e s open_request =
        (rw open_request refl, run-Answers sender encode ctx (fail_with (text e)) s has_writer)

    -- What the task does with the handler that is found.
    pub handle_request-found :
        (s : Shared W) (found : Option (Handler W))
        → get_handler_by_id registry ctx.method_id ≡ found
        → handle_request s
          ≡ after_handler sender encode text ctx (call_found call ctx.method_id found s)
    unfolding handle_request
    handle_request-found s found e =
        ap (λ h. after_handler sender encode text ctx (call_found call ctx.method_id h s)) e

    module _ {V : Type 0} (rmp : RmpSerde V) (s : Shared W) where
      typed_handler-value :
          (handler : Typed V) (value : V ⊎ ℕ)
          → rmp.from_slice payload ≡ value
          → call (typed_handler rmp handler) s
            ≡ elim value [ inr n ↦ (err (msgpack_decode n), s) | inl v ↦ handler v ctx s ]
      unfolding typed_handler decode
      typed_handler-value handler (inl v) e = rw (e, typed_handler) refl
      typed_handler-value handler (inr n) e = rw (e, typed_handler) refl

      Handled-found :
          (found : Option (Typed V)) (value : V ⊎ ℕ)
          → rmp.from_slice payload ≡ value
          → s.responded ≡ false
          → Handled found value s (
              after_handler sender encode text ctx
                (call_found call ctx.method_id (boxed rmp found) s))
      Handled-found none value e open_request =
          after_handler-Fails (handler_not_found ctx.method_id) s open_request
      Handled-found (some handler) (inl v) e open_request =
          ap (after_handler sender encode text ctx) (typed_handler-value handler (inl v) e)
      Handled-found (some handler) (inr n) e open_request =
          rw (typed_handler-value handler (inr n) e)
            (after_handler-Fails (msgpack_decode n) s open_request)

      -- The error frame that a request gets, and the request is responded.
      abbrev pub IsRefused : List ℕ → Shared W → Type 0
      IsRefused bytes s' =
          (sender.accepted s'.writer
            ≡ sender.accepted s.writer ++ (answer ctx (failure_flags ctx.response_type) bytes ∷ []))
          × (s'.responded ≡ true)

      Answers-IsRefused :
          (v : T) (bytes : List ℕ) (r : Result (Unit {0}) × Shared W)
          → ((x : W) (f : OutboundFrame) → (sender.send x f).0 ≡ ok tt)
          → s.responded ≡ false
          → encode v ≡ ok bytes
          → Answers sender encode ctx (fail_with v) s r
          → IsRefused bytes r.1
      Answers-IsRefused v bytes (ok u, s') accepts early e ((payload, same, sent), first, kept) =
          let is_bytes : payload ≡ bytes = cc in
          (
            sent
                ∙ ap
                    (λ b.
                      sender.accepted s.writer
                      ++ (answer ctx (failure_flags ctx.response_type) b ∷ []))
                    is_bytes,
            (first refl).1,
          )
      Answers-IsRefused v bytes (err x, s') accepts early e (none_sent, marked, kept, cause) =
          absurd (elim cause [
            | inl (again, why) ↦ true-false (sym again ∙ early)
            | inr (first, inl unencoded) ↦ ok-err (sym e ∙ unencoded)
            | inr (first, inr (payload, same, refused)) ↦
                ok-err (sym (accepts s.writer _) ∙ refused)
          ])

      -- A request that no handler gets: its method is not registered, or its payload does not decode.
      abbrev pub NotHandled : Option (Typed V) → V ⊎ ℕ → ProcwireError → Type 0
      NotHandled none value e = e ≡ handler_not_found ctx.method_id
      NotHandled (some handler) (inr n) e = e ≡ msgpack_decode n
      NotHandled (some handler) (inl v) e = ⊥

      Fails-IsRefused :
          (e : ProcwireError) (bytes : List ℕ) (s' : Shared W)
          → ((x : W) (f : OutboundFrame) → (sender.send x f).0 ≡ ok tt)
          → s.responded ≡ false
          → encode (text e) ≡ ok bytes
          → Fails e s s'
          → IsRefused bytes s'
      Fails-IsRefused e bytes s' accepts early enc (same, answers) =
          subst (IsRefused bytes) (sym same)
            (Answers-IsRefused (text e) bytes _ accepts early enc answers)

      -- A request of a method that is not registered, or whose payload does not decode, gets one frame
      -- as its answer, an error with the flags of its response type and with the text of this error,
      -- which names the method or is the codec's, and is responded then. The context has a writer, which
      -- accepts; the request is not yet responded; the text encodes.
      pub handle_request-IsRefused :
          (found : Option (Typed V)) (e : ProcwireError) (bytes : List ℕ)
          → get_handler_by_id registry ctx.method_id ≡ boxed rmp found
          → NotHandled found (rmp.from_slice payload) e
          → s.responded ≡ false
          → ((x : W) (f : OutboundFrame) → (sender.send x f).0 ≡ ok tt)
          → encode (text e) ≡ ok bytes
          → IsRefused bytes (handle_request s)
      handle_request-IsRefused found e bytes at_id fails early accepts enc =
          rw (handle_request-found s (boxed rmp found) at_id) (
            go found (rmp.from_slice payload) _ fails
              (Handled-found found (rmp.from_slice payload) refl early))
        where
          go :
              (found : Option (Typed V)) (value : V ⊎ ℕ) (s' : Shared W)
              → NotHandled found value e
              → Handled found value s s'
              → IsRefused bytes s'
          go none value s' is_e h =
              Fails-IsRefused e bytes s' accepts early enc (subst (λ e. Fails e s s') (sym is_e) h)
          go (some handler) (inr n) s' is_e h =
              Fails-IsRefused e bytes s' accepts early enc (subst (λ e. Fails e s s') (sym is_e) h)
          go (some handler) (inl v) s' is_e h = absurd is_e
