-- ===== src/Handler/Typed.antt =====
-- src/handler/registry.rs, `Handler` and `TypedHandler`: what calling a boxed handler does to the state
-- that its context shares. The future of a handler is its outcome.
use procwire_rust.Base.{ℕ, List}
use procwire_rust.Error.{Result, ok, err}
use procwire_rust.Codec.{RmpSerde, decode}
use procwire_rust.Handler.Context.{RequestContext, Shared}

-- `HandlerResult`, beside the state.
abbrev pub HandlerResult : Type 0 → Type 0
HandlerResult W = Result (Unit {0}) × Shared W

-- `Box<dyn Handler>`, by its `call`.
abbrev pub Handler : Type 0 → Type 0
Handler W = List ℕ → RequestContext → Shared W → HandlerResult W

-- `TypedHandler`
unfoldable pub typed_handler :
    {W T : Type 0} → RmpSerde T → (T → RequestContext → Shared W → HandlerResult W) → Handler W
unfolding decode
typed_handler rmp handler payload ctx s = elim (decode rmp payload) [
  | err e ↦ (err e, s)
  | ok parsed ↦ handler parsed ctx s
]
