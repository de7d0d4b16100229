-- ===== src/Client/Dispatch/Scripts/Tests.antt =====
-- A handler whose task leaves its request without an answer.
use procwire_rust.Base.{ℕ, zero, suc, ◌+◌, ◌≡◌, refl, List, [], ◌∷◌}
use procwire_rust.Base.Assoc.{lookup, insert}
use procwire_rust.Error.{Result, ok, err, ProcwireError, msgpack_decode}
use procwire_rust.Writer.Defs.{OutboundFrame}
use procwire_rust.Control.Init.{stream}
use procwire_rust.Handler.Context.{
  RequestContext, fresh, with_writer_and_token, Operation, chunk_with, respond_with,
}
use procwire_rust.Handler.Context.Once.{terminal_sent}
use procwire_rust.Handler.Registry.{HandlerRegistry, get_handler_by_id, register}
use procwire_rust.Handler.Registry.Ids.{method, register_all}
use procwire_rust.Handler.Tests.{log}
use procwire_rust.Handler.Typed.{Handler}
use procwire_rust.Client.Dispatch.Request.{handle_request}
use procwire_rust.Client.Dispatch.Scripts.{run_script, terminal_answers}
use procwire_rust.Client.Dispatch.Scripts.Answers.{handle_request-terminal_answers}

abbrev stream_ctx : RequestContext
stream_ctx = with_writer_and_token 1 7 stream

-- A codec that refuses the value 0, and the text of every error as the value 1.
not_zero : ℕ → Result (List ℕ)
not_zero zero = err (msgpack_decode 0)
not_zero (suc n) = ok (suc n ∷ [])

abbrev text : ProcwireError → ℕ
text e = 1

-- A handler that streams a value and then responds with one that does not encode.
abbrev cut_short : List (Operation ℕ)
cut_short = chunk_with 5 ∷ respond_with 0 ∷ []

abbrev scripts : HandlerRegistry (Handler (List OutboundFrame))
scripts = register_all (method "stream" stream (λ payload. run_script log not_zero cut_short) ∷ [])

stays_silent : terminal_answers not_zero cut_short ≡ 0
unfolding not_zero
stays_silent = refl

handle_request-terminal_answers_example :
    terminal_sent log (handle_request log not_zero text scripts stream_ctx [] (fresh []))
    ≡ 0 + terminal_answers not_zero cut_short
unfolding get_handler_by_id lookup register insert not_zero
handle_request-terminal_answers_example =
    handle_request-terminal_answers log not_zero text scripts stream_ctx [] cut_short (fresh [])
      (λ e. 1 ∷ []) refl refl refl (λ x f. refl) (λ e. refl)
