-- ===== src/Client/Dispatch/Permits.antt =====
-- How many handler tasks run at a time.
use procwire_rust.Base.{ℕ, ◌+◌, ◌≤◌, ◌≡◌, refl, ap, ◌∙◌, inl, inr, List, [], ◌∷◌, arith, length}
use procwire_rust.Handler.Registry.{HandlerRegistry}
use procwire_rust.Client.Dispatch.{Runtime, start, Event, arrives, completes, frees, step, run}
use procwire_rust.Client.Dispatch.Tracking.{
  permits_and_tasks, complete-permits, drop_permit-permits, spawn-permits, dispatch_frame-cases,
}

module _ {H : Type 0} (registry : HandlerRegistry H) where
  step-permits :
      (rt : Runtime) (e : Event)
      → permits_and_tasks registry (step registry rt e) ≡ permits_and_tasks registry rt
  unfolding step
  step-permits rt (completes n) = complete-permits registry rt n
  step-permits rt frees = drop_permit-permits registry rt
  step-permits rt (arrives frame) = elim (dispatch_frame-cases registry rt frame) [
    | inl (spawned, pos, no_abort) ↦
        ap (permits_and_tasks registry) spawned ∙ spawn-permits registry rt frame pos
    | inr (permits, ending, running, contexts) ↦ omega (arith, ap length running)
  ]

  run-permits_and_tasks :
      (rt : Runtime) (es : List Event)
      → permits_and_tasks registry (run registry rt es) ≡ permits_and_tasks registry rt
  unfolding run
  run-permits_and_tasks rt [] = refl
  run-permits_and_tasks rt (e ∷ es) =
      run-permits_and_tasks (step registry rt e) es ∙ step-permits rt e

  -- Whatever frames arrive and in whatever order tasks end and drop their permits, the free permits, the
  -- running tasks and those that still hold a permit are together as many as the limit, so never more
  -- tasks run than the limit allows.
  pub run-permits :
      (limit : ℕ) (es : List Event)
      → ((run registry (start limit) es).permits
            + length (run registry (start limit) es).running
            + (run registry (start limit) es).ending
          ≡ limit)
        × (length (run registry (start limit) es).running ≤ limit)
  run-permits limit es = omega (arith, run-permits_and_tasks (start limit) es)
