-- ===== src/Writer/Pipeline/Progress.antt =====
-- The steps of the writer task alone: each has less left to do, and a task that is not at rest has one.
use procwire_rust.Base.{
  ℕ, zero, suc, ◌+◌, ◌*◌, ◌≤◌, ◌<◌, ◌≡◌, refl, ap, ◌⊎◌, inl, inr, arith, length, ltb, ltb→lt,
  not_ltb→le, Bool-cases,
}
use procwire_rust.Error.{Result, ok, err}
use procwire_rust.Writer.Defs.{max_batch_size}
use procwire_rust.Writer.Channel.{Mpsc, Received, received, nothing_yet, disconnected}
use procwire_rust.Writer.Batch.{AsyncWrite, write_batch}
use procwire_rust.Writer.Pipeline.{
  Loop, receiving, collecting, writing, written, returned, System, LoopStep, recv_first, recv_none,
  try_recv_more, batch_full, try_recv_nothing, try_recv_disconnected, write_ok, write_err,
  count_off,
}

module _ {C S : Type 0} (mpsc : Mpsc C) (w : AsyncWrite S) (max_pending : ℕ) where
  abbrev pub Step : System C S → System C S → Type 0
  Step = LoopStep mpsc w max_pending

  -- Steps of the writer task, with no step of a task that sends between them.
  pub data LoopRun (s : System C S) : System C S → Type 0 where
    stay : LoopRun s s
    go_on : {t u : System C S} → LoopRun s t → LoopStep mpsc w max_pending t u → LoopRun s u

  abbrev pub steps : {s t : System C S} → LoopRun s t → ℕ
  steps stay = 0
  steps (go_on run st) = suc (steps run)

  -- The steps that are left at each place, with `q` frames in the channel.
  abbrev left_at : Loop → ℕ → ℕ
  left_at receiving q = 5 * q + 1
  left_at collecting q = 5 * q + 4
  left_at writing q = 5 * q + 3
  left_at written q = 5 * q + 2
  left_at (returned r) q = 0

  abbrev pub work : System C S → ℕ
  work s = left_at s.loop (length (mpsc.queue s.channel))

  work_at :
      (s : System C S) {l : Loop} → s.loop ≡ l → work s ≡ left_at l (length (mpsc.queue s.channel))
  work_at s e = ap (λ l. left_at l (length (mpsc.queue s.channel))) e

  LoopStep-work : {s t : System C S} → Step s t → work t < work s
  LoopStep-work {s = s} (recv_first {c} {f} now e) =
      omega (arith, work_at s now, ap (length {0}) (mpsc.recv_takes s.channel c f e))
  LoopStep-work {s = s} (recv_none now e) = omega (arith, work_at s now)
  LoopStep-work {s = s} (try_recv_more {c} {f} now room e) =
      omega (arith, work_at s now, ap (length {0}) (mpsc.recv_takes s.channel c f e))
  LoopStep-work {s = s} (batch_full now room) = omega (arith, work_at s now)
  LoopStep-work {s = s} (try_recv_nothing now e) = omega (arith, work_at s now)
  LoopStep-work {s = s} (try_recv_disconnected now e) = omega (arith, work_at s now)
  LoopStep-work {s = s} (write_ok now e) = omega (arith, work_at s now)
  LoopStep-work {s = s} (write_err now e) = omega (arith, work_at s now)
  LoopStep-work {s = s} (count_off now) = omega (arith, work_at s now)

  pub LoopRun-work : {s t : System C S} (run : LoopRun s t) → steps run + work t ≤ work s
  LoopRun-work stay = omega arith
  LoopRun-work (go_on run st) = omega (arith, LoopRun-work run, LoopStep-work st)

  -- No step of the task is possible.
  abbrev pub IsAtRest : System C S → Type 0
  IsAtRest t = (u : System C S) → ¬ LoopStep mpsc w max_pending t u

  receiving-IsAtRest :
      (t : System C S) → t.loop ≡ receiving → mpsc.try_recv t.channel ≡ nothing_yet → IsAtRest t
  receiving-IsAtRest t now e u (recv_first now' e') = cc
  receiving-IsAtRest t now e u (recv_none now' e') = cc
  receiving-IsAtRest t now e u (try_recv_more now' room e') = cc
  receiving-IsAtRest t now e u (batch_full now' room) = cc
  receiving-IsAtRest t now e u (try_recv_nothing now' e') = cc
  receiving-IsAtRest t now e u (try_recv_disconnected now' e') = cc
  receiving-IsAtRest t now e u (write_ok now' e') = cc
  receiving-IsAtRest t now e u (write_err now' e') = cc
  receiving-IsAtRest t now e u (count_off now') = cc

  returned-IsAtRest : (t : System C S) (r : Result (Unit {0})) → t.loop ≡ returned r → IsAtRest t
  returned-IsAtRest t r now u (recv_first now' e) = cc
  returned-IsAtRest t r now u (recv_none now' e) = cc
  returned-IsAtRest t r now u (try_recv_more now' room e) = cc
  returned-IsAtRest t r now u (batch_full now' room) = cc
  returned-IsAtRest t r now u (try_recv_nothing now' e) = cc
  returned-IsAtRest t r now u (try_recv_disconnected now' e) = cc
  returned-IsAtRest t r now u (write_ok now' e) = cc
  returned-IsAtRest t r now u (write_err now' e) = cc
  returned-IsAtRest t r now u (count_off now') = cc

  abbrev pub Moves : System C S → Type 0
  Moves t = (u : System C S) × Step t u

  receiving-Moves :
      (t : System C S)
      → t.loop ≡ receiving
      → (r : Received C) → mpsc.try_recv t.channel ≡ r
      → Moves t ⊎ IsAtRest t
  receiving-Moves t now (received f c) e = inl (_, recv_first now e)
  receiving-Moves t now nothing_yet e = inr (receiving-IsAtRest t now e)
  receiving-Moves t now disconnected e = inl (_, recv_none now e)

  pub collecting-Moves :
      (t : System C S)
      → t.loop ≡ collecting
      → (r : Received C) → mpsc.try_recv t.channel ≡ r
      → Moves t
  collecting-Moves t now (received f c) e =
      elim (Bool-cases (ltb (length t.batch) max_batch_size)) [
        | inl room ↦ (_, try_recv_more now (ltb→lt (length t.batch) max_batch_size room) e)
        | inr no_room ↦ (_, batch_full now (not_ltb→le (length t.batch) max_batch_size no_room))
      ]
  collecting-Moves t now nothing_yet e = (_, try_recv_nothing now e)
  collecting-Moves t now disconnected e = (_, try_recv_disconnected now e)

  pub writing-Moves :
      (t : System C S)
      → t.loop ≡ writing
      → (r : Result (Unit {0}) × S) → write_batch w t.batch t.sink ≡ r
      → Moves t
  writing-Moves t now (ok u, sink) e = (_, write_ok now e)
  writing-Moves t now (err x, sink) e = (_, write_err now e)

  -- The task has a step, or is at rest.
  loop-Moves : (t : System C S) (l : Loop) → t.loop ≡ l → Moves t ⊎ IsAtRest t
  loop-Moves t receiving now = receiving-Moves t now (mpsc.try_recv t.channel) refl
  loop-Moves t collecting now = inl (collecting-Moves t now (mpsc.try_recv t.channel) refl)
  loop-Moves t writing now = inl (writing-Moves t now (write_batch w t.batch t.sink) refl)
  loop-Moves t written now = inl (_, count_off now)
  loop-Moves t (returned r) now = inr (returned-IsAtRest t r now)

  abbrev pub Rests : System C S → Type 0
  Rests t = (u : System C S) × LoopRun t u × IsAtRest u

  before : {s t u : System C S} → Step s t → LoopRun t u → LoopRun s u
  before st stay = go_on stay st
  before st (go_on run st') = go_on (before st run) st'

  -- `n` bounds the steps that are left.
  goes_on : (n : ℕ) (t : System C S) → work t ≤ n → Rests t
  goes_on zero t h = elim (loop-Moves t t.loop refl) [
    | inl (u, st) ↦ absurd (omega (arith, LoopStep-work st))
    | inr rest ↦ (t, stay, rest)
  ]
  goes_on (suc n) t h = elim (loop-Moves t t.loop refl) [
    | inl (u, st) ↦
        let (v, run, rest) = goes_on n u (omega (arith, LoopStep-work st)) in
        (v, before st run, rest)
    | inr rest ↦ (t, stay, rest)
  ]

  pub comes_to_rest : (t : System C S) → Rests t
  comes_to_rest t = goes_on (work t) t (omega arith)

  pub LoopRun-both : {s t u : System C S} → LoopRun s t → LoopRun t u → LoopRun s u
  LoopRun-both run stay = run
  LoopRun-both run (go_on more st) = go_on (LoopRun-both run more) st
