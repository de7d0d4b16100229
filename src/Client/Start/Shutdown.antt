-- ===== src/Client/Start/Shutdown.antt =====
-- `wait_for_shutdown` over the read loop and the reader of the control plane.
use procwire_rust.Base.{
  ◌≡◌, refl, sym, ap, ◌∙◌, ◌↔◌, ◌⊎◌, inl, inr, Bool, true, false, ◌||◌, Option, none, some, List,
  [], ◌∷◌, ◌++◌, All, map, concat, ℕ, subst,
}
use mathlib.Core.Bool.{or-false}
use procwire_rust.Error.{Result}
use procwire_rust.Protocol.Frame.{Frame}
use procwire_rust.Control.Json.{Json}
use procwire_rust.Control.Stdio.{Stdout}
use procwire_rust.Control.Stdio.Steady.{IsSteady}
use procwire_rust.Control.Stdin.Lines.{IsLine, end_line}
use procwire_rust.Control.Stdin.{
  Ending, ControlAction, pong, shutdown, ignore, Console, run_control_reader,
}
use procwire_rust.Control.Stdin.Replies.{asks_shutdown}
use procwire_rust.Control.Stdin.Meaning.{ReadAs, run_control_reader-ReadAs}
use procwire_rust.Client.ReadLoop.{dispatch_all}
use procwire_rust.Client.ReadLoop.Order.{dispatch_all-append}
use procwire_rust.Client.ReadLoop.Verdict.{Over, read_all-ended, Over-read_all}
use procwire_rust.Client.Start.{Client, serve, wait_for_shutdown}

-- One of the lines is a `$shutdown`.
abbrev pub Asked : List ControlAction → Type 0
Asked acts = (before after : List ControlAction) × (acts ≡ before ++ (shutdown ∷ after))

asks_shutdown-Asked : (acts : List ControlAction) → asks_shutdown acts ≡ true → Asked acts
asks_shutdown-Asked [] e = absurd cc
asks_shutdown-Asked (pong ∷ acts) e =
    let (before, after, same) = asks_shutdown-Asked acts e in
    (pong ∷ before, after, ap (λ l. pong ∷ l) same)
asks_shutdown-Asked (shutdown ∷ acts) e = ([], acts, refl)
asks_shutdown-Asked (ignore ∷ acts) e =
    let (before, after, same) = asks_shutdown-Asked acts e in
    (ignore ∷ before, after, ap (λ l. ignore ∷ l) same)

Asked-asks_shutdown :
    (before after : List ControlAction) → asks_shutdown (before ++ (shutdown ∷ after)) ≡ true
Asked-asks_shutdown [] after = refl
Asked-asks_shutdown (pong ∷ before) after = Asked-asks_shutdown before after
Asked-asks_shutdown (shutdown ∷ before) after = refl
Asked-asks_shutdown (ignore ∷ before) after = Asked-asks_shutdown before after

some-none : {v : Result (Unit {0})} → some v ≡ none → ⊥
some-none e = cc

module _ {H R : Type 0} (dispatch : R → Frame → R) (client : Client H) (s : R) where
  open client.connection use {frame_buffer, initial_frames, reads}

  -- The read loop has ended at the read that stops it, with all frames before it dispatched in
  -- order, or no read stops it and it still waits.
  abbrev pub LoopOutcome : Type 0
  LoopOutcome =
      ((o : Over frame_buffer reads) × (serve dispatch client s
          ≡ (some o.verdict, dispatch_all dispatch s (initial_frames ++ o.frames))))
      ⊎ (¬ Over frame_buffer reads × ((serve dispatch client s).0 ≡ none))

  serve-Over :
      (o : Over frame_buffer reads)
      → serve dispatch client s
        ≡ (some o.verdict, dispatch_all dispatch s (initial_frames ++ o.frames))
  unfolding serve
  serve-Over o =
      Over-read_all dispatch (dispatch_all dispatch s initial_frames) frame_buffer reads o
      ∙ ap (λ t. (some o.verdict, t)) (sym (dispatch_all-append dispatch s initial_frames o.frames))

  serve_ended :
      (v : Result (Unit {0})) → (serve dispatch client s).0 ≡ some v → Over frame_buffer reads
  unfolding serve
  serve_ended v e =
      read_all-ended dispatch (dispatch_all dispatch s initial_frames) frame_buffer reads v e

  serve-LoopOutcome :
      (r : Option (Result (Unit {0}))) → (serve dispatch client s).0 ≡ r → LoopOutcome
  serve-LoopOutcome none e = inr (λ o. some-none (ap (λ x. x.0) (sym (serve-Over o)) ∙ e), e)
  serve-LoopOutcome (some v) e = let o = serve_ended v e in inl (o, serve-Over o)

  -- The two ways out of `wait_for_shutdown`.
  wait_iff :
      (r : Option (Result (Unit {0}))) (acts : List ControlAction)
      → (serve dispatch client s).0 ≡ r
      → (wait_for_shutdown r (asks_shutdown acts) ≡ true) ↔ (Over frame_buffer reads ⊎ Asked acts)
  wait_iff none acts e = (λ asked. inr (asks_shutdown-Asked acts asked), out)
    where
      out : Over frame_buffer reads ⊎ Asked acts → asks_shutdown acts ≡ true
      out (inl o) = absurd (some-none (ap (λ x. x.0) (sym (serve-Over o)) ∙ e))
      out (inr (before, after, same)) = ap asks_shutdown same ∙ Asked-asks_shutdown before after
  wait_iff (some v) acts e = (λ h. inl (serve_ended v e), λ h. refl)

  -- What a client comes to whose control plane has given these actions.
  pub record Resolves (acts : List ControlAction) (cancelled : Bool) : Type 0 where
    pub loop : LoopOutcome
    pub resolves :
        (wait_for_shutdown (serve dispatch client s).0 cancelled ≡ true)
        ↔ (Over frame_buffer reads ⊎ Asked acts)

  -- Whatever bytes a started client reads and whatever lines arrive on its stdin, `wait_for_shutdown`
  -- resolves exactly if a read stops the read loop, by the close, an error or bytes that the frame
  -- buffer refuses, or one of the lines is JSON with `$shutdown` under "method". A read that stops the loop gives its
  -- result, and the frames of the reads before it, and no others, are dispatched in order behind the
  -- initial ones; without one the loop waits. The token is not cancelled before, and writes to stdout
  -- do not fail.
  pub wait_for_shutdown-Resolves :
      {O : Type 0} (J : Json) (out : Stdout O)
      → IsSteady out
      → (c : Console O) (ending : Ending) (lines : List (List ℕ)) (rest : List ℕ) → All IsLine lines
      → IsLine rest
      → c.stdin ≡ record { text = concat (map end_line lines) ++ rest; ending = ending }
      → c.cancelled ≡ false
      → (acts : List ControlAction) × ReadAs J lines ending rest acts
        × Resolves acts (run_control_reader J out c).1.cancelled
  wait_for_shutdown-Resolves J out steady c ending lines rest hl hr st fresh =
      let (acts, reads_as, o) =
        run_control_reader-ReadAs J out steady c ending lines rest hl hr st in
      let same : (run_control_reader J out c).1.cancelled ≡ asks_shutdown acts =
        o.cancels ∙ ap (λ b. asks_shutdown acts || b) fresh ∙ or-false (asks_shutdown acts) in
      (
        acts,
        reads_as,
        subst (Resolves acts) (sym same)
            (record { loop = serve-LoopOutcome _ refl; resolves = wait_iff _ acts refl }),
      )
