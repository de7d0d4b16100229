-- ===== src/Control/Stdin/Replies.antt =====
-- Every `$ping` is answered, up to the first `$shutdown`.
use procwire_rust.Base.{
  ℕ, zero, suc, ◌+◌, ◌<◌, ◌≡◌, refl, sym, ap, ◌∙◌, Bool, true, false, ◌||◌, List, [], ◌∷◌, ◌++◌,
  arith, All, map, concat, append_assoc, append-nil, length,
}
use procwire_rust.Control.Json.{Json}
use procwire_rust.Control.Stdio.{Stdout, write_stdout_line}
use procwire_rust.Control.Stdio.Steady.{IsSteady, write_stdout_line_steady}
use procwire_rust.Control.Stdin.{
  Stdin, Ending, closed, broken, open_end, ControlAction, pong, shutdown, ignore, pong_message,
  parse_control_line, Console, Progress, finished, waiting, act, reader_rounds, run_control_reader,
  read_line,
}
use procwire_rust.Control.Stdin.Lines.{
  IsLine, end_line, read_line-end_line, read_line-found_at_end, length-le-text,
}

-- The replies to the lines before the first `$shutdown`, and whether there is one.
abbrev pub replies : List ControlAction → List (List ℕ)
replies [] = []
replies (pong ∷ acts) = end_line pong_message ∷ replies acts
replies (shutdown ∷ acts) = []
replies (ignore ∷ acts) = replies acts

abbrev pub asks_shutdown : List ControlAction → Bool
asks_shutdown [] = false
asks_shutdown (pong ∷ acts) = asks_shutdown acts
asks_shutdown (shutdown ∷ acts) = true
asks_shutdown (ignore ∷ acts) = asks_shutdown acts

-- Where the reader stands once all that has arrived is handled.
abbrev pub stands : Ending → Bool → Progress
stands ending true = finished
stands closed false = finished
stands broken false = finished
stands open_end false = waiting

module _ (J : Json) where
  abbrev pub actions : List (List ℕ) → List ControlAction
  actions lines = map (λ line. parse_control_line J (end_line line)) lines

  -- A line that is cut by the end of a closed stdin.
  abbrev pub cut_action : Ending → List ℕ → List ControlAction
  cut_action closed (c ∷ s) = parse_control_line J (c ∷ s) ∷ []
  cut_action _ _ = []

  module _ {S : Type 0} (out : Stdout S) (steady : IsSteady out) where
    pub record Obeys (acts : List ControlAction) (c : Console S) (r : Progress × Console S)
        : Type 0 where
      pub replied : out.written r.1.stdout ≡ out.written c.stdout ++ concat (replies acts)
      pub cancels : r.1.cancelled ≡ (asks_shutdown acts || c.cancelled)
      pub progress : r.0 ≡ stands c.stdin.ending (asks_shutdown acts)

    -- An action, and the rounds `again` behind it.
    act-Obeys :
        (a : ControlAction) (acts : List ControlAction) (c : Console S)
        (again : Console S → Progress × Console S)
        → ((c1 : Console S)
            → c1.stdin ≡ c.stdin
            → c1.cancelled ≡ c.cancelled
            → Obeys acts c1 (again c1))
        → Obeys (a ∷ acts) c (act J out a c again)
    unfolding act
    act-Obeys pong acts c again ih =
        let (s, e, w) = write_stdout_line_steady out steady pong_message c.stdout in
        let c1 : Console S = record c {
          stdout = (write_stdout_line out pong_message c.stdout).1;
        } in
        let o = ih c1 refl refl in
        rw (ap (λ r. r.0) e, act)
          (record {
            replied =
                o.replied
                ∙ ap (λ t. t ++ concat (replies acts)) (ap (λ r. out.written r.1) e ∙ w)
                ∙ append_assoc (out.written c.stdout) (end_line pong_message)
                    (concat (replies acts));
            cancels = o.cancels;
            progress = o.progress;
          })
    act-Obeys shutdown acts c again ih = record {
      replied = sym (append-nil (out.written c.stdout));
      cancels = refl;
      progress = refl;
    }
    act-Obeys ignore acts c again ih =
        let o = ih c refl refl in
        record { replied = o.replied; cancels = o.cancels; progress = o.progress }

    -- The text that is left is no part of what `Obeys` says, the ending is.
    put_back :
        (acts : List ControlAction) (c : Console S) (stdin : Stdin) (r : Progress × Console S)
        → stdin.ending ≡ c.stdin.ending
        → Obeys acts (record c { stdin = stdin }) r
        → Obeys acts c r
    put_back acts c stdin r e o = record {
      replied = o.replied;
      cancels = o.cancels;
      progress = o.progress ∙ ap (λ ending. stands ending (asks_shutdown acts)) e;
    }

    nothing-Obeys :
        (c : Console S) (e : Ending) (p : Progress)
        → c.stdin.ending ≡ e
        → stands e false ≡ p
        → Obeys [] c (p, c)
    nothing-Obeys c e p same now = record {
      replied = sym (append-nil _);
      cancels = refl;
      progress = sym (rw same now);
    }

    rounds-Obeys :
        (fuel : ℕ) (ending : Ending) (lines : List (List ℕ)) (rest : List ℕ) (c : Console S)
        → All IsLine lines
        → IsLine rest
        → c.stdin ≡ record { text = concat (map end_line lines) ++ rest; ending = ending }
        → length lines + length rest < fuel
        → Obeys (actions lines ++ cut_action ending rest) c (reader_rounds J out fuel c)
    unfolding reader_rounds
    rounds-Obeys zero ending lines rest c hl hr st h = absurd (omega arith)
    rounds-Obeys (suc fuel) closed [] [] c hl hr st h =
        let found = ap read_line st ∙ read_line-found_at_end [] closed hr in
        rw (found, reader_rounds) (nothing-Obeys c closed finished (ap (λ i. i.ending) st) refl)
    rounds-Obeys (suc fuel) closed [] (a ∷ s) c hl hr st h =
        let found = ap read_line st ∙ read_line-found_at_end (a ∷ s) closed hr in
        let stdin' : Stdin = record { text = []; ending = closed } in
        rw (found, reader_rounds)
          (put_back (cut_action closed (a ∷ s)) c stdin' _ (sym (ap (λ i. i.ending) st)) (
            act-Obeys (parse_control_line J (a ∷ s)) [] (record c { stdin = stdin' })
              (reader_rounds J out fuel)
              λ c1 e1 e2. rounds-Obeys fuel closed [] [] c1 tt tt e1 (omega arith)))
    rounds-Obeys (suc fuel) broken [] rest c hl hr st h =
        let found = ap read_line st ∙ read_line-found_at_end rest broken hr in
        rw (found, reader_rounds) (nothing-Obeys c broken finished (ap (λ i. i.ending) st) refl)
    rounds-Obeys (suc fuel) open_end [] rest c hl hr st h =
        let found = ap read_line st ∙ read_line-found_at_end rest open_end hr in
        rw (found, reader_rounds) (nothing-Obeys c open_end waiting (ap (λ i. i.ending) st) refl)
    rounds-Obeys (suc fuel) ending (line ∷ lines) rest c (hl, hls) hr st h =
        let rest' = concat (map end_line lines) ++ rest in
        let stdin' : Stdin = record { text = rest'; ending = ending } in
        let same : (end_line line ++ concat (map end_line lines)) ++ rest ≡ end_line line ++ rest' =
          append_assoc (end_line line) (concat (map end_line lines)) rest in
        let found =
          ap read_line (st ∙ ap (λ t. record { text = t; ending = ending }) same)
          ∙ read_line-end_line line rest' ending hl in
        let acts = actions lines ++ cut_action ending rest in
        rw (found, reader_rounds)
          (put_back (parse_control_line J (end_line line) ∷ acts) c stdin' _
            (sym (ap (λ i. i.ending) st))
            (act-Obeys (parse_control_line J (end_line line)) acts (record c { stdin = stdin' })
              (reader_rounds J out fuel)
              λ c1 e1 e2. rounds-Obeys fuel ending lines rest c1 hls hr e1 (omega arith)))

    -- The reader over all lines that have arrived, by the actions that they parse to.
    pub run_control_reader-Obeys :
        (c : Console S) (ending : Ending) (lines : List (List ℕ)) (rest : List ℕ)
        → All IsLine lines
        → IsLine rest
        → c.stdin ≡ record { text = concat (map end_line lines) ++ rest; ending = ending }
        → Obeys (actions lines ++ cut_action ending rest) c (run_control_reader J out c)
    unfolding run_control_reader
    run_control_reader-Obeys c ending lines rest hl hr st =
        let enough : length lines + length rest < suc (length c.stdin.text) =
          omega (arith, length-le-text lines rest, ap (λ i. length i.text) st) in
        rounds-Obeys (suc (length c.stdin.text)) ending lines rest c hl hr st enough
