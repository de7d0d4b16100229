-- ===== src/Control/Stdin/Meaning.antt =====
-- What the lines of the parent ask for, told by the JSON that they hold.
use procwire_rust.Base.{
  ◌≡◌, refl, sym, ap, ◌∙◌, inl, inr, Bool, true, false, not, Option, none, some, List, [], ◌∷◌,
  ◌++◌, map, ℕ, All, concat, Bool-cases, some_inj, subst, if◌then◌else◌,
}
use procwire_rust.Base.Text.{codes, trim, starts_with, same_codes, same_codes_iff}
use procwire_rust.Control.Json.{Json}
use procwire_rust.Control.Stdin.{
  ControlAction, pong, shutdown, ignore, Ending, closed, broken, open_end, action_of, method_of,
  parse_control_line, Console, run_control_reader,
}
use procwire_rust.Control.Stdio.{Stdout}
use procwire_rust.Control.Stdio.Steady.{IsSteady}
use procwire_rust.Control.Stdin.Replies.{actions, cut_action, Obeys, run_control_reader-Obeys}
use procwire_rust.Control.Stdin.Lines.{IsLine, end_line}

true-false : true ≡ false → ⊥
true-false e = cc

none-some : {A : Type 0} {x : A} → none ≡ some x → ⊥
none-some e = cc

module _ (J : Json) where
  -- The line is, without the white space around it, JSON that starts with `{` and has this text under
  -- "method".
  abbrev pub Calls : List ℕ → List ℕ → Type 0
  Calls line method =
      (value : J.Value) × (text : J.Value) × (starts_with (trim line) b'{' ≡ true)
      × (J.from_str (trim line) ≡ some value)
      × (J.get value "method" ≡ some text)
      × (J.as_str text ≡ some method)

  abbrev pub Means : List ℕ → ControlAction → Type 0
  Means line pong = Calls line (codes "$ping")
  Means line shutdown = Calls line (codes "$shutdown")
  Means line ignore = ¬ Calls line (codes "$ping") × ¬ Calls line (codes "$shutdown")

  -- What the lines ask for one after the other, and the line that the end of a closed stdin cuts.
  abbrev pub ReadAs : List (List ℕ) → Ending → List ℕ → List ControlAction → Type 0
  ReadAs [] closed (c ∷ s) [] = ⊥
  ReadAs [] closed (c ∷ s) (a ∷ acts) = Means (c ∷ s) a × (acts ≡ [])
  ReadAs [] ending rest acts = acts ≡ []
  ReadAs (line ∷ lines) ending rest [] = ⊥
  ReadAs (line ∷ lines) ending rest (a ∷ acts) =
      Means (end_line line) a × ReadAs lines ending rest acts

  method_text :
      (value : J.Value) (m : List ℕ)
      → method_of J value ≡ some m
      → (text : J.Value) × (J.get value "method" ≡ some text) × (J.as_str text ≡ some m)
  unfolding method_of
  method_text value m e = go (J.get value "method") refl e
    where
      go :
          (o : Option J.Value)
          → J.get value "method" ≡ o
          → (elim o [ none ↦ none | some v ↦ J.as_str v ]) ≡ some m
          → (text : J.Value) × (J.get value "method" ≡ some text) × (J.as_str text ≡ some m)
      go none h e = absurd (cc)
      go (some text) h e = (text, h, e)

  Calls-method :
      (line m : List ℕ) (value : J.Value)
      → J.from_str (trim line) ≡ some value
      → Calls line m
      → method_of J value ≡ some m
  unfolding method_of
  Calls-method line m value parsed (v, text, opens, e, got, is_text) =
      let same : v ≡ value = some_inj (sym e ∙ parsed) in
      subst (λ v. method_of J v ≡ some m) same (rw (got, method_of) is_text)

  action_of-Means :
      (line : List ℕ) (value : J.Value)
      → starts_with (trim line) b'{' ≡ true
      → J.from_str (trim line) ≡ some value
      → (m : Option (List ℕ)) → method_of J value ≡ m
      → Means line (action_of m)
  unfolding action_of
  action_of-Means line value opens parsed none e = (
    λ c. none-some (sym e ∙ Calls-method line (codes "$ping") value parsed c),
    λ c. none-some (sym e ∙ Calls-method line (codes "$shutdown") value parsed c),
  )
  action_of-Means line value opens parsed (some m) e =
      elim (Bool-cases (same_codes m (codes "$ping"))) [
        | inl ping ↦ rw ping (calls (codes "$ping") ping)
        | inr no_ping ↦ elim (Bool-cases (same_codes m (codes "$shutdown"))) [
          | inl stop ↦ rw (no_ping, stop) (calls (codes "$shutdown") stop)
          | inr no_stop ↦
              rw (no_ping, no_stop)
                (other (codes "$ping") no_ping, other (codes "$shutdown") no_stop)
        ]
      ]
    where
      calls : (t : List ℕ) → same_codes m t ≡ true → Calls line t
      calls t same =
          let (text, got, is_text) = method_text value m e in
          (
            value,
            text,
            opens,
            parsed,
            got,
            is_text ∙ ap (λ t. some t) ((same_codes_iff m t).0 same),
          )

      other : (t : List ℕ) → same_codes m t ≡ false → ¬ Calls line t
      other t different c = true-false (
          sym ((same_codes_iff m t).1 (some_inj (sym e ∙ Calls-method line t value parsed c)))
          ∙ different)

  parse-Means : (line : List ℕ) → Means line (parse_control_line J line)
  unfolding parse_control_line
  parse-Means line = go (starts_with (trim line) b'{') refl (J.from_str (trim line)) refl
    where
      go :
          (b : Bool)
          → starts_with (trim line) b'{' ≡ b
          → (o : Option J.Value) → J.from_str (trim line) ≡ o
          → Means line (
              if not b
              then ignore
              else elim o [ none ↦ ignore | some value ↦ action_of (method_of J value) ])
      go false shut o parsed = (λ c. true-false (sym c.2 ∙ shut), λ c. true-false (sym c.2 ∙ shut))
      go true opens none parsed =
          (λ c. none-some (sym parsed ∙ c.3), λ c. none-some (sym parsed ∙ c.3))
      go true opens (some value) parsed =
          action_of-Means line value opens parsed (method_of J value) refl

  pub actions-ReadAs :
      (lines : List (List ℕ)) (ending : Ending) (rest : List ℕ)
      → ReadAs lines ending rest (actions J lines ++ cut_action J ending rest)
  actions-ReadAs [] closed [] = refl
  actions-ReadAs [] closed (c ∷ s) = (parse-Means (c ∷ s), refl)
  actions-ReadAs [] broken rest = refl
  actions-ReadAs [] open_end rest = refl
  actions-ReadAs (line ∷ lines) ending rest =
      (parse-Means (end_line line), actions-ReadAs lines ending rest)

  module _ {S : Type 0} (out : Stdout S) (steady : IsSteady out) where
    -- The lines that have arrived on stdin, and one that is cut where stdin is closed, each ask for a
    -- pong, for the shutdown or for nothing, by what their JSON has under "method": `$ping`,
    -- `$shutdown` or neither. Every `$ping` before the first `$shutdown` is answered by one `$pong`
    -- line, in order and with nothing else on stdout. The token is cancelled exactly if it was before
    -- or one of the lines is a `$shutdown`. Then, and when stdin is closed or fails, the reader has
    -- returned; otherwise it waits for the next line. Writes to stdout do not fail.
    pub run_control_reader-ReadAs :
        (c : Console S) (ending : Ending) (lines : List (List ℕ)) (rest : List ℕ)
        → All IsLine lines
        → IsLine rest
        → c.stdin ≡ record { text = concat (map end_line lines) ++ rest; ending = ending }
        → (acts : List ControlAction) × ReadAs lines ending rest acts
          × Obeys J out steady acts c (run_control_reader J out c)
    run_control_reader-ReadAs c ending lines rest hl hr st = (
      actions J lines ++ cut_action J ending rest,
      actions-ReadAs lines ending rest,
      run_control_reader-Obeys J out steady c ending lines rest hl hr st,
    )
