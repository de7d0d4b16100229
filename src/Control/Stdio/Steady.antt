-- ===== src/Control/Stdio/Steady.antt =====
-- A line on a stdout that takes all writes.
use procwire_rust.Base.{ℕ, ◌≡◌, refl, ap, ◌∙◌, List, [], ◌∷◌, ◌++◌, append_assoc}
use procwire_rust.Error.{Result, ok}
use procwire_rust.Control.Stdio.{Stdout, and_then, write_stdout_line}

pub record IsSteady {S : Type 0} (out : Stdout S) : Type 0 where
  pub takes_all : (bs : List ℕ) (s : S) → (out.write_all bs s).0 ≡ ok tt
  pub flushes : (s : S) → (out.flush s).0 ≡ ok tt

module _ {S : Type 0} (out : Stdout S) (steady : IsSteady out) where
  write_all-takes :
      (bs : List ℕ) (s : S)
      → (s' : S) × (out.write_all bs s ≡ (ok tt, s')) × (out.written s' ≡ out.written s ++ bs)
  write_all-takes bs s = go (out.write_all bs s) refl (steady.takes_all bs s)
    where
      go :
          (r : Result (Unit {0}) × S)
          → out.write_all bs s ≡ r
          → r.0 ≡ ok tt
          → (s' : S) × (out.write_all bs s ≡ (ok tt, s')) × (out.written s' ≡ out.written s ++ bs)
      go (r, s') e h =
          let all : out.write_all bs s ≡ (ok tt, s') = e ∙ ap (λ t. (t, s')) h in
          (s', all, out.write_all_ok bs s s' all)

  -- The line and its newline are written.
  pub write_stdout_line_steady :
      (line : List ℕ) (s : S)
      → (s' : S) × (write_stdout_line out line s ≡ (ok tt, s'))
        × (out.written s' ≡ out.written s ++ (line ++ (b'\n' ∷ [])))
  unfolding write_stdout_line
  write_stdout_line_steady line s =
      let (s1, e1, w1) = write_all-takes line s in
      let (s2, e2, w2) = write_all-takes (b'\n' ∷ []) s1 in
      let flushed : out.flush s2 ≡ (ok tt, (out.flush s2).1) =
        ap (λ r. (r, (out.flush s2).1)) (steady.flushes s2) in
      (
        (out.flush s2).1,
        rw (e1, and_then) (rw (e2, and_then) flushed),
        out.written-flush s2
            ∙ w2
            ∙ ap (λ t. t ++ (b'\n' ∷ [])) w1
            ∙ append_assoc (out.written s) line (b'\n' ∷ []),
      )
