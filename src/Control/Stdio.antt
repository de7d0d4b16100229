-- ===== src/Control/Stdio.antt =====
-- src/control/stdio.rs: lines on stdout. `Stdout` is what is used of `std::io::Stdout`, with the
-- bytes that it has taken.
pub mod Steady
use procwire_rust.Base.{ℕ, ◌≡◌, List, [], ◌∷◌, ◌++◌}
use procwire_rust.Error.{Result, ok, err, ProcwireError}

pub record Stdout (S : Type 0) : Type 0 where
  pub written : S → List ℕ
  pub write_all : List ℕ → S → Result (Unit {0}) × S
  pub flush : S → Result (Unit {0}) × S
  pub write_all_ok :
      (bs : List ℕ) (s s' : S) → write_all bs s ≡ (ok tt, s') → written s' ≡ written s ++ bs
  -- a failed write may have written some of the bytes
  pub write_all_err :
      (bs : List ℕ) (s s' : S) (e : ProcwireError)
      → write_all bs s ≡ (err e, s')
      → (part rest : List ℕ) × (part ++ rest ≡ bs) × (written s' ≡ written s ++ part)
  pub written-flush : (s : S) → written (flush s).1 ≡ written s

module _ {S : Type 0} (out : Stdout S) where
  -- `?` behind each of the three calls
  abbrev pub and_then : Result (Unit {0}) × S → (S → Result (Unit {0}) × S) → Result (Unit {0}) × S
  and_then (err e, s) next = (err e, s)
  and_then (ok _, s) next = next s

  unfoldable pub write_stdout_line : List ℕ → S → Result (Unit {0}) × S
  write_stdout_line line s =
      and_then (out.write_all line s)
        λ s1. and_then (out.write_all (b'\n' ∷ []) s1) λ s2. out.flush s2

  -- `to_json` is `serde_json::to_string`.
  unfoldable pub write_stdout_json :
      {A : Type 0} → (A → Result (List ℕ)) → A → S → Result (Unit {0}) × S
  unfolding write_stdout_line
  write_stdout_json to_json value s = elim (to_json value) [
    | err e ↦ (err e, s)
    | ok line ↦ write_stdout_line line s
  ]
