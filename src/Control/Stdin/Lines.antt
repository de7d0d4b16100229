-- ===== src/Control/Stdin/Lines.antt =====
-- `read_line` takes a text apart into its lines.
use procwire_rust.Base.{
  ℕ, ◌+◌, ◌≤◌, length, length-append, ◌≡◌, refl, ◌≢◌, none, some, List, [], ◌∷◌, ◌++◌, arith, All,
  map, concat,
}
use procwire_rust.Control.Stdin.{
  Ending, closed, broken, open_end, split_line, read_line, read_end, ReadLine, line_read,
  end_of_input, read_failed, still_waits,
}

-- A line has no newline but the one that ends it.
abbrev pub IsLine : List ℕ → Type 0
IsLine line = All (λ c. c ≢ b'\n') line

abbrev pub end_line : List ℕ → List ℕ
end_line line = line ++ (b'\n' ∷ [])

split_line-end_line :
    (line rest : List ℕ)
    → IsLine line
    → split_line (end_line line ++ rest) ≡ some (end_line line, rest)
unfolding split_line
split_line-end_line [] rest h = refl
split_line-end_line (c ∷ line) rest (hc, h) = ground (arith, hc, split_line-end_line line rest h)

split_line-none : (rest : List ℕ) → IsLine rest → split_line rest ≡ none
unfolding split_line
split_line-none [] h = refl
split_line-none (c ∷ rest) (hc, h) = ground (arith, hc, split_line-none rest h)

pub read_line-end_line :
    (line rest : List ℕ) (ending : Ending)
    → IsLine line
    → read_line (record { text = end_line line ++ rest; ending = ending })
      ≡ line_read (end_line line) (record { text = rest; ending = ending })
unfolding read_line
read_line-end_line line rest ending h = rw (split_line-end_line line rest h, read_line) refl

-- What the reader finds behind the last newline: a closed stdin still gives a line that is cut.
abbrev pub found_at_end : Ending → List ℕ → ReadLine
found_at_end closed [] = end_of_input
found_at_end closed (c ∷ s) = line_read (c ∷ s) (record { text = []; ending = closed })
found_at_end broken rest = read_failed
found_at_end open_end rest = still_waits

pub read_line-found_at_end :
    (rest : List ℕ) (ending : Ending)
    → IsLine rest
    → read_line (record { text = rest; ending = ending }) ≡ found_at_end ending rest
unfolding read_line read_end
read_line-found_at_end [] closed h = refl
read_line-found_at_end (c ∷ s) closed h = rw (split_line-none (c ∷ s) h, read_line) refl
read_line-found_at_end rest broken h = rw (split_line-none rest h, read_line) refl
read_line-found_at_end rest open_end h = rw (split_line-none rest h, read_line) refl

-- A text has no more whole lines and characters behind them than characters.
pub length-le-text :
    (lines : List (List ℕ)) (rest : List ℕ)
    → length lines + length rest ≤ length (concat (map end_line lines) ++ rest)
length-le-text [] rest = omega arith
length-le-text (line ∷ lines) rest = omega (
  arith,
  length-le-text lines rest,
  length-append {0} (end_line line ++ concat (map end_line lines)) rest,
  length-append {0} (end_line line) (concat (map end_line lines)),
  length-append {0} line (b'\n' ∷ []),
  length-append {0} (concat (map end_line lines)) rest,
)
