-- ===== src/Control/Stdin.antt =====
-- src/control/stdin.rs: the reader of the control plane, `$ping` and `$shutdown`.
pub mod Lines
pub mod Replies
pub mod Meaning
use procwire_rust.Base.{
  ℕ, zero, suc, ◌==◌, Bool, true, false, not, Option, none, some, List, [], ◌∷◌, if◌then◌else◌,
  length,
}
use procwire_rust.Base.Text.{codes, trim, starts_with, same_codes}
use procwire_rust.Error.{Result, ok, err}
use procwire_rust.Control.Json.{Json}
use procwire_rust.Control.Stdio.{Stdout, write_stdout_line}

abbrev pub pong_message : List ℕ
pong_message = codes "{\"jsonrpc\":\"2.0\",\"method\":\"$pong\"}"

pub data ControlAction : Type 0 where
  pong shutdown ignore : ControlAction

-- The `match` on the method.
unfoldable pub action_of : Option (List ℕ) → ControlAction
unfolding same_codes
action_of none = ignore
action_of (some method) =
    if same_codes method (codes "$ping")
    then pong
    else if same_codes method (codes "$shutdown")
    then shutdown
    else ignore

-- How stdin goes on behind its text: it is closed, its next read fails, as it does at a line that is
-- not UTF-8, or it stays open.
pub data Ending : Type 0 where
  closed broken open_end : Ending

pub record Stdin : Type 0 where
  pub text : List ℕ
  pub ending : Ending

-- The first line of a text with its newline, and the rest; `none` without a newline.
unfoldable pub split_line : List ℕ → Option (List ℕ × List ℕ)
split_line [] = none
split_line (c ∷ s) =
    if c == b'\n'
    then some (c ∷ [], s)
    else elim (split_line s) [ none ↦ none | some (line, rest) ↦ some (c ∷ line, rest) ]

pub data ReadLine : Type 0 where
  line_read : List ℕ → Stdin → ReadLine
  end_of_input read_failed still_waits : ReadLine

-- What is left behind the last newline; a line that is cut by the end of the input is still read.
unfoldable pub read_end : Stdin → Ending → ReadLine
read_end stdin closed = elim stdin.text [
  | [] ↦ end_of_input
  | c ∷ s ↦ line_read (c ∷ s) (record stdin { text = [] })
]
read_end stdin broken = read_failed
read_end stdin open_end = still_waits

-- `handle.read_line(&mut line)`
unfoldable pub read_line : Stdin → ReadLine
unfolding split_line read_end
read_line stdin = elim (split_line stdin.text) [
  | some (line, rest) ↦ line_read line (record stdin { text = rest })
  | none ↦ read_end stdin stdin.ending
]

pub record Console (S : Type 0) : Type 0 where
  pub stdin : Stdin
  pub stdout : S
  -- whether `shutdown_token` is cancelled
  pub cancelled : Bool

-- Whether the reader has returned, or waits in `read_line`.
pub data Progress : Type 0 where
  finished waiting out_of_fuel : Progress

module _ (J : Json) where
  -- `value.get("method").and_then(as_str)`
  unfoldable pub method_of : J.Value → Option (List ℕ)
  method_of value = elim (J.get value "method") [ none ↦ none | some v ↦ J.as_str v ]

  unfoldable pub parse_control_line : List ℕ → ControlAction
  unfolding action_of method_of trim starts_with
  parse_control_line line =
      let trimmed = trim line in
      if not (starts_with trimmed b'{')
      then ignore
      else elim (J.from_str trimmed) [ none ↦ ignore | some value ↦ action_of (method_of value) ]

  module _ {S : Type 0} (out : Stdout S) where
    -- The `match` on the action, and `break` or `again`.
    unfoldable pub act :
        ControlAction → Console S → (Console S → Progress × Console S) → Progress × Console S
    unfolding write_stdout_line
    act pong c again =
        let (r, stdout) = write_stdout_line out pong_message c.stdout in
        let c' : Console S = record c { stdout = stdout } in
        elim r [ err e ↦ (finished, c') | ok _ ↦ again c' ]
    act shutdown c again = (finished, record c { cancelled = true })
    act ignore c again = again c

    -- The loop; each round takes a line of one character at least from the input.
    unfoldable pub reader_rounds : ℕ → Console S → Progress × Console S
    unfolding read_line act parse_control_line
    reader_rounds zero c = (out_of_fuel, c)
    reader_rounds (suc fuel) c = elim (read_line c.stdin) [
      | end_of_input ↦ (finished, c)
      | read_failed ↦ (finished, c)
      | still_waits ↦ (waiting, c)
      | line_read line stdin ↦
          act (parse_control_line line) (record c { stdin = stdin }) (reader_rounds fuel)
    ]

    unfoldable pub run_control_reader : Console S → Progress × Console S
    unfolding reader_rounds
    run_control_reader c = reader_rounds (suc (length c.stdin.text)) c
