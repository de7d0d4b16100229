-- ===== src/Transport/Path.antt =====
-- src/transport/pipe.rs: the path of the pipe. A text is its code points; the environment, the clock
-- and the process id are arguments.
pub mod Distinct
use procwire_rust.Base.{
  ℕ, ◌+◌, ◌*◌, ◌%◌, ◌^◌, bit_xor, Option, none, some, List, [], ◌∷◌, ◌++◌, map, Bool, ◌==◌, ◌&&◌,
  if◌then◌else◌, is_nil,
}
use procwire_rust.Base.Text.{codes}
use procwire_rust.Base.Digits.{digits, digit_char}

-- The variables that are read; `none` is one that is not set, or not UTF-8.
pub record Env : Type 0 where
  pub xdg_runtime_dir : Option (List ℕ)
  pub tmpdir : Option (List ℕ)

-- `.filter(|s| !s.is_empty())`
abbrev pub filter_nonempty : Option (List ℕ) → Option (List ℕ)
filter_nonempty none = none
filter_nonempty (some s) = if is_nil s then none else some s

abbrev pub or_else : Option (List ℕ) → Option (List ℕ) → Option (List ℕ)
or_else (some s) o = some s
or_else none o = o

abbrev pub unwrap_or : Option (List ℕ) → List ℕ → List ℕ
unwrap_or (some s) d = s
unwrap_or none d = d

unfoldable pub trim_end_matches : ℕ → List ℕ → List ℕ
trim_end_matches c [] = []
trim_end_matches c (d ∷ s) =
    let rest = trim_end_matches c s in if d == c && is_nil rest then [] else d ∷ rest

abbrev pub tmp : List ℕ
tmp = codes "/tmp"

unfoldable pub unix_runtime_dir : Env → List ℕ
unfolding trim_end_matches
unix_runtime_dir env =
    let raw =
      unwrap_or (or_else (filter_nonempty env.xdg_runtime_dir) (filter_nonempty env.tmpdir)) tmp in
    let trimmed = trim_end_matches b'/' raw in if is_nil trimmed then tmp else trimmed

-- The process id, and the static counter of `rand_u64`.
pub record Process : Type 0 where
  pub pid : ℕ
  pub counter : ℕ

-- The time since 1970, or 0 for a clock that stands before.
abbrev pub nanos_of : Option ℕ → ℕ
nanos_of none = 0
nanos_of (some nanos) = nanos % 2 ^ 64

unfoldable pub rand_u64 : Option ℕ → Process → ℕ × Process
rand_u64 now p =
    let seq = p.counter in
    let nanos = nanos_of now in
    (
      bit_xor ((nanos * 0x517cc1b727220a95 % 2 ^ 64 + seq * 0x9E3779B97F4A7C15 % 2 ^ 64) % 2 ^ 64)
          p.pid,
      record p { counter = (seq + 1) % 2 ^ 64 },
    )

-- `{}` and `{:x}`
unfoldable pub decimal : ℕ → List ℕ
unfolding digits digit_char
decimal n = map digit_char (digits 10 n)

unfoldable pub lower_hex : ℕ → List ℕ
unfolding digits digit_char
lower_hex n = map digit_char (digits 16 n)

unfoldable pub generate_pipe_path : Env → Option ℕ → Process → List ℕ × Process
unfolding rand_u64 unix_runtime_dir decimal lower_hex
generate_pipe_path env now p =
    let (rand, p') = rand_u64 now p in
    (
      unix_runtime_dir env
          ++ (codes "/procwire-"
              ++ (decimal p.pid ++ (codes "-" ++ (lower_hex rand ++ codes ".sock")))),
      p',
    )

-- The branch for Windows.
unfoldable pub generate_pipe_path_windows : Option ℕ → Process → List ℕ × Process
unfolding rand_u64 decimal lower_hex
generate_pipe_path_windows now p =
    let (rand, p') = rand_u64 now p in
    (codes "\\\\.\\pipe\\procwire-" ++ (decimal p.pid ++ (codes "-" ++ lower_hex rand)), p')
