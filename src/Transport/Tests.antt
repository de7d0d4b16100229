-- ===== src/Transport/Tests.antt =====
-- Paths, a file system that is a set of paths, and named pipes that are counted.
use procwire_rust.Base.{
  ℕ, suc, ◌+◌, ◌-◌, ◌≡◌, refl, sym, ap, ◌≢◌, ◌∙◌, Bool, true, false, none, some, List, [], ◌==◌,
  if◌then◌else◌, arith, Bool-cases, inl, inr,
}
use procwire_rust.Base.Text.{codes, same_codes, same_codes_iff}
use procwire_rust.Base.Text.{same_codes, same_codes_iff}
use procwire_rust.Error.{Result, ok, err, ProcwireError, io, os_error}
use procwire_rust.Transport.Path.{
  Env, Process, unix_runtime_dir, rand_u64, generate_pipe_path, generate_pipe_path_windows,
}
use procwire_rust.Transport.Path.Distinct.{behind, generate_pipe_path-Distinct}
use procwire_rust.Transport.Unix
use procwire_rust.Transport.Unix.{Os, PipeListener, bind}
use procwire_rust.Transport.Unix.Lifetime.{Lifetime, Spares, bind-Lifetime}
use procwire_rust.Transport.Windows
use procwire_rust.Transport.Windows.{NamedPipes}
use procwire_rust.Transport.Windows.Gap.{bind-no_instance, held}

abbrev pub env : Env
env = record { xdg_runtime_dir = some []; tmpdir = some (codes "/var/tmp//") }

abbrev pub process : Process
process = record { pid = 42; counter = 0 }

slashes_trimmed : unix_runtime_dir env ≡ codes "/var/tmp"
unfolding unix_runtime_dir
slashes_trimmed = refl

root_falls_back :
    unix_runtime_dir (record { xdg_runtime_dir = some (codes "///"); tmpdir = none }) ≡ codes "/tmp"
unfolding unix_runtime_dir
root_falls_back = refl

first_path : (generate_pipe_path env none process).0 ≡ codes "/var/tmp/procwire-42-2a.sock"
unfolding generate_pipe_path
first_path = refl

windows_path : (generate_pipe_path_windows none process).0 ≡ codes "\\\\.\\pipe\\procwire-42-2a"
unfolding generate_pipe_path_windows
windows_path = refl

generate_pipe_path-Distinct_example :
    (generate_pipe_path env (some 7) (behind 1 env (some 7) process)).0
    ≢ (generate_pipe_path env (some 7) (behind 3 env (some 7) process)).0
generate_pipe_path-Distinct_example =
    generate_pipe_path-Distinct env (some 7) process 1 3 (omega arith) (omega arith) (omega arith)

-- Calls at two times can give one number: the times of the first and of the 144th call differ here by
-- about 30 days.
rand_u64_collides :
    (rand_u64 (some 1000000000) process).0
    ≡ (rand_u64 (some (1000000000 + 2565426695459569)) (record process { counter = 143 })).0
unfolding rand_u64
rand_u64_collides = refl

abbrev pub FileSystem : Type 0
FileSystem = List ℕ → Bool

unfoldable pub put : List ℕ → Bool → FileSystem → FileSystem
put path there s q = if same_codes path q then there else s q

put_self : (path : List ℕ) (there : Bool) (s : FileSystem) → put path there s path ≡ there
unfolding put
put_self path there s = rw ((same_codes_iff path path).1 refl) refl

put_other : (path q : List ℕ) (there : Bool) (s : FileSystem) → q ≢ path → put path there s q ≡ s q
unfolding put
put_other path q there s ne = elim (Bool-cases (same_codes path q)) [
  | inl e ↦ absurd (ne (sym ((same_codes_iff path q).0 e)))
  | inr e ↦ rw e refl
]

unfoldable pub remove_if : Bool → List ℕ → FileSystem → Result (Unit {0}) × FileSystem
unfolding put
remove_if true path s = (ok tt, put path false s)
remove_if false path s = (err (io (os_error 2)), s)

unfoldable pub listen_if : Bool → List ℕ → FileSystem → Result ℕ × FileSystem
unfolding put
listen_if true path s = (err (io (os_error 98)), s)
listen_if false path s = (ok 0, put path true s)

pub remove_ok :
    (there : Bool) (path : List ℕ) (s s' : FileSystem)
    → remove_if there path s ≡ (ok tt, s')
    → s' path ≡ false
unfolding remove_if
remove_ok true path s s' e =
    let state : put path false s ≡ s' = cc in ap (λ t. t path) (sym state) ∙ put_self path false s
remove_ok false path s s' e = absurd (cc)

pub remove_err :
    (there : Bool) (path : List ℕ) (s s' : FileSystem) (x : ProcwireError)
    → remove_if there path s ≡ (err x, s')
    → s' path ≡ s path
unfolding remove_if
remove_err true path s s' x e = absurd (cc)
remove_err false path s s' x e = let state : s ≡ s' = cc in ap (λ t. t path) (sym state)

pub remove_other :
    (there : Bool) (path other : List ℕ) (s : FileSystem)
    → other ≢ path
    → (remove_if there path s).1 other ≡ s other
unfolding remove_if
remove_other true path other s ne = put_other path other false s ne
remove_other false path other s ne = refl

pub listen_ok :
    (there : Bool) (path : List ℕ) (s s' : FileSystem) (l : ℕ)
    → listen_if there path s ≡ (ok l, s')
    → s' path ≡ true
unfolding listen_if
listen_ok true path s s' l e = absurd (cc)
listen_ok false path s s' l e =
    let state : put path true s ≡ s' = cc in ap (λ t. t path) (sym state) ∙ put_self path true s

pub listen_err :
    (there : Bool) (path : List ℕ) (s s' : FileSystem) (x : ProcwireError)
    → listen_if there path s ≡ (err x, s')
    → s' path ≡ s path
unfolding listen_if
listen_err true path s s' x e = let state : s ≡ s' = cc in ap (λ t. t path) (sym state)
listen_err false path s s' x e = absurd (cc)

pub listen_other :
    (there : Bool) (path other : List ℕ) (s : FileSystem)
    → other ≢ path
    → (listen_if there path s).1 other ≡ s other
unfolding listen_if
listen_other true path other s ne = refl
listen_other false path other s ne = put_other path other true s ne

-- In this file system every file has one path.
pub not_alias : (path other : List ℕ) → same_codes path other ≡ false → other ≢ path
not_alias path other e same = let is_same = (same_codes_iff path other).1 (sym same) in absurd (cc)

abbrev pub files : Os FileSystem ℕ ℕ
unfolding remove_if listen_if put
files = record {
  exists = λ path s. s path;
  remove_file = λ path s. remove_if (s path) path s;
  listen = λ path s. listen_if (s path) path s;
  accept = λ l s. (ok l, s);
  remove_ok = λ path s s' e. remove_ok (s path) path s s' e;
  is_alias = λ path other. same_codes path other;
  remove_err = λ path s s' x e. remove_err (s path) path s s' x e;
  remove_other = λ path other s ne. remove_other (s path) path other s (not_alias path other ne);
  listen_ok = λ path s s' l e. listen_ok (s path) path s s' l e;
  listen_err = λ path s s' x e. listen_err (s path) path s s' x e;
  listen_other = λ path other s ne. listen_other (s path) path other s (not_alias path other ne);
  accept_files = λ l path s. refl;
}

-- On an empty file system every path can be bound.
pub bind-files :
    (path : List ℕ)
    → bind files path (λ q. false)
      ≡ (ok (record { listener = 0; path = path }), put path true (λ q. false))
unfolding bind files
bind-files path = refl

abbrev socket : List ℕ
socket = codes "/tmp/a.sock"

-- A socket file that an older process has left.
abbrev stale : FileSystem
stale q = same_codes socket q

stale_replaced : (Unix.bind files socket stale).0 ≡ ok (record { listener = 0; path = socket })
unfolding bind files remove_if listen_if put same_codes
stale_replaced = refl

bind-Lifetime_example :
    Lifetime files socket stale (bind files socket stale)
    × Spares files socket stale (bind files socket stale).1
bind-Lifetime_example = bind-Lifetime files socket stale

-- A system with one pipe, of which the instances are counted.
first_if : Bool → ℕ → Result ℕ × ℕ
first_if true n = (ok n, suc n)
first_if false n = (err (io (os_error 5)), n)

create_pipe : Bool → ℕ → Result ℕ × ℕ
unfolding first_if
create_pipe true n = first_if (n == 0) n
create_pipe false n = (ok n, suc n)

create_first : (n n' v : ℕ) → create_pipe true n ≡ (ok v, n') → (n ≡ 0) × (n' ≡ 1)
unfolding create_pipe
create_first n n' v e = ground arith

create_err :
    (first : Bool) (n n' : ℕ) (x : ProcwireError) → create_pipe first n ≡ (err x, n') → n' ≡ n
unfolding create_pipe
create_err true n n' x e = ground arith
create_err false n n' x e = absurd (cc)

create_more : (n n' v : ℕ) → create_pipe false n ≡ (ok v, n') → n' ≡ suc n
unfolding create_pipe
create_more n n' v e = cc

abbrev counted_pipes : NamedPipes ℕ ℕ
unfolding create_pipe
counted_pipes = record {
  instances = λ path n. n;
  create = λ first path n. create_pipe first n;
  connect = λ v n. (ok tt, n);
  close = λ path v n. n - 1;
  create_first = λ path s s' v e. create_first s s' v e;
  create_more = λ path s s' v e. create_more s s' v e;
  create_err = λ first path s s' x e. create_err first s s' x e;
  connect_keeps = λ path v s. refl;
  close_one = λ path v s. refl;
}

first_bind : Windows.bind counted_pipes socket 0 ≡ (ok (record { path = socket }), 0)
unfolding Windows.bind create_pipe first_if
first_bind = refl

bind-no_instance_example :
    (counted_pipes.instances socket 0 ≡ 0)
    × ((t : ℕ)
        → counted_pipes.instances socket
            (Windows.accept counted_pipes (record { path = socket }) t).1
          ≡ counted_pipes.instances socket t
            + held counted_pipes (Windows.accept counted_pipes (record { path = socket }) t).0)
bind-no_instance_example =
    bind-no_instance counted_pipes socket 0 0 (record { path = socket }) (first_bind)
