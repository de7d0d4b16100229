-- ===== src/Transport/Windows.antt =====
-- src/transport/pipe.rs, `windows_impl`: a listener on a named pipe. `NamedPipes` is what is used of
-- tokio's `ServerOptions` and `NamedPipeServer`.
pub mod Gap
use procwire_rust.Base.{ℕ, suc, ◌-◌, ◌≡◌, Bool, true, false, List}
use procwire_rust.Error.{Result, ok, err, ProcwireError}

-- `S` is the pipes of the system, `V` one instance of a pipe on the server's side.
pub record NamedPipes (S V : Type 0) : Type 0 where
  -- the instances of a pipe that a client can find
  pub instances : List ℕ → S → ℕ
  -- `ServerOptions::new().first_pipe_instance(first).create(path)`
  pub create : Bool → List ℕ → S → Result V × S
  -- `server.connect().await`
  pub connect : V → S → Result (Unit {0}) × S
  -- the drop of an instance
  pub close : List ℕ → V → S → S
  pub create_first :
      (path : List ℕ) (s s' : S) (v : V)
      → create true path s ≡ (ok v, s')
      → (instances path s ≡ 0) × (instances path s' ≡ 1)
  pub create_more :
      (path : List ℕ) (s s' : S) (v : V)
      → create false path s ≡ (ok v, s')
      → instances path s' ≡ suc (instances path s)
  pub create_err :
      (first : Bool) (path : List ℕ) (s s' : S) (e : ProcwireError)
      → create first path s ≡ (err e, s')
      → instances path s' ≡ instances path s
  pub connect_keeps :
      (path : List ℕ) (v : V) (s : S) → instances path (connect v s).1 ≡ instances path s
  pub close_one :
      (path : List ℕ) (v : V) (s : S) → instances path (close path v s) ≡ instances path s - 1

pub record PipeListener : Type 0 where
  pub path : List ℕ

pub record PipeStream (V : Type 0) : Type 0 where
  pub pipe : V

pub record PipeCleanup : Type 0 where
  pub path : List ℕ

abbrev pub cleanup_guard : PipeListener → PipeCleanup
cleanup_guard l = record { path = l.path }

module _ {S V : Type 0} (pipes : NamedPipes S V) where
  -- `let _ =` drops the instance at once.
  abbrev pub checked : List ℕ → Result V × S → Result PipeListener × S
  checked path (err e, s) = (err e, s)
  checked path (ok v, s) = (ok (record { path = path }), pipes.close path v s)

  unfoldable pub bind : List ℕ → S → Result PipeListener × S
  bind path s = checked path (pipes.create true path s)

  abbrev pub connected : List ℕ → V → Result (Unit {0}) × S → Result (PipeStream V) × S
  connected path v (err e, s) = (err e, pipes.close path v s)
  connected path v (ok _, s) = (ok (record { pipe = v }), s)

  abbrev pub created : List ℕ → Result V × S → Result (PipeStream V) × S
  created path (err e, s) = (err e, s)
  created path (ok v, s) = connected path v (pipes.connect v s)

  unfoldable pub accept : PipeListener → S → Result (PipeStream V) × S
  accept l s = created l.path (pipes.create false l.path s)
