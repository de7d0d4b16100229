-- ===== src/Transport/Unix.antt =====
-- src/transport/pipe.rs, `unix_impl`: a listener on a Unix socket and the file of the socket. `Os` is
-- what is used of `std::fs` and of tokio's `UnixListener`.
pub mod Lifetime
use procwire_rust.Base.{ℕ, ◌≡◌, ◌≢◌, Bool, true, false, List, if◌then◌else◌}
use procwire_rust.Error.{Result, ok, err, ProcwireError}

-- `S` is the file system with the sockets, `L` a listening socket, `C` a connected one.
pub record Os (S L C : Type 0) : Type 0 where
  pub exists : List ℕ → S → Bool
  pub remove_file : List ℕ → S → Result (Unit {0}) × S
  -- `UnixListener::bind`
  pub listen : List ℕ → S → Result L × S
  pub accept : L → S → Result C × S
  pub remove_ok :
      (path : List ℕ) (s s' : S) → remove_file path s ≡ (ok tt, s') → exists path s' ≡ false
  -- whether the two paths name one file, as `/tmp/x` and `/tmp//x` do
  pub is_alias : List ℕ → List ℕ → Bool
  pub remove_err :
      (path : List ℕ) (s s' : S) (e : ProcwireError)
      → remove_file path s ≡ (err e, s')
      → exists path s' ≡ exists path s
  pub remove_other :
      (path other : List ℕ) (s : S)
      → is_alias path other ≡ false
      → exists other (remove_file path s).1 ≡ exists other s
  pub listen_ok :
      (path : List ℕ) (s s' : S) (l : L) → listen path s ≡ (ok l, s') → exists path s' ≡ true
  pub listen_err :
      (path : List ℕ) (s s' : S) (e : ProcwireError)
      → listen path s ≡ (err e, s')
      → exists path s' ≡ exists path s
  pub listen_other :
      (path other : List ℕ) (s : S)
      → is_alias path other ≡ false
      → exists other (listen path s).1 ≡ exists other s
  pub accept_files : (l : L) (path : List ℕ) (s : S) → exists path (accept l s).1 ≡ exists path s

pub record PipeListener (L : Type 0) : Type 0 where
  pub listener : L
  pub path : List ℕ

pub record PipeStream (C : Type 0) : Type 0 where
  pub stream : C

pub record PipeCleanup : Type 0 where
  pub path : List ℕ

module _ {S L C : Type 0} (os : Os S L C) where
  abbrev pub bound : List ℕ → Result L × S → Result (PipeListener L) × S
  bound path (err e, s) = (err e, s)
  bound path (ok l, s) = (ok (record { listener = l; path = path }), s)

  -- What follows the removal, with `?`.
  abbrev pub bind_free : List ℕ → Result (Unit {0}) × S → Result (PipeListener L) × S
  bind_free path (err e, s) = (err e, s)
  bind_free path (ok _, s) = bound path (os.listen path s)

  unfoldable pub bind : List ℕ → S → Result (PipeListener L) × S
  bind path s = bind_free path (if os.exists path s then os.remove_file path s else (ok tt, s))

  abbrev pub connected : Result C × S → Result (PipeStream C) × S
  connected (err e, s) = (err e, s)
  connected (ok c, s) = (ok (record { stream = c }), s)

  unfoldable pub accept : PipeListener L → S → Result (PipeStream C) × S
  accept l s = connected (os.accept l.listener s)

  abbrev pub cleanup_guard : PipeListener L → PipeCleanup
  cleanup_guard l = record { path = l.path }

  -- The results of the removals are dropped.
  unfoldable pub drop_listener : PipeListener L → S → S
  drop_listener l s = (os.remove_file l.path s).1

  unfoldable pub drop_cleanup : PipeCleanup → S → S
  drop_cleanup guard s = (os.remove_file guard.path s).1

  -- `create_pipe_listener`
  abbrev pub create_pipe_listener : List ℕ → S → Result (PipeListener L) × S
  create_pipe_listener = bind
