-- ===== src/Transport/Path/Distinct.antt =====
-- Paths of one process differ while its clock stands still.
use procwire_rust.Base.{
  ℕ, zero, suc, ◌+◌, ◌*◌, ◌%◌, ◌^◌, ◌<◌, bit_xor, ◌≡◌, refl, sym, ap, ◌≢◌, ◌∙◌, Option, ◌++◌, arith,
}
use procwire_rust.Base.Text.{codes}
use procwire_rust.Base.Xor.{bit_xor_inj}
use procwire_rust.Base.Digits.{map-digits_inj}
use procwire_rust.Transport.Path.{
  Env, Process, nanos_of, rand_u64, decimal, lower_hex, unix_runtime_dir, generate_pipe_path,
}
use mathlib.Core.List.{append_cancel_left, append_cancel_right}

-- The odd factor of the counter can be told apart modulo 2^64.
mixed_inj :
    (x s t : ℕ)
    → s < 2 ^ 64
    → t < 2 ^ 64
    → (x + s * 0x9E3779B97F4A7C15 % 2 ^ 64) % 2 ^ 64
      ≡ (x + t * 0x9E3779B97F4A7C15 % 2 ^ 64) % 2 ^ 64
    → s ≡ t
mixed_inj x s t hs ht e = omega arith

rand_u64_inj :
    (now : Option ℕ) (p q : Process)
    → p.pid ≡ q.pid
    → p.counter < 2 ^ 64
    → q.counter < 2 ^ 64
    → (rand_u64 now p).0 ≡ (rand_u64 now q).0
    → p.counter ≡ q.counter
unfolding rand_u64
rand_u64_inj now p q same hp hq e =
    let x = nanos_of now * 0x517cc1b727220a95 % 2 ^ 64 in
    let mixed = λ (seq : ℕ). (x + seq * 0x9E3779B97F4A7C15 % 2 ^ 64) % 2 ^ 64 in
    let told_apart =
      bit_xor_inj (mixed p.counter) (mixed q.counter) q.pid
        (ap (λ pid. bit_xor (mixed p.counter) pid) (sym same) ∙ e) in
    mixed_inj x p.counter q.counter hp hq told_apart

lower_hex_inj : (n m : ℕ) → lower_hex n ≡ lower_hex m → n ≡ m
unfolding lower_hex
lower_hex_inj n m e = map-digits_inj 16 n m (omega arith) (omega arith) e

generate_pipe_path_inj :
    (env : Env) (now : Option ℕ) (p q : Process)
    → p.pid ≡ q.pid
    → (generate_pipe_path env now p).0 ≡ (generate_pipe_path env now q).0
    → (rand_u64 now p).0 ≡ (rand_u64 now q).0
unfolding generate_pipe_path
generate_pipe_path_inj env now p q same e =
    let tail = λ (pid r : ℕ). decimal pid ++ (codes "-" ++ (lower_hex r ++ codes ".sock")) in
    let r = (rand_u64 now p).0 in
    let r' = (rand_u64 now q).0 in
    let behind_base =
      append_cancel_left (unix_runtime_dir env) (codes "/procwire-" ++ tail p.pid r)
        (codes "/procwire-" ++ tail q.pid r') e in
    let behind_name =
      append_cancel_left (codes "/procwire-") (tail p.pid r) (tail q.pid r') behind_base in
    let behind_pid =
      append_cancel_left (decimal p.pid) (codes "-" ++ (lower_hex r ++ codes ".sock"))
        (codes "-" ++ (lower_hex r' ++ codes ".sock"))
        (behind_name ∙ ap (λ pid. tail pid r') (sym same)) in
    let hex =
      append_cancel_left (codes "-") (lower_hex r ++ codes ".sock") (lower_hex r' ++ codes ".sock")
        behind_pid in
    lower_hex_inj r r' (append_cancel_right (lower_hex r) (lower_hex r') (codes ".sock") hex)

-- The process behind `i` calls.
abbrev pub behind : ℕ → Env → Option ℕ → Process → Process
behind zero env now p = p
behind (suc i) env now p = (generate_pipe_path env now (behind i env now p)).1

behind_counts :
    (i : ℕ) (env : Env) (now : Option ℕ) (p : Process)
    → p.counter < 2 ^ 64
    → ((behind i env now p).pid ≡ p.pid) × ((behind i env now p).counter ≡ (p.counter + i) % 2 ^ 64)
unfolding generate_pipe_path
behind_counts zero env now p h = (refl, omega arith)
behind_counts (suc i) env now p h =
    let (pid, counter) = behind_counts i env now p h in (pid, omega arith)

-- While the clock stands still, any two of the first 2^64 calls in a process give different paths,
-- whatever the counter was before.
pub generate_pipe_path-Distinct :
    (env : Env) (now : Option ℕ) (p : Process) (i j : ℕ)
    → p.counter < 2 ^ 64
    → i < j
    → j < 2 ^ 64
    → (generate_pipe_path env now (behind i env now p)).0
      ≢ (generate_pipe_path env now (behind j env now p)).0
generate_pipe_path-Distinct env now p i j h lt hj e =
    let pi = behind i env now p in
    let pj = behind j env now p in
    let (pid_i, counter_i) = behind_counts i env now p h in
    let (pid_j, counter_j) = behind_counts j env now p h in
    let same_pid : pi.pid ≡ pj.pid = pid_i ∙ sym pid_j in
    let same =
      rand_u64_inj now pi pj same_pid (omega arith) (omega arith)
        (generate_pipe_path_inj env now pi pj same_pid e) in
    omega arith
