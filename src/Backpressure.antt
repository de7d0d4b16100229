-- ===== src/Backpressure.antt =====
-- src/backpressure.rs: the counter of pending frames. The counter is shared between the clones of a
-- controller, so it is the state here and the limit is an argument; times are in microseconds.
pub mod Slots
pub mod Threads
mod Tests
use procwire_rust.Base.{
  ℕ, zero, suc, ◌+◌, ◌-◌, ◌%◌, ◌^◌, Bool, false, true, Option, none, some, List, [], ◌∷◌, ltb, leb,
  if◌then◌else◌,
}
use procwire_rust.Error.{Result, ok, err, backpressure_timeout}

abbrev pub default_max_pending : ℕ
default_max_pending = 1024

abbrev pub default_timeout : ℕ
default_timeout = 5_000_000

-- `usize` of a 64-bit target; `fetch_add` and `fetch_sub` wrap.
abbrev pub usize_mod : ℕ
usize_mod = 2 ^ 64

abbrev pub fetch_add : ℕ → ℕ → ℕ
fetch_add pending n = (pending + n) % usize_mod

abbrev pub fetch_sub : ℕ → ℕ → ℕ
fetch_sub pending n = (pending + usize_mod - n % usize_mod) % usize_mod

pub record Controller : Type 0 where
  pub pending : ℕ
  pub max_pending : ℕ
  pub timeout : ℕ

abbrev pub with_timeout : ℕ → ℕ → Controller
with_timeout max_pending timeout = record {
  pending = 0;
  max_pending = max_pending;
  timeout = timeout;
}

abbrev pub new : ℕ → Controller
new max_pending = with_timeout max_pending default_timeout

abbrev pub from_shared : ℕ → ℕ → ℕ → Controller
from_shared pending max_pending timeout = record {
  pending = pending;
  max_pending = max_pending;
  timeout = timeout;
}

abbrev pub default_controller : Controller
default_controller = new default_max_pending

unfoldable pub can_accept : Controller → Bool
can_accept c = ltb c.pending c.max_pending

unfoldable pub is_active : Controller → Bool
is_active c = leb c.max_pending c.pending

abbrev pub pending_count : Controller → ℕ
pending_count c = c.pending

unfoldable pub available_capacity : Controller → ℕ
available_capacity c = c.max_pending - c.pending

unfoldable pub try_reserve : Controller → Result (Unit {0}) × Controller
try_reserve c =
    if leb c.max_pending c.pending
    then (err backpressure_timeout, c)
    else (ok tt, record c { pending = fetch_add c.pending 1 })

-- One round of the wait: what its `load` sees of the counter, what the other tasks have made of it by
-- an add in this round, and the time that has passed.
pub record Round : Type 0 where
  pub seen : ℕ
  pub met : ℕ
  pub elapsed : ℕ

-- The loop of `wait_and_reserve`, over the rounds that the other tasks and the clock make of it;
-- `none` is a task that still waits when they end.
unfoldable pub wait_and_reserve : Controller → List Round → Option (Result (Unit {0}) × Controller)
wait_and_reserve c [] = none
wait_and_reserve c (r ∷ rounds) =
    let again = wait_and_reserve c rounds in
    if ltb r.seen c.max_pending
    then some (ok tt, record c { pending = fetch_add r.met 1 })
    else if ltb c.timeout r.elapsed
    then some (err backpressure_timeout, record c { pending = r.seen })
    else again

-- `met` is the counter at the add behind the first load.
unfoldable pub reserve : Controller → ℕ → List Round → Option (Result (Unit {0}) × Controller)
unfolding wait_and_reserve
reserve c met rounds =
    if ltb c.pending c.max_pending
    then some (ok tt, record c { pending = fetch_add met 1 })
    else wait_and_reserve c rounds

unfoldable pub release : Controller → Controller
release c = record c { pending = fetch_sub c.pending 1 }

unfoldable pub release_many : Controller → ℕ → Controller
release_many c count = record c { pending = fetch_sub c.pending count }

unfoldable pub reset : Controller → Controller
reset c = record c { pending = 0 }

-- `BackpressureGuard`; the controller that it shares is passed beside it.
pub record Guard : Type 0 where
  pub released : Bool

abbrev pub guard : Guard
guard = record { released = false }

abbrev pub disarm : Guard → Guard
disarm g = record { released = true }

-- `drop` releases the slot unless that has been done.
unfoldable pub drop_guard : Guard → Controller → Controller
unfolding release
drop_guard g c = if g.released then c else release c

-- `release` consumes the guard, so its `drop` runs at the end.
unfoldable pub release_guard : Guard → Controller → Controller
unfolding release drop_guard
release_guard g c =
    if g.released then drop_guard g c else drop_guard (record g { released = true }) (release c)
