-- ===== src/Backpressure/Slots.antt =====
-- What the operations of a controller do to the count of slots.
use procwire_rust.Base.{
  ℕ, suc, ◌≤◌, ◌<◌, ◌≡◌, refl, ◌⊎◌, inl, inr, Option, none, some, List, [], ◌∷◌, arith, ltb,
  Bool-cases, false, ltb→lt,
}
use procwire_rust.Error.{Result, ok, err, backpressure_timeout}
use procwire_rust.Backpressure.{
  Controller, Round, usize_mod, fetch_add, reserve, wait_and_reserve, release, release_many,
  drop_guard, release_guard, guard, disarm,
}

pub release_many-release :
    (c : Controller) (n : ℕ)
    → c.pending < usize_mod
    → n < c.pending
    → release_many c (suc n) ≡ release_many (release c) n
unfolding release_many release
release_many-release c n h k = ground arith

-- Some round of the wait comes after the timeout.
abbrev pub Expires : ℕ → List Round → Type 0
Expires timeout [] = ⊥
Expires timeout (r ∷ rounds) = (timeout < r.elapsed) ⊎ Expires timeout rounds

-- Some round of the wait has this load and this counter at its add.
abbrev pub Loads : ℕ → ℕ → List Round → Type 0
Loads seen met [] = ⊥
Loads seen met (r ∷ rounds) = ((seen ≡ r.seen) × (met ≡ r.met)) ⊎ Loads seen met rounds

-- Some round after the timeout has seen this counter.
abbrev pub Late : ℕ → ℕ → List Round → Type 0
Late timeout seen [] = ⊥
Late timeout seen (r ∷ rounds) =
    ((timeout < r.elapsed) × (seen ≡ r.seen)) ⊎ Late timeout seen rounds

-- A finished wait: a load has seen a free slot, and one is added to what the other tasks have made of
-- the counter by then; or a round after the timeout has seen none.
abbrev pub Waited : Controller → List Round → Option (Result (Unit {0}) × Controller) → Type 0
Waited c rounds none = ⊥
Waited c rounds (some (ok u, c')) =
    (seen : ℕ) × (met : ℕ) × Loads seen met rounds
    × (seen < c.max_pending)
    × (c' ≡ record c { pending = fetch_add met 1 })
Waited c rounds (some (err e, c')) =
    (seen : ℕ) × Late c.timeout seen rounds
    × (c.max_pending ≤ seen)
    × (e ≡ backpressure_timeout)
    × (c' ≡ record c { pending = seen })

wait_and_reserve-Waited :
    (c : Controller) (rounds : List Round)
    → Expires c.timeout rounds
    → Waited c rounds (wait_and_reserve c rounds)
unfolding wait_and_reserve
wait_and_reserve-Waited c [] x = x
wait_and_reserve-Waited c (r ∷ rounds) x = elim (Bool-cases (ltb r.seen c.max_pending)) [
  | inl free ↦ rw free (r.seen, r.met, inl (refl, refl), ltb→lt _ _ free, refl)
  | inr full ↦ elim (Bool-cases (ltb c.timeout r.elapsed)) [
    | inl late ↦ rw (full, late) (r.seen, inl (ltb→lt _ _ late, refl), not_below full, refl, refl)
    | inr early ↦
        rw (full, early)
          (later (wait_and_reserve c rounds) (wait_and_reserve-Waited c rounds (still early x)))
  ]
]
  where
    not_below : ltb r.seen c.max_pending ≡ false → c.max_pending ≤ r.seen
    not_below full = ground arith

    still :
        ltb c.timeout r.elapsed ≡ false
        → (c.timeout < r.elapsed) ⊎ Expires c.timeout rounds
        → Expires c.timeout rounds
    still early (inl late) = absurd (ground arith)
    still early (inr x) = x

    later :
        (o : Option (Result (Unit {0}) × Controller)) → Waited c rounds o → Waited c (r ∷ rounds) o
    later none w = w
    later (some (ok u, c')) (seen, met, looks, free, same) = (seen, met, inr looks, free, same)
    later (some (err e, c')) (seen, late, at_max, why, same) = (seen, inr late, at_max, why, same)

abbrev pub Ends : Controller → ℕ → List Round → Option (Result (Unit {0}) × Controller) → Type 0
Ends c met rounds o =
    ((c.pending < c.max_pending) × (o ≡ some (ok tt, record c { pending = fetch_add met 1 })))
    ⊎ ((c.max_pending ≤ c.pending) × Waited c rounds o)

-- `reserve` ends once its time is up at the latest. It ends with one more slot counted, on top of what
-- the other tasks have made of the counter, after a load that has seen it below the limit, its first or
-- one of the wait; or with `BackpressureTimeout`, after a first load at the limit and one after the
-- timeout that has seen it there too, and with nothing added.
pub reserve-Ends :
    (c : Controller) (met : ℕ) (rounds : List Round)
    → Expires c.timeout rounds
    → Ends c met rounds (reserve c met rounds)
unfolding reserve
reserve-Ends c met rounds x = elim (Bool-cases (ltb c.pending c.max_pending)) [
  | inl free ↦ rw free (inl (ltb→lt _ _ free, refl))
  | inr full ↦ rw full (inr (at_limit full, wait_and_reserve-Waited c rounds x))
]
  where
    at_limit : ltb c.pending c.max_pending ≡ false → c.max_pending ≤ c.pending
    at_limit full = ground arith

-- However a guard ends, its slot is released once, and not at all after `disarm`.
pub guard_once :
    (c : Controller)
    → (release_guard guard c ≡ release c)
      × (drop_guard guard c ≡ release c)
      × (drop_guard (disarm guard) c ≡ c)
unfolding release_guard drop_guard
guard_once c = (refl, refl, refl)
