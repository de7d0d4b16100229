-- ===== src/Backpressure/Tests.antt =====
-- src/backpressure.rs: the theorems at inputs that meet their hypotheses.
use procwire_rust.Base.{ℕ, ◌+◌, ◌<◌, ◌≡◌, inl, inr, List, [], ◌∷◌, arith}
use procwire_rust.Backpressure.{Controller, Round, reserve}
use procwire_rust.Backpressure.Slots.{Ends, reserve-Ends}
use procwire_rust.Backpressure.Threads.{Task, Reach, start, Reach-Inv, limit_passed}

abbrev half_full : Controller
half_full = record { pending = 1; max_pending = 2; timeout = 10 }

abbrev full : Controller
full = record { pending = 2; max_pending = 2; timeout = 10 }

-- The counter stays full until the time is up.
abbrev rounds : List Round
rounds = record { seen = 2; met = 2; elapsed = 5 } ∷ record { seen = 2; met = 2; elapsed = 11 } ∷ []

reserve-Ends_example : Ends full 2 rounds (reserve full 2 rounds)
reserve-Ends_example = reserve-Ends full 2 rounds (inr (inl (omega arith)))

limit_passed_example :
    Reach 1
      (start 3)
      (record { pending = 3; held = 3; tasks = Task.idle ∷ Task.idle ∷ Task.idle ∷ [] })
limit_passed_example = limit_passed 1 3 (omega arith) (omega arith)

Reach-Inv_example : ◌≡◌ {A = ℕ} 3 3 × (3 < 1 + 3)
Reach-Inv_example =
    Reach-Inv 1 3 (omega arith) (omega arith) (limit_passed 1 3 (omega arith) (omega arith))
