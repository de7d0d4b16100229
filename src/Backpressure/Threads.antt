-- ===== src/Backpressure/Threads.antt =====
-- Tasks that share one counter. `try_reserve` and `reserve` load the counter and add to it in two
-- atomic operations; other tasks may run between the two. A task is where it stands between its
-- atomic operations, and a step is one of these by one task. `reset`, which stores 0 whatever is held,
-- is no step: no task calls it here.
use procwire_rust.Base.{
  ℕ, zero, suc, ◌+◌, ◌-◌, ◌≤◌, ◌<◌, ◌≡◌, refl, List, [], ◌∷◌, ◌++◌, arith, length, replicate,
  length-replicate, append_assoc, sym, subst,
}
use native.Mathlib.Nat.{zero-add}
use procwire_rust.Base.Tasks.{
  Moves, first, total, Moves-total, Moves-length, Moves-append, total-le, total-replicate,
}
use procwire_rust.Backpressure.{usize_mod, fetch_add, fetch_sub}

-- `idle` runs no operation of the controller; `checked` has loaded a value below the limit and will
-- add; `waiting` is in the loop of `wait_and_reserve`.
pub data Task : Type 0 where
  idle checked waiting : Task

pub record Shared : Type 0 where
  pub pending : ℕ
  -- the slots that have been reserved and not released
  pub held : ℕ
  pub tasks : List Task

pub data Step (max_pending : ℕ) (s : Shared) : Shared → Type 0 where
  -- `load` of `try_reserve`, or of the fast path of `reserve`, below the limit
  load_free :
      {us : List Task}
      → s.pending < max_pending
      → Moves idle checked s.tasks us
      → Step max_pending s (record s { tasks = us })
  -- the same `load` of `reserve` at the limit (`try_reserve` returns an error, and the task stays
  -- idle)
  load_full :
      {us : List Task}
      → max_pending ≤ s.pending
      → Moves idle waiting s.tasks us
      → Step max_pending s (record s { tasks = us })
  -- `load` of the loop below the limit
  load_again :
      {us : List Task}
      → s.pending < max_pending
      → Moves waiting checked s.tasks us
      → Step max_pending s (record s { tasks = us })
  -- the time of the loop is up
  time_up :
      {us : List Task}
      → max_pending ≤ s.pending
      → Moves waiting idle s.tasks us
      → Step max_pending s (record s { tasks = us })
  -- `fetch_add(1)`
  add :
      {us : List Task}
      → Moves checked idle s.tasks us
      → Step max_pending s
          (record { pending = fetch_add s.pending 1; held = suc s.held; tasks = us })
  -- `release_many` of slots that are held (`release` is that of one)
  give_back :
      (n : ℕ)
      → n ≤ s.held
      → Step max_pending s (record s { pending = fetch_sub s.pending n; held = s.held - n })

pub data Reach (max_pending : ℕ) (s : Shared) : Shared → Type 0 where
  here : Reach max_pending s s
  next : {t u : Shared} → Reach max_pending s t → Step max_pending t u → Reach max_pending s u

abbrev pub start : ℕ → Shared
start n = record { pending = 0; held = 0; tasks = replicate n idle }

-- A task that is about to add counts.
abbrev pub weight : Task → ℕ
weight checked = 1
weight t = 0

abbrev pub adding : List Task → ℕ
adding ts = total weight ts

-- The counter counts the held slots, and the limit can be passed only by tasks that loaded the
-- counter before the others had added.
pub record Inv (max_pending : ℕ) (n : ℕ) (s : Shared) : Type 0 where
  pub counts : s.pending ≡ s.held
  pub tasks_stay : length s.tasks ≡ n
  pub few_adding : adding s.tasks ≤ n
  pub overshoot : suc (s.pending + adding s.tasks) ≤ max_pending + n

weight-le : (t : Task) → weight t ≤ 1
weight-le idle = omega arith
weight-le checked = omega arith
weight-le waiting = omega arith

adding-le : (ts : List Task) → adding ts ≤ length ts
adding-le ts = total-le weight ts weight-le

Step-Inv :
    {max_pending n : ℕ} {s t : Shared}
    → max_pending + n < usize_mod
    → Step max_pending s t
    → Inv max_pending n s
    → Inv max_pending n t
Step-Inv fits (load_free {us} free m) v =
    omega (arith, Moves-total weight m, Moves-length m, adding-le us)
Step-Inv fits (load_full {us} full m) v =
    omega (arith, Moves-total weight m, Moves-length m, adding-le us)
Step-Inv fits (load_again {us} free m) v =
    omega (arith, Moves-total weight m, Moves-length m, adding-le us)
Step-Inv fits (time_up {us} full m) v =
    omega (arith, Moves-total weight m, Moves-length m, adding-le us)
Step-Inv fits (add {us} m) v = omega (arith, Moves-total weight m, Moves-length m, adding-le us)
Step-Inv fits (give_back k le) v = omega arith

start-Inv : (max_pending n : ℕ) → 0 < n → Inv max_pending n (start n)
start-Inv max_pending n h =
    omega (arith, length-replicate n idle, total-replicate weight n idle refl)

-- Whatever the interleaving of `n` tasks, the counter is the number of slots that are held and never
-- wraps, and it stays below the limit plus the number of tasks.
pub Reach-Inv :
    (max_pending n : ℕ) {s : Shared}
    → 0 < n
    → max_pending + n < usize_mod
    → Reach max_pending (start n) s
    → (s.pending ≡ s.held) × (s.pending < max_pending + n)
Reach-Inv max_pending n pos fits r = let v = reached r in omega arith
  where
    reached : {s : Shared} → Reach max_pending (start n) s → Inv max_pending n s
    reached here = start-Inv max_pending n pos
    reached (next r st) = Step-Inv fits st (reached r)

abbrev with_tasks : ℕ → List Task → Shared
with_tasks p ts = record { pending = p; held = p; tasks = ts }

regroup :
    (front : List Task) (t : Task) (ts : List Task) → (front ++ (t ∷ [])) ++ ts ≡ front ++ (t ∷ ts)
regroup front t ts = append_assoc front (t ∷ []) ts

module _ (max_pending : ℕ) (s : Shared) where
  abbrev ReachAt : ℕ → List Task → Type 0
  ReachAt p ts = Reach max_pending s (with_tasks p ts)

  load_all :
      (k : ℕ) (front : List Task)
      → 0 < max_pending
      → ReachAt 0 (front ++ replicate k idle)
      → ReachAt 0 (front ++ replicate k checked)
  load_all zero front h r = r
  load_all (suc k) front h r = subst (ReachAt 0) (regroup front checked (replicate k checked)) (
      load_all k (front ++ (checked ∷ [])) h (
        subst (ReachAt 0) (sym (regroup front checked (replicate k idle)))
          (next r (load_free h (Moves-append front first)))))

  add_one :
      (p : ℕ) {ts us : List Task}
      → suc p < usize_mod
      → Moves checked idle ts us
      → ReachAt p ts
      → ReachAt (suc p) us
  add_one p {us = us} h m r =
      let e : fetch_add p 1 ≡ suc p = omega arith in
      subst (λ q. Reach max_pending s (record { pending = q; held = suc p; tasks = us })) e
        (next r (add m))

  add_all :
      (k p : ℕ) (front : List Task)
      → p + k < usize_mod
      → ReachAt p (front ++ replicate k checked)
      → ReachAt (p + k) (front ++ replicate k idle)
  add_all zero p front h r =
      let e : p ≡ p + 0 = omega arith in subst (λ q. ReachAt q (front ++ [])) e r
  add_all (suc k) p front h r =
      let e : suc p + k ≡ p + suc k = omega arith in
      subst (λ q. ReachAt q (front ++ replicate (suc k) idle)) e
        (subst (ReachAt (suc p + k)) (regroup front idle (replicate k idle)) (
          add_all k (suc p) (front ++ (idle ∷ [])) (omega arith) (
            subst (ReachAt (suc p)) (sym (regroup front idle (replicate k checked)))
              (add_one p (omega arith) (Moves-append front first) r))))

-- The limit is not kept: any number of tasks that load the counter before one of them has added all
-- get a slot, whatever the limit.
pub limit_passed :
    (max_pending n : ℕ)
    → 0 < max_pending
    → n < usize_mod
    → Reach max_pending (start n) (record { pending = n; held = n; tasks = replicate n idle })
limit_passed max_pending n h fits =
    subst (λ q. ReachAt max_pending (start n) q (replicate n idle)) (zero-add n)
      (add_all max_pending (start n) n 0 [] (omega arith)
        (load_all max_pending (start n) n [] h here))
