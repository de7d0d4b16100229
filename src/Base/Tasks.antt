-- ===== src/Base/Tasks.antt =====
-- A system of tasks as the list of where each of them stands: one task moves at a time, and a
-- quantity is summed over all of them.
use Prim.Native.Nat.{ℕ, zero, suc, ◌+◌, ◌≤◌}
use mathlib.Core.Path.{◌≡◌, refl, ap}
use mathlib.Core.List.{List, [], ◌∷◌, ◌++◌}
use native.Mathlib.Omega.{arith}
use procwire_rust.Base.Lists.{length, replicate, All}

-- One task of the list moves from `t` to `u`.
pub data Moves {T : Type 0} (t u : T) : List T → List T → Type 0 where
  first : {ts : List T} → Moves t u (t ∷ ts) (u ∷ ts)
  later : {v : T} {ts us : List T} → Moves t u ts us → Moves t u (v ∷ ts) (v ∷ us)

abbrev pub total : {T : Type 0} → (T → ℕ) → List T → ℕ
total weight [] = 0
total weight (t ∷ ts) = weight t + total weight ts

module _ {T : Type 0} where
  pub Moves-total :
      (weight : T → ℕ) {t u : T} {ts us : List T}
      → Moves t u ts us
      → total weight us + weight t ≡ total weight ts + weight u
  Moves-total weight first = omega arith
  Moves-total weight (later m) = omega (arith, Moves-total weight m)

  pub Moves-length : {t u : T} {ts us : List T} → Moves t u ts us → length us ≡ length ts
  Moves-length first = refl
  Moves-length (later m) = ap suc (Moves-length m)

  pub Moves-append :
      {t u : T} {ts us : List T} (front : List T)
      → Moves t u ts us
      → Moves t u (front ++ ts) (front ++ us)
  Moves-append [] m = m
  Moves-append (v ∷ front) m = later (Moves-append front m)

  pub total-le :
      (weight : T → ℕ) (ts : List T) → ((t : T) → weight t ≤ 1) → total weight ts ≤ length ts
  total-le weight [] h = omega arith
  total-le weight (t ∷ ts) h = omega (arith, h t, total-le weight ts h)

  pub total-replicate :
      (weight : T → ℕ) (n : ℕ) (t : T) → weight t ≡ 0 → total weight (replicate n t) ≡ 0
  total-replicate weight zero t h = refl
  total-replicate weight (suc n) t h = omega (arith, h, total-replicate weight n t h)

  -- What holds of all tasks, and of where the one that moves goes, holds of all tasks afterwards.
  pub Moves-All :
      (P : T → Type 0) {t u : T} {ts us : List T}
      → Moves t u ts us
      → (P t → P u)
      → All P ts
      → All P us
  Moves-All P first f (h, hs) = (f h, hs)
  Moves-All P (later m) f (h, hs) = (h, Moves-All P m f hs)

  pub Moves-at : (P : T → Type 0) {t u : T} {ts us : List T} → Moves t u ts us → All P ts → P t
  Moves-at P first (h, hs) = h
  Moves-at P (later m) (h, hs) = Moves-at P m hs

  pub All-replicate : (P : T → Type 0) (n : ℕ) (t : T) → P t → All P (replicate n t)
  All-replicate P zero t h = tt
  All-replicate P (suc n) t h = (h, All-replicate P n t h)
