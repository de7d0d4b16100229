-- ===== src/Base/Assoc.antt =====
-- A `HashMap` as an association list in which a key stands at most once after `insert`; the order of
-- its entries stands for the order in which the map is walked.
use Prim.Native.Nat.{ℕ}
use Prim.Native.String.{String}
use mathlib.Core.Path.{◌≡◌, refl}
use mathlib.Core.Bool.{Bool, true, false}
use mathlib.Core.Logic.{◌≢◌, ◌↔◌, ◌⊎◌, inl, inr}
use mathlib.Core.List.{List, [], ◌∷◌}
use mathlib.Core.Option.{Option, none, some}
use native.Mathlib.Omega.{arith}
use text.Mathlib.Text.{◌==◌ as str_eq}
use text.Mathlib.TextEquality.{eq_iff}
use procwire_rust.Base.Tests.{◌==◌, ==_iff, if◌then◌else◌, Bool-cases}

-- The keys of a map: `Eq` of Rust.
pub record Key (K : Type 0) : Type 0 where
  pub same : K → K → Bool
  pub same_iff : (a b : K) → (same a b ≡ true) ↔ (a ≡ b)

abbrev pub number_key : Key ℕ
number_key = record { same = λ a b. a == b; same_iff = ==_iff }

abbrev pub text_key : Key String
text_key = record { same = str_eq; same_iff = eq_iff }

abbrev pub Map : Type 0 → Type 0 → Type 0
Map K V = List (K × V)

module _ {K : Type 0} (key : Key K) where
  pub same_self : (k : K) → key.same k k ≡ true
  same_self k = (key.same_iff k k).1 refl

  pub same_ne : (j k : K) → j ≢ k → key.same j k ≡ false
  same_ne j k ne = elim (Bool-cases (key.same j k)) [
    | inl e ↦ absurd (ne ((key.same_iff j k).0 e))
    | inr e ↦ e
  ]

module _ {K V : Type 0} (key : Key K) where
  unfoldable pub lookup : K → Map K V → Option V
  lookup k [] = none
  lookup k ((j, v) ∷ m) = if key.same j k then some v else lookup k m

  unfoldable pub insert : K → V → Map K V → Map K V
  insert k v [] = (k, v) ∷ []
  insert k v ((j, w) ∷ m) = if key.same j k then (k, v) ∷ m else (j, w) ∷ insert k v m

  unfoldable pub remove : K → Map K V → Map K V
  remove k [] = []
  remove k ((j, w) ∷ m) = if key.same j k then remove k m else (j, w) ∷ remove k m

  pub lookup-insert :
      (k j : K) (v : V) (m : Map K V)
      → lookup j (insert k v m) ≡ (if key.same k j then some v else lookup j m)
  unfolding lookup insert
  lookup-insert k j v [] = refl
  lookup-insert k j v ((i, w) ∷ m) =
      ground (arith, key.same_iff k j, key.same_iff i k, key.same_iff i j, lookup-insert k j v m)

  pub lookup-insert_self : (k : K) (v : V) (m : Map K V) → lookup k (insert k v m) ≡ some v
  lookup-insert_self k v m = rw (lookup-insert, same_self key k) refl

  pub lookup-insert_ne :
      (k j : K) (v : V) (m : Map K V) → k ≢ j → lookup j (insert k v m) ≡ lookup j m
  lookup-insert_ne k j v m ne = rw (lookup-insert, same_ne key k j ne) refl

  pub lookup-remove_self : (k : K) (m : Map K V) → lookup k (remove k m) ≡ none
  unfolding lookup remove
  lookup-remove_self k [] = refl
  lookup-remove_self k ((j, w) ∷ m) = ground (arith, lookup-remove_self k m)

  pub lookup-remove_ne : (k j : K) (m : Map K V) → k ≢ j → lookup j (remove k m) ≡ lookup j m
  unfolding lookup remove
  lookup-remove_ne k j [] ne = refl
  lookup-remove_ne k j ((i, w) ∷ m) ne =
      ground (arith, key.same_iff i k, key.same_iff i j, lookup-remove_ne k j m ne)

  -- What is found after an insertion is what was inserted, or was there before.
  pub lookup-insert_cases :
      (k j : K) (v w : V) (m : Map K V)
      → lookup j (insert k v m) ≡ some w
      → ((k ≡ j) × (w ≡ v)) ⊎ ((k ≢ j) × (lookup j m ≡ some w))
  lookup-insert_cases k j v w m found = ground (arith, key.same_iff k j, lookup-insert k j v m)
