-- ===== src/Base/MapOrder.antt =====
-- The order in which a `HashMap` is walked: a permutation of its entries, whose keys differ.
use mathlib.Core.Path.{◌≡◌, refl, sym, subst, ap, ◌∙◌}
use mathlib.Core.Logic.{inl, inr}
use mathlib.Core.List.{[], ◌∷◌, Permᴰ}
use mathlib.Core.Option.{none, some}
use native.Mathlib.Omega.{arith}
use procwire_rust.Base.Tests.{if◌then◌else◌, Bool-cases}
use procwire_rust.Base.Assoc.{Key, Map, lookup, insert, lookup-insert_ne}

module _ {K V : Type 0} (key : Key K) where
  -- No key stands twice.
  abbrev pub HasDistinctKeys : Map K V → Type 0
  HasDistinctKeys [] = Unit {0}
  HasDistinctKeys ((k, v) ∷ m) = (lookup key k m ≡ none) × HasDistinctKeys m

  -- The same entries in another order.
  abbrev pub SameEntries : Map K V → Map K V → Type 0
  SameEntries m n = HasDistinctKeys n × ((k : K) → lookup key k m ≡ lookup key k n)

  SameEntries-cons :
      (a : K × V) (m n : Map K V)
      → HasDistinctKeys (a ∷ m)
      → SameEntries m n
      → SameEntries (a ∷ m) (a ∷ n)
  unfolding lookup
  SameEntries-cons (k, v) m n (fresh, distinct) (distinct', same) = (
    (sym (same k) ∙ fresh, distinct'),
    λ j. ap (λ o. if key.same k j then some v else o) (same j),
  )

  SameEntries-swap :
      (a b : K × V) (m : Map K V)
      → HasDistinctKeys (a ∷ b ∷ m)
      → SameEntries (a ∷ b ∷ m) (b ∷ a ∷ m)
  unfolding lookup
  SameEntries-swap (j, v) (k, w) m (fresh_j, (fresh_k, distinct)) = (
    ground (arith, key.same_iff j k, key.same_iff k j),
    λ i. ground (arith, key.same_iff j k, key.same_iff k j, key.same_iff j i, key.same_iff k i),
  )

  -- A walk in any order finds the same entries.
  pub Perm-SameEntries : {m n : Map K V} → Permᴰ m n → HasDistinctKeys m → SameEntries m n
  Perm-SameEntries Permᴰ.nil distinct = (tt, λ k. refl)
  Perm-SameEntries (Permᴰ.cons {a} {b} {l₁} {l₂} e p) distinct =
      subst (λ c. SameEntries (a ∷ l₁) (c ∷ l₂)) e
        (SameEntries-cons a l₁ l₂ distinct (Perm-SameEntries p distinct.1))
  Perm-SameEntries (Permᴰ.swap {a} {b} {a'} {b'} {l} e f) distinct =
      subst (λ c. SameEntries (a ∷ b ∷ l) (c ∷ b' ∷ l)) f
        (subst (λ c. SameEntries (a ∷ b ∷ l) (b ∷ c ∷ l)) e (SameEntries-swap a b l distinct))
  Perm-SameEntries (Permᴰ.trans p q) distinct =
      let (between, same) = Perm-SameEntries p distinct in
      let (last, same') = Perm-SameEntries q between in (last, λ k. same k ∙ same' k)

  pub insert-HasDistinctKeys :
      (k : K) (v : V) (m : Map K V) → HasDistinctKeys m → HasDistinctKeys (insert key k v m)
  unfolding insert lookup
  insert-HasDistinctKeys k v [] h = (refl, tt)
  insert-HasDistinctKeys k v ((j, w) ∷ m) (fresh, distinct) = elim (Bool-cases (key.same j k)) [
    | inl same ↦
        rw same (subst (λ i. lookup key i m ≡ none) ((key.same_iff j k).0 same) fresh, distinct)
    | inr differs ↦ rw differs (
      lookup-insert_ne key k j v m (λ e. ground (arith, key.same_iff j k)) ∙ fresh,
      insert-HasDistinctKeys k v m distinct,
    )
  ]
