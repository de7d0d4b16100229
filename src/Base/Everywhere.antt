-- ===== src/Base/Everywhere.antt =====
-- What holds of all elements of a list.
use Prim.Native.Nat.{ℕ, zero, suc}
use mathlib.Core.Path.{◌≡◌, subst}
use mathlib.Core.List.{List, [], ◌∷◌, ◌++◌}
use mathlib.Core.Option.{some}
use procwire_rust.Base.Lists.{All, take, drop, concat, get_elem?}

module _ {ℓ} {A : Type ℓ} where
  pub All-append {κ} : (P : A → Type κ) (xs ys : List A) → All P xs → All P ys → All P (xs ++ ys)
  All-append P [] ys hx hy = hy
  All-append P (x ∷ xs) ys hx hy = (hx.0, All-append P xs ys hx.1 hy)

  pub All-drop {κ} : (P : A → Type κ) (n : ℕ) (xs : List A) → All P xs → All P (drop n xs)
  All-drop P zero xs h = h
  All-drop P (suc n) [] h = tt
  All-drop P (suc n) (x ∷ xs) h = All-drop P n xs h.1

  pub All-take {κ} : (P : A → Type κ) (n : ℕ) (xs : List A) → All P xs → All P (take n xs)
  All-take P zero xs h = tt
  All-take P (suc n) [] h = tt
  All-take P (suc n) (x ∷ xs) h = (h.0, All-take P n xs h.1)

  -- What holds of all of two lists holds of all of each.
  pub All-before {κ} : (P : A → Type κ) (xs ys : List A) → All P (xs ++ ys) → All P xs
  All-before P [] ys h = tt
  All-before P (x ∷ xs) ys h = (h.0, All-before P xs ys h.1)

  pub All-behind {κ} : (P : A → Type κ) (xs ys : List A) → All P (xs ++ ys) → All P ys
  All-behind P [] ys h = h
  All-behind P (x ∷ xs) ys h = All-behind P xs ys h.1

  pub All-concat {κ} :
      (P : A → Type κ) (xs : List (List A)) → All (λ x. All P x) xs → All P (concat xs)
  All-concat P [] h = tt
  All-concat P (x ∷ xs) h = All-append P x (concat xs) h.0 (All-concat P xs h.1)

  pub some_inj : {a b : A} → some a ≡ some b → a ≡ b
  some_inj e = cc

  pub All-at {κ} :
      (P : A → Type κ) (n : ℕ) (xs : List A) (x : A) → get_elem? xs n ≡ some x → All P xs → P x
  All-at P n [] x e h = cc
  All-at P zero (y ∷ xs) x e h = subst P (some_inj e) h.0
  All-at P (suc n) (y ∷ xs) x e h = All-at P n xs x e h.1

  pub All-map {κ} : (P Q : A → Type κ) (xs : List A) → ((x : A) → P x → Q x) → All P xs → All Q xs
  All-map P Q [] f h = tt
  All-map P Q (x ∷ xs) f h = (f x h.0, All-map P Q xs f h.1)

  -- The pieces of a list have what all of it has.
  pub All-cut {κ} :
      (P : A → Type κ) (xs : List (List A)) → All P (concat xs) → All (λ x. All P x) xs
  All-cut P [] h = tt
  All-cut P (x ∷ xs) h = (All-before P x (concat xs) h, All-cut P xs (All-behind P x (concat xs) h))
