-- ===== src/Base/Digits.antt =====
-- Numbers printed in a base, the highest digit first.
use Prim.Native.Nat.{ℕ, zero, suc, ◌+◌, ◌-◌, ◌*◌, ◌/◌, ◌%◌, ◌≤◌, ◌<◌}
use mathlib.Core.Path.{◌≡◌, refl, sym, ap, ◌∙◌}
use mathlib.Core.List.{List, [], ◌∷◌, map}
use native.Mathlib.Nat.{div-add-mod'}
use native.Mathlib.Omega.{arith}
use procwire_rust.Base.Lists.{All}
use procwire_rust.Base.Tests.{◌==◌, ltb, if◌then◌else◌, Bool-cases, ==_iff}
use mathlib.Core.Logic.{inl, inr, ◌≢◌}

-- The digits in front of `rest`, with the number as fuel.
digits_onto : ℕ → ℕ → ℕ → List ℕ → List ℕ
digits_onto zero base n rest = rest
digits_onto (suc fuel) base n rest =
    let shown = (n % base) ∷ rest in
    let more = digits_onto fuel base (n / base) shown in if n / base == 0 then shown else more

unfoldable pub digits : ℕ → ℕ → List ℕ
unfolding digits_onto
digits base n = digits_onto (suc n) base n []

-- The character of a digit below 16.
unfoldable pub digit_char : ℕ → ℕ
digit_char d = if ltb d 10 then b'0' + d else (b'a' + d) - 10

-- The number that digits stand for.
abbrev value : ℕ → ℕ → List ℕ → ℕ
value base acc [] = acc
value base acc (d ∷ ds) = value base (acc * base + d) ds

div_lt : (n base : ℕ) → 2 ≤ base → n / base ≢ 0 → n / base < n
div_lt n base hb h = grind arith

value-digits_onto :
    (fuel base n : ℕ) (rest : List ℕ)
    → 2 ≤ base
    → n < fuel
    → value base 0 (digits_onto fuel base n rest) ≡ value base n rest
unfolding digits_onto
value-digits_onto zero base n rest hb h = absurd (omega arith)
value-digits_onto (suc fuel) base n rest hb h =
    let whole : n / base * base + n % base ≡ n = div-add-mod' n base in
    elim (Bool-cases (n / base == 0)) [
      | inl e ↦
          let zero_high : n / base ≡ 0 = (==_iff (n / base) 0).0 e in
          let alone : 0 * base + n % base ≡ n =
            ap (λ k. k * base + n % base) (sym zero_high) ∙ whole in
          rw e (ap (λ k. value base k rest) alone)
      | inr e ↦ rw e (
          value-digits_onto fuel base (n / base) ((n % base) ∷ rest) hb
            (omega (arith, div_lt n base hb (λ z. ground (arith, ==_iff (n / base) 0))))
          ∙ ap (λ k. value base k rest) whole)
    ]

digits_inj : (base n m : ℕ) → 2 ≤ base → digits base n ≡ digits base m → n ≡ m
unfolding digits
digits_inj base n m hb e =
    sym (value-digits_onto (suc n) base n [] hb (omega arith))
    ∙ ap (value base 0) e
    ∙ value-digits_onto (suc m) base m [] hb (omega arith)

-- The digit that a character shows.
abbrev char_digit : ℕ → ℕ
char_digit c = if ltb c b'a' then c - b'0' else c + 10 - b'a'

char_digit-digit_char : (d : ℕ) → d < 16 → char_digit (digit_char d) ≡ d
unfolding digit_char
char_digit-digit_char d h = ground arith

abbrev AreDigits : List ℕ → Type 0
AreDigits = All (λ d. d < 16)

digits_onto-AreDigits :
    (fuel base n : ℕ) (rest : List ℕ)
    → 2 ≤ base
    → base ≤ 16
    → AreDigits rest
    → AreDigits (digits_onto fuel base n rest)
unfolding digits_onto
digits_onto-AreDigits zero base n rest low high h = h
digits_onto-AreDigits (suc fuel) base n rest low high h =
    let digit : n % base < 16 = grind arith in
    elim (Bool-cases (n / base == 0)) [
      | inl e ↦ rw e (digit, h)
      | inr e ↦
          rw e (digits_onto-AreDigits fuel base (n / base) ((n % base) ∷ rest) low high (digit, h))
    ]

digits-AreDigits : (base n : ℕ) → 2 ≤ base → base ≤ 16 → AreDigits (digits base n)
unfolding digits
digits-AreDigits base n low high = digits_onto-AreDigits (suc n) base n [] low high tt

chars_back : (ds : List ℕ) → AreDigits ds → map char_digit (map digit_char ds) ≡ ds
chars_back [] h = refl
chars_back (d ∷ ds) (hd, h) = cc (char_digit-digit_char d hd, chars_back ds h)

-- Numbers that print alike are the same.
pub map-digits_inj :
    (base n m : ℕ)
    → 2 ≤ base
    → base ≤ 16
    → map digit_char (digits base n) ≡ map digit_char (digits base m)
    → n ≡ m
map-digits_inj base n m low high e = digits_inj base n m low (
    sym (chars_back (digits base n) (digits-AreDigits base n low high))
    ∙ ap (map char_digit) e
    ∙ chars_back (digits base m) (digits-AreDigits base m low high))
