-- ===== src/Base/Xor.antt =====
-- `^` on numbers of any width: what is mixed in by it can be told apart again.
use Prim.Native.Nat.{
  ℕ, zero, suc, ◌+◌, ◌*◌, ◌/◌, ◌%◌, ◌≤◌, ◌<◌, bit_xor, digits, differ, bit_xor-bitwise,
}
use mathlib.Core.Path.{◌≡◌, refl, sym, ◌∙◌}
use native.Mathlib.Omega.{arith}

abbrev xor_digits : ℕ → ℕ → ℕ → ℕ
xor_digits n a b = digits (λ b. b) differ n a b

xor_digits_fuel : (n m a b : ℕ) → a ≤ n → a ≤ m → xor_digits n a b ≡ xor_digits m a b
xor_digits_fuel zero zero a b p q = refl
xor_digits_fuel zero (suc m) zero b p q = refl
xor_digits_fuel zero (suc m) (suc a) b p q = absurd (omega arith)
xor_digits_fuel (suc n) zero zero b p q = refl
xor_digits_fuel (suc n) zero (suc a) b p q = absurd (omega arith)
xor_digits_fuel (suc n) (suc m) zero b p q = refl
xor_digits_fuel (suc n) (suc m) (suc a) b p q =
    omega (arith, xor_digits_fuel n m (suc a / 2) (b / 2) (omega arith) (omega arith))

zero-bit_xor : (b : ℕ) → bit_xor 0 b ≡ b
zero-bit_xor b = bit_xor-bitwise 0 b

-- The lowest digit of `^`.
bit_xor_step : (a b : ℕ) → bit_xor a b ≡ bit_xor (a / 2) (b / 2) * 2 + differ (a % 2) (b % 2)
bit_xor_step zero b = omega (arith, zero-bit_xor b, zero-bit_xor (b / 2))
bit_xor_step (suc a) b = omega (
  arith,
  bit_xor-bitwise (suc a) b,
  bit_xor-bitwise (suc a / 2) (b / 2),
  xor_digits_fuel a (suc a / 2) (suc a / 2) (b / 2) (omega arith) (omega arith),
)

-- A digit is 0 or 1.
differ_digit :
    (x y p : ℕ) → x < 2 → y < 2 → p < 2 → (differ x p < 2) × (differ x p ≡ differ y p → x ≡ y)
differ_digit zero zero zero hx hy hp = (omega arith, λ e. refl)
differ_digit zero zero (suc zero) hx hy hp = (omega arith, λ e. refl)
differ_digit zero (suc zero) zero hx hy hp = (omega arith, λ e. e)
differ_digit zero (suc zero) (suc zero) hx hy hp = (omega arith, λ e. sym e)
differ_digit (suc zero) zero zero hx hy hp = (omega arith, λ e. e)
differ_digit (suc zero) zero (suc zero) hx hy hp = (omega arith, λ e. sym e)
differ_digit (suc zero) (suc zero) zero hx hy hp = (omega arith, λ e. refl)
differ_digit (suc zero) (suc zero) (suc zero) hx hy hp = (omega arith, λ e. refl)
differ_digit (suc (suc x)) y p hx hy hp = absurd (omega arith)
differ_digit zero (suc (suc y)) p hx hy hp = absurd (omega arith)
differ_digit (suc zero) (suc (suc y)) p hx hy hp = absurd (omega arith)
differ_digit zero zero (suc (suc p)) hx hy hp = absurd (omega arith)
differ_digit zero (suc zero) (suc (suc p)) hx hy hp = absurd (omega arith)
differ_digit (suc zero) zero (suc (suc p)) hx hy hp = absurd (omega arith)
differ_digit (suc zero) (suc zero) (suc (suc p)) hx hy hp = absurd (omega arith)

bit_xor_inj_below : (n a b p : ℕ) → a ≤ n → b ≤ n → bit_xor a p ≡ bit_xor b p → a ≡ b
bit_xor_inj_below zero a b p ha hb e = omega arith
bit_xor_inj_below (suc n) a b p ha hb e =
    let da = differ_digit (a % 2) (b % 2) (p % 2) (omega arith) (omega arith) (omega arith) in
    let db = differ_digit (b % 2) (a % 2) (p % 2) (omega arith) (omega arith) (omega arith) in
    let steps : bit_xor (a / 2) (p / 2) * 2 + differ (a % 2) (p % 2)
        ≡ bit_xor (b / 2) (p / 2) * 2 + differ (b % 2) (p % 2) =
      sym (bit_xor_step a p) ∙ e ∙ bit_xor_step b p in
    let low : a % 2 ≡ b % 2 = da.1 (omega (arith, da.0, db.0)) in
    let high : a / 2 ≡ b / 2 =
      bit_xor_inj_below n (a / 2) (b / 2) (p / 2) (omega arith) (omega arith)
        (omega (arith, da.0, db.0)) in
    omega arith

-- Two numbers that are the same behind `^` with a third are the same.
pub bit_xor_inj : (a b p : ℕ) → bit_xor a p ≡ bit_xor b p → a ≡ b
bit_xor_inj a b p e = bit_xor_inj_below (a + b) a b p (omega arith) (omega arith) e
