-- ===== src/Base/Bytes.antt =====
-- `|` and `^` of two bytes, as far as a comparison of byte strings needs them; two tables of 256 times
-- 256 entries are checked by evaluation.
use Prim.Native.Nat.{ℕ, zero, suc, ◌<◌, bit_or, bit_xor}
use mathlib.Core.Path.{◌≡◌, refl}
use mathlib.Core.Bool.{Bool, true, ◌&&◌, not}
use native.Mathlib.Omega.{arith}
use procwire_rust.Base.Tests.{◌==◌, ltb, if◌then◌else◌}

all_below : ℕ → (ℕ → Bool) → Bool
all_below zero test = true
all_below (suc n) test = test n && all_below n test

all_below→ : (n : ℕ) (test : ℕ → Bool) → all_below n test ≡ true → (i : ℕ) → i < n → test i ≡ true
unfolding all_below
all_below→ zero test e i h = absurd (omega arith)
all_below→ (suc n) test e i h = ground (arith, all_below→ n test (ground arith) i)

abbrev xor_test : ℕ → ℕ → Bool
xor_test a b =
    ltb (bit_xor a b) 256 && (if a == b then bit_xor a b == 0 else not (bit_xor a b == 0))

abbrev or_test : ℕ → ℕ → Bool
or_test a b =
    ltb (bit_or a b) 256 && (if a == 0 && b == 0 then bit_or a b == 0 else not (bit_or a b == 0))

xor_table : all_below 256 (λ a. all_below 256 (λ b. xor_test a b)) ≡ true
unfolding all_below
xor_table = refl

or_table : all_below 256 (λ a. all_below 256 (λ b. or_test a b)) ≡ true
unfolding all_below
or_table = refl

module _ (a b : ℕ) where
  xor_entry : a < 256 → b < 256 → xor_test a b ≡ true
  xor_entry ha hb = all_below→ 256 (λ b. xor_test a b) (all_below→ 256 _ xor_table a ha) b hb

  or_entry : a < 256 → b < 256 → or_test a b ≡ true
  or_entry ha hb = all_below→ 256 (λ b. or_test a b) (all_below→ 256 _ or_table a ha) b hb

  -- The exclusive or of two bytes is a byte, and 0 only for equal ones.
  pub bit_xor_byte :
      a < 256
      → b < 256
      → (bit_xor a b < 256) × (bit_xor a b ≡ 0 → a ≡ b) × (a ≡ b → bit_xor a b ≡ 0)
  bit_xor_byte ha hb = ground (arith, xor_entry ha hb)

  -- The or of two bytes is a byte, and 0 only if both are.
  pub bit_or_byte :
      a < 256
      → b < 256
      → (bit_or a b < 256) × (bit_or a b ≡ 0 → (a ≡ 0) × (b ≡ 0)) × (a ≡ 0 → b ≡ 0 → bit_or a b ≡ 0)
  bit_or_byte ha hb = ground (arith, or_entry ha hb)
