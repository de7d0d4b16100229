-- ===== src/Base/Bits.antt =====
-- The bit operations of the source on one byte, in plain arithmetic. Each table has 256 entries at
-- most and is checked by evaluation.
use Prim.Native.Nat.{ℕ, zero, suc, ◌*◌, ◌/◌, ◌<◌, bit_and, compare, Ordering}
use mathlib.Core.Path.{◌≡◌, refl}
use mathlib.Core.Bool.{Bool, true, false, ◌&&◌}
use native.Mathlib.Omega.{arith}

same : ℕ → ℕ → Bool
same a b = elim (compare a b) [ Ordering.eq ↦ true | _ ↦ false ]

module _ (f g : ℕ → ℕ) where
  agree_below : ℕ → Bool
  unfolding same
  agree_below zero = true
  agree_below (suc n) = same (f n) (g n) && agree_below n

  agree_below→eq : (n : ℕ) → agree_below n ≡ true → (i : ℕ) → i < n → f i ≡ g i
  unfolding agree_below
  agree_below→eq zero e i h = absurd (omega arith)
  agree_below→eq (suc n) e i h = ground (arith, agree_below→eq n (ground arith) i)

-- `x & 0b1100_0000`
pub bit_and_top_two : (x : ℕ) → x < 256 → bit_and x 0xC0 ≡ x / 64 * 64
unfolding agree_below
bit_and_top_two = agree_below→eq _ _ 256 refl
