-- ===== src/Base/Text.antt =====
-- Texts as lists of code points, and what `str` of Rust does with them.
use Prim.Native.Char.{code}
use Prim.Native.Nat.{ℕ}
use Prim.Native.String.{String}
use mathlib.Core.Bool.{Bool, true, false, ◌&&◌, ◌||◌}
use mathlib.Core.List.{List, [], ◌∷◌}
use mathlib.Core.Path.{◌≡◌, refl}
use mathlib.Core.Logic.{◌↔◌}
use native.Mathlib.Omega.{arith}
use procwire_rust.Base.Tests.{◌==◌, ==_iff, leb, if◌then◌else◌}
use procwire_rust.Base.Lists.{is_nil}

-- The code points of a text: its bytes, if it is ASCII.
abbrev pub codes : String → List ℕ
codes String.[] = []
codes (String.◌∷◌ c s) = code c ∷ codes s

-- `char::is_whitespace`, the property White_Space of Unicode.
unfoldable pub is_whitespace : ℕ → Bool
is_whitespace c =
    (leb 9 c && leb c 13)
    || c == 0x20
    || c == 0x85
    || c == 0xa0
    || c == 0x1680
    || (leb 0x2000 c && leb c 0x200a)
    || c == 0x2028
    || c == 0x2029
    || c == 0x202f
    || c == 0x205f
    || c == 0x3000

unfoldable pub trim_start : List ℕ → List ℕ
unfolding is_whitespace
trim_start [] = []
trim_start (c ∷ s) = if is_whitespace c then trim_start s else c ∷ s

unfoldable pub trim_end : List ℕ → List ℕ
unfolding is_whitespace
trim_end [] = []
trim_end (c ∷ s) = let rest = trim_end s in if is_whitespace c && is_nil rest then [] else c ∷ rest

unfoldable pub trim : List ℕ → List ℕ
unfolding trim_start trim_end
trim s = trim_end (trim_start s)

unfoldable pub starts_with : List ℕ → ℕ → Bool
starts_with [] c = false
starts_with (d ∷ s) c = d == c

unfoldable pub same_codes : List ℕ → List ℕ → Bool
same_codes [] [] = true
same_codes [] (b ∷ t) = false
same_codes (a ∷ s) [] = false
same_codes (a ∷ s) (b ∷ t) = a == b && same_codes s t

pub same_codes_iff : (s t : List ℕ) → (same_codes s t ≡ true) ↔ (s ≡ t)
unfolding same_codes
same_codes_iff [] [] = (λ h. refl, λ h. refl)
same_codes_iff [] (b ∷ t) = (λ h. cc, λ h. cc)
same_codes_iff (a ∷ s) [] = (λ h. cc, λ h. cc)
same_codes_iff (a ∷ s) (b ∷ t) = ground (arith, ==_iff a b, same_codes_iff s t)
