-- ===== src/Client/Auth/Equality.antt =====
-- `constant_time_eq` decides whether two byte strings are equal.
use procwire_rust.Base.{
  ℕ, ◌≡◌, refl, ap, ◌↔◌, true, List, [], ◌∷◌, arith, bit_or, bit_xor, length, All, ◌==◌, ==_iff,
  Bool-cases, inl, inr,
}
use procwire_rust.Base.Bytes.{bit_xor_byte, bit_or_byte}
use procwire_rust.Protocol.Wire.{IsByte}
use procwire_rust.Client.Auth.{difference, constant_time_eq}

-- The loop ends with 0 exactly if it started with 0 and met no difference.
difference_iff :
    (diff : ℕ) (a b : List ℕ)
    → IsByte diff
    → All IsByte a
    → All IsByte b
    → length a ≡ length b
    → (difference diff a b ≡ 0) ↔ ((diff ≡ 0) × (a ≡ b))
unfolding difference
difference_iff diff [] [] hd ha hb e = (λ h. (h, refl), λ h. h.0)
difference_iff diff [] (y ∷ b) hd ha hb e = absurd (omega arith)
difference_iff diff (x ∷ a) [] hd ha hb e = absurd (omega arith)
difference_iff diff (x ∷ a) (y ∷ b) hd (hx, ha) (hy, hb) e =
    let xor_facts = bit_xor_byte x y hx hy in
    let or_facts = bit_or_byte diff (bit_xor x y) hd xor_facts.0 in
    let ih = difference_iff (bit_or diff (bit_xor x y)) a b or_facts.0 ha hb (omega arith) in
    (
      λ h.
          let (or_zero, rest) = ih.0 h in
          let (zero_before, xor_zero) = or_facts.1 or_zero in
          let same : x ≡ y = xor_facts.1 xor_zero in (zero_before, cc),
      λ h.
          let same : x ≡ y = cc in
          let rest : a ≡ b = cc in ih.1 (or_facts.2 h.0 (xor_facts.2 same), rest),
    )

-- Two byte strings compare as equal exactly if they are.
pub constant_time_eq_iff :
    (a b : List ℕ) → All IsByte a → All IsByte b → (constant_time_eq a b ≡ true) ↔ (a ≡ b)
unfolding constant_time_eq
constant_time_eq_iff a b ha hb = elim (Bool-cases (length a == length b)) [
  | inl e ↦
      let f = difference_iff 0 a b (omega arith) ha hb ((==_iff (length a) (length b)).0 e) in
      rw e (ground (arith, f, ==_iff (difference 0 a b) 0))
  | inr ne ↦ rw ne (λ h. cc, λ h. ground (arith, ap length h, ==_iff (length a) (length b)))
]
