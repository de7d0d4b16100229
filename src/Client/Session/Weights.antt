-- ===== src/Client/Session/Weights.antt =====
-- Counting frames and requests by the ids of their method and request.
use procwire_rust.Base.{
  ℕ, ◌⊎◌, inl, inr, Bool-cases, ◌+◌, ◌≤◌, ◌≡◌, refl, not, ◌&&◌, ◌==◌, List, [], ◌∷◌, ◌++◌, arith,
  if◌then◌else◌,
}
use procwire_rust.Base.Tasks.{Moves, first, later, total}
use procwire_rust.Protocol.Wire.{stream_chunk_flags}
use procwire_rust.Protocol.Header.{is_response}
use procwire_rust.Protocol.Frame.{Frame}

module _ (method request : ℕ) where
  -- `n` for these two ids, and 0 for others.
  abbrev pub under : ℕ → ℕ → ℕ → ℕ
  under m r n = if (m == method) && (r == request) then n else 0

  -- A request under these ids.
  abbrev pub asked : Frame → ℕ
  asked f = under f.header.method_id f.header.request_id (if is_response f.header then 0 else 1)

  -- A response under these ids.
  abbrev pub replied : Frame → ℕ
  replied f = under f.header.method_id f.header.request_id (if is_response f.header then 1 else 0)

  -- Counting under ids keeps an inequality.
  pub under_paid :
      (m r a b c d e : ℕ)
      → a + b + c ≤ d + e
      → under m r a + under m r b + under m r c ≤ under m r d + under m r e
  under_paid m r a b c d e h = elim (Bool-cases ((m == method) && (r == request))) [
    | inl same ↦ rw same h
    | inr other ↦ rw other (omega arith)
  ]

  pub under_zero : (m r : ℕ) → under m r 0 ≡ 0
  under_zero m r = elim (Bool-cases ((m == method) && (r == request))) [
    | inl same ↦ rw same refl
    | inr other ↦ rw other refl
  ]

  pub under_cases : (m r n : ℕ) → (under m r n ≡ 0) ⊎ (under m r 1 ≡ 1)
  under_cases m r n = elim (Bool-cases ((m == method) && (r == request))) [
    | inl same ↦ inr (rw same refl)
    | inr other ↦ inl (rw other refl)
  ]

-- A response that ends its request: all but the chunk of a stream do.
abbrev pub ends : Frame → ℕ
ends f = if is_response f.header && not (f.header.flags == stream_chunk_flags) then 1 else 0

abbrev pub ended : ℕ → ℕ → Frame → ℕ
ended method request f = under method request f.header.method_id f.header.request_id (ends f)

module _ {A : Type 0} where
  pub total-append :
      (weight : A → ℕ) (xs ys : List A)
      → total weight (xs ++ ys) ≡ total weight xs + total weight ys
  total-append weight [] ys = omega arith
  total-append weight (x ∷ xs) ys = omega (arith, total-append weight xs ys)

  pub total_mono : (v w : A → ℕ) (xs : List A) → ((x : A) → v x ≤ w x) → total v xs ≤ total w xs
  total_mono v w [] h = omega arith
  total_mono v w (x ∷ xs) h = omega (arith, h x, total_mono v w xs h)

  pub Moves-le :
      (weight : A → ℕ) {t u : A} {ts us : List A} → Moves t u ts us → weight t ≤ total weight ts
  Moves-le weight first = omega arith
  Moves-le weight (later m) = omega (arith, Moves-le weight m)
