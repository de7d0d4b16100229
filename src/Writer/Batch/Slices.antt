-- ===== src/Writer/Batch/Slices.antt =====
-- What the slices of a batch stand for: the bytes that are still to be written, in order.
use procwire_rust.Base.{
  ℕ, ◌+◌, ◌-◌, ◌≡◌, refl, sym, ap, ◌∙◌, List, [], ◌∷◌, ◌++◌, append_assoc, append-nil, arith, ltb,
  if◌then◌else◌, length, drop, is_nil, concat, All, length-append, drop_all, drop-append_split,
  concat-append, inl, inr, Bool-cases, not_ltb→le,
}
use procwire_rust.Protocol.Wire.{header_size}
use procwire_rust.Writer.Defs.{OutboundFrame}
use procwire_rust.Writer.Batch.{
  header_slice, payload_slice, remaining_from, build_remaining_slices, all_slices, total_size,
}

-- A header is an array of 11 bytes.
abbrev pub HasHeader : OutboundFrame → Type 0
HasHeader f = length f.header ≡ header_size

-- The bytes of a batch, one frame after the other.
abbrev pub batch_bytes : List OutboundFrame → List ℕ
batch_bytes [] = []
batch_bytes (f ∷ fs) = (f.header ++ f.payload) ++ batch_bytes fs

pub total_size-length :
    (batch : List OutboundFrame)
    → All HasHeader batch
    → total_size batch ≡ length (batch_bytes batch)
unfolding total_size
total_size-length [] h = refl
total_size-length (f ∷ fs) (hf, h) = omega (
  arith,
  length-append (f.header ++ f.payload) (batch_bytes fs),
  length-append f.header f.payload,
  total_size-length fs h,
)

-- The slices of the first write are the bytes of the batch.
pub concat-all_slices : (batch : List OutboundFrame) → concat (all_slices batch) ≡ batch_bytes batch
unfolding all_slices
concat-all_slices [] = refl
concat-all_slices (f ∷ fs) = rw (
  concat-append (if is_nil f.payload then [] else f.payload ∷ []),
  concat-all_slices fs,
  payload_part f.payload,
  append_assoc,
)
  where
    payload_part : (p : List ℕ) → concat (if is_nil p then [] else p ∷ []) ≡ p
    payload_part [] = refl
    payload_part (x ∷ xs) = append-nil (x ∷ xs)

header_slice-drop :
    (skip start : ℕ) (header : List ℕ)
    → length header ≡ header_size
    → concat (header_slice skip start header) ≡ drop (skip - start) header
unfolding header_slice
header_slice-drop skip start header h = elim (Bool-cases (ltb skip (start + header_size))) [
  | inl more ↦ rw (more, append-nil)
  | inr done ↦ rw done (sym (drop_all (skip - start) header (omega (arith, not_ltb→le _ _ done))))
]

payload_slice-drop :
    (skip start : ℕ) (payload : List ℕ)
    → concat (payload_slice skip start payload) ≡ drop (skip - start) payload
unfolding payload_slice
payload_slice-drop skip start [] = sym (drop_all (skip - start) [] (omega arith))
payload_slice-drop skip start (x ∷ xs) = elim (Bool-cases (ltb skip (start + length (x ∷ xs)))) [
  | inl more ↦ rw (more, append-nil)
  | inr done ↦ rw done (sym (drop_all (skip - start) (x ∷ xs) (omega (arith, not_ltb→le _ _ done))))
]

remaining_from-drop :
    (batch : List OutboundFrame) (skip skipped : ℕ)
    → All HasHeader batch
    → concat (remaining_from batch skip skipped) ≡ drop (skip - skipped) (batch_bytes batch)
unfolding remaining_from
remaining_from-drop [] skip skipped h = sym (drop_all (skip - skipped) [] (omega arith))
remaining_from-drop (f ∷ fs) skip skipped (hf, h) =
    let start : ℕ = skipped + header_size in
    let next : ℕ = start + length f.payload in
    let past_header : skip - skipped - length f.header ≡ skip - start = omega arith in
    let past_payload : skip - start - length f.payload ≡ skip - next = omega arith in
    rw (
      concat-append (header_slice skip skipped f.header),
      concat-append (payload_slice skip start f.payload),
      header_slice-drop skip skipped f.header hf,
      payload_slice-drop skip start f.payload,
      remaining_from-drop fs skip next h,
      append_assoc,
      drop-append_split (skip - skipped) f.header,
      past_header,
      drop-append_split (skip - start) f.payload,
      past_payload,
    )

-- After `skip` bytes the rebuilt slices stand for exactly the bytes of the batch behind them.
pub build_remaining_slices-drop :
    (batch : List OutboundFrame) (skip : ℕ)
    → All HasHeader batch
    → concat (build_remaining_slices batch skip) ≡ drop skip (batch_bytes batch)
unfolding build_remaining_slices
build_remaining_slices-drop batch skip h =
    remaining_from-drop batch skip 0 h ∙ ap (λ k. drop k (batch_bytes batch)) (omega arith)
