-- ===== src/Protocol/Wire/Validate.antt =====
-- What `Header::validate` accepts, and how it refuses the rest.
use procwire_rust.Base.{ℕ, ◌^◌, ◌≤◌, ◌<◌, ◌≡◌, ◌≢◌, ◌↔◌, arith, ltb, ◌==◌, inl, inr, Bool-cases}
use procwire_rust.Base.Bits.{bit_and_top_two}
use procwire_rust.Error.{
  ok, err, ProcwireError, protocol, ProtocolMessage, method_id_reserved, payload_exceeds_maximum,
  payload_exceeds_absolute, reserved_flag_bits,
}
use procwire_rust.Protocol.Wire.{Header, InRange, validate, absolute_max_payload_size}

-- The wire contract: a method id other than 0, a payload within both limits, and flag bits 6 and 7
-- clear.
pub record MeetsContract (h : Header) (max_payload_size : ℕ) : Type 0 where
  pub method_id_used : h.method_id ≢ 0
  pub within_maximum : h.payload_length ≤ max_payload_size
  pub within_absolute : h.payload_length ≤ absolute_max_payload_size
  pub reserved_bits_clear : h.flags < 2 ^ 6

-- `validate` accepts a header exactly when it meets the wire contract.
pub validate_iff : (h : Header) (m : ℕ) → InRange h → (validate h m ≡ ok tt) ↔ MeetsContract h m
unfolding validate
validate_iff h m r = ground (arith, bit_and_top_two h.flags)

-- What each refusal says of the header; every earlier clause holds.
abbrev pub Refusal : Header → ℕ → ProtocolMessage → Type 0
Refusal h m method_id_reserved = h.method_id ≡ 0
Refusal h m (payload_exceeds_maximum n k) =
    (h.method_id ≢ 0) × (n ≡ h.payload_length) × (k ≡ m) × (m < h.payload_length)
Refusal h m (payload_exceeds_absolute n) =
    (h.method_id ≢ 0)
    × (n ≡ h.payload_length)
    × (h.payload_length ≤ m)
    × (absolute_max_payload_size < h.payload_length)
Refusal h m reserved_flag_bits =
    (h.method_id ≢ 0)
    × (h.payload_length ≤ m)
    × (h.payload_length ≤ absolute_max_payload_size)
    × (2 ^ 6 ≤ h.flags)
Refusal h m _ = ⊥

-- A refusal names the first clause that fails, in the order method id, configured limit, absolute
-- limit, flag bits, with the lengths that its message shows; `validate` fails in no other way.
pub validate-Refusal :
    (h : Header) (m : ℕ) {e : ProcwireError}
    → InRange h
    → validate h m ≡ err e
    → (p : ProtocolMessage) × (e ≡ protocol p) × Refusal h m p
unfolding validate
validate-Refusal h m r v = elim (Bool-cases (h.method_id == 0)) [
  | inl a ↦ (method_id_reserved, ground arith, ground arith)
  | inr a ↦ elim (Bool-cases (ltb m h.payload_length)) [
    | inl b ↦ (payload_exceeds_maximum h.payload_length m, ground arith, ground arith)
    | inr b ↦ elim (Bool-cases (ltb absolute_max_payload_size h.payload_length)) [
      | inl c ↦ (payload_exceeds_absolute h.payload_length, ground arith, ground arith)
      | inr c ↦ (reserved_flag_bits, ground arith, ground (arith, bit_and_top_two h.flags))
    ]
  ]
]
