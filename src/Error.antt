-- ===== src/Error.antt =====
-- src/error.rs: the error type of every operation, and `Result`. The text of a `Protocol` error is
-- kept as its kind with the numbers that the message shows; an I/O error as its kind; an error of
-- a codec as a number that stands for the codec's own value.
use procwire_rust.Base.{ℕ, Bool, true, false, ◌≡◌, refl, ◌⊎◌, inl, inr}
use Prim.Native.String.{String}

pub data ProtocolMessage : Type 0 where
  method_id_reserved : ProtocolMessage
  payload_exceeds_maximum : ℕ → ℕ → ProtocolMessage
  payload_exceeds_absolute : ℕ → ProtocolMessage
  reserved_flag_bits : ProtocolMessage
  unknown_event : String → ProtocolMessage
  other_message : String → ProtocolMessage

pub data IoErrorKind : Type 0 where
  write_zero : IoErrorKind
  os_error : ℕ → IoErrorKind

pub data ProcwireError : Type 0 where
  io : IoErrorKind → ProcwireError
  json : ℕ → ProcwireError
  msgpack_encode : ℕ → ProcwireError
  msgpack_decode : ℕ → ProcwireError
  protocol : ProtocolMessage → ProcwireError
  handler_not_found : ℕ → ProcwireError
  response_already_sent : ProcwireError
  connection_closed : ProcwireError
  backpressure_timeout : ProcwireError

pub data Result {ℓ} (A : Type ℓ) : Type ℓ where
  ok : A → Result A
  err : ProcwireError → Result A

-- The `?` operator.
infixl 5 ◌>>=◌
abbrev pub ◌>>=◌ {ℓ κ} : {A : Type ℓ} {B : Type κ} → Result A → (A → Result B) → Result B
ok a >>= f = f a
err e >>= f = err e

abbrev pub is_ok {ℓ} : {A : Type ℓ} → Result A → Bool
is_ok (ok a) = true
is_ok (err e) = false

pub Result-cases {ℓ} :
    {A : Type ℓ} (r : Result A) → ((a : A) × (r ≡ ok a)) ⊎ ((e : ProcwireError) × (r ≡ err e))
Result-cases (ok a) = inl (a, refl)
Result-cases (err e) = inr (e, refl)
