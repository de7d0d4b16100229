-- ===== src/Client/Auth.antt =====
-- src/client.rs: the token that a connection must prove with its first frame. `read` of the socket is
-- the list of what the reads bring: bytes, the end, or an error.
pub mod Equality
pub mod Adoption
pub mod Completeness
use procwire_rust.Base.{
  ℕ, ◌&&◌, false, ◌==◌, Bool, Option, none, some, List, [], ◌∷◌, bit_or, bit_xor, if◌then◌else◌,
  length, not, is_nil,
}
use procwire_rust.Error.{Result, ok, err, ProcwireError}
use procwire_rust.Protocol.Wire.{auth_method_id}
use procwire_rust.Protocol.Frame.{Frame}
use procwire_rust.Protocol.FrameBuffer.{FrameBuffer, with_max_payload, push}

-- The loop of `constant_time_eq` over the pairs of bytes; a shorter list ends it.
unfoldable pub difference : ℕ → List ℕ → List ℕ → ℕ
difference diff [] bs = diff
difference diff (a ∷ xs) [] = diff
difference diff (a ∷ xs) (b ∷ bs) = difference (bit_or diff (bit_xor a b)) xs bs

unfoldable pub constant_time_eq : List ℕ → List ℕ → Bool
unfolding difference
constant_time_eq a b = if not (length a == length b) then false else difference 0 a b == 0

pub data AuthOutcome : Type 0 where
  adopted : FrameBuffer → List Frame → AuthOutcome
  rejected : AuthOutcome

-- `Ok(0)` is `closed`.
pub data Read : Type 0 where
  bytes : List ℕ → Read
  closed : Read
  read_error : ProcwireError → Read

-- The verdict on the first frame.
unfoldable pub judge : List ℕ → FrameBuffer → Frame → List Frame → AuthOutcome
unfolding constant_time_eq
judge token fb first frames =
    if first.header.method_id == auth_method_id && constant_time_eq first.payload token
    then adopted fb frames
    else rejected

-- The loop of `run_auth_handshake`; `none` is a handshake that still waits for bytes.
unfoldable pub handshake : List ℕ → FrameBuffer → List Read → Option (AuthOutcome × List Read)
unfolding judge
handshake token fb [] = none
handshake token fb (closed ∷ reads) = some (rejected, reads)
handshake token fb (read_error e ∷ reads) = some (rejected, reads)
handshake token fb (bytes bs ∷ reads) =
    let (pushed, fb') = push fb bs in
    elim pushed [
      | err e ↦ some (rejected, reads)
      | ok [] ↦ handshake token fb' reads
      | ok (first ∷ frames) ↦ some (judge token fb' first frames, reads)
    ]

unfoldable pub run_auth_handshake : List ℕ → ℕ → List Read → Option (AuthOutcome × List Read)
unfolding handshake
run_auth_handshake token max_payload_size reads =
    handshake token (with_max_payload max_payload_size) reads
