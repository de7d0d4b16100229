-- ===== src/Protocol/Wire/RoundTrip.antt =====
-- The encoding of a header: its bytes, and that decoding and encoding undo one another.
use procwire_rust.Base.{
  ℕ, ◌≤◌, ◌<◌, ◌≡◌, ◌≢◌, refl, none, some, List, [], ◌∷◌, ◌++◌, arith, length, take, drop, All,
}
use procwire_rust.Protocol.Wire.{Header, header_size, IsByte, InRange, encode_into, encode, decode}

pub length-encode : (h : Header) → length (encode h) ≡ header_size
unfolding encode
length-encode h = refl

pub encode-IsByte : (h : Header) → InRange h → All IsByte (encode h)
unfolding encode
encode-IsByte h r = omega arith

-- Decoding the encoding of a header whose fields are in range gives it back, whatever bytes follow.
pub decode-encode : (h : Header) (rest : List ℕ) → InRange h → decode (encode h ++ rest) ≡ some h
unfolding encode decode
decode-encode h rest r = ground arith

short_buffer : (buf : List ℕ) (h : Header) → length buf < header_size → decode buf ≢ some h
unfolding decode
short_buffer buf h l = ground arith

-- On a buffer of at least 11 bytes `encode_into` writes the encoding over its first 11 bytes and
-- leaves the rest; on a shorter one it panics.
pub encode_into_lem :
    (h : Header) (buf : List ℕ)
    → (header_size ≤ length buf → encode_into h buf ≡ some (encode h ++ drop header_size buf))
      × (length buf < header_size → encode_into h buf ≡ none)
unfolding encode_into encode
encode_into_lem h (b0 ∷ b1 ∷ b2 ∷ b3 ∷ b4 ∷ b5 ∷ b6 ∷ b7 ∷ b8 ∷ b9 ∷ b10 ∷ rest) = ground arith
encode_into_lem h buf = ground arith

full_buffer :
    (b0 b1 b2 b3 b4 b5 b6 b7 b8 b9 b10 : ℕ) (rest : List ℕ) (h : Header)
    → All IsByte (b0 ∷ b1 ∷ b2 ∷ b3 ∷ b4 ∷ b5 ∷ b6 ∷ b7 ∷ b8 ∷ b9 ∷ b10 ∷ [])
    → decode (b0 ∷ b1 ∷ b2 ∷ b3 ∷ b4 ∷ b5 ∷ b6 ∷ b7 ∷ b8 ∷ b9 ∷ b10 ∷ rest) ≡ some h
    → InRange h × (encode h ≡ b0 ∷ b1 ∷ b2 ∷ b3 ∷ b4 ∷ b5 ∷ b6 ∷ b7 ∷ b8 ∷ b9 ∷ b10 ∷ [])
unfolding decode encode
full_buffer b0 b1 b2 b3 b4 b5 b6 b7 b8 b9 b10 rest h bytes e = ground arith

-- When a buffer of bytes decodes to a header, its fields are in range and their encoding is the first
-- 11 bytes of the buffer.
pub encode-decode :
    (buf : List ℕ) (h : Header)
    → All IsByte buf
    → decode buf ≡ some h
    → InRange h × (encode h ≡ take header_size buf)
encode-decode (b0 ∷ b1 ∷ b2 ∷ b3 ∷ b4 ∷ b5 ∷ b6 ∷ b7 ∷ b8 ∷ b9 ∷ b10 ∷ rest) h bytes e =
    full_buffer b0 b1 b2 b3 b4 b5 b6 b7 b8 b9 b10 rest h (assumption) e
encode-decode buf h bytes e = absurd (short_buffer buf h (omega arith) e)
