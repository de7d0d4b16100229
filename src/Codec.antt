-- ===== src/Codec.antt =====
-- src/codec: MessagePack and raw payloads. rmp_serde is a parameter; the number of its error stands for
-- the error's own value.
use procwire_rust.Base.{ℕ, ◌⊎◌, inl, inr, List}
use procwire_rust.Error.{Result, ok, err, ProcwireError, msgpack_encode, msgpack_decode}

-- What is used of rmp_serde at one type.
pub record RmpSerde (T : Type 0) : Type 0 where
  pub to_vec_named : T → List ℕ ⊎ ℕ
  pub from_slice : List ℕ → T ⊎ ℕ

-- `?`, with the `From` of an error.
abbrev pub or_error : {A : Type 0} → (ℕ → ProcwireError) → A ⊎ ℕ → Result A
or_error error (inl a) = ok a
or_error error (inr e) = err (error e)

module _ {T : Type 0} (rmp : RmpSerde T) where
  -- `MsgPackCodec`
  unfoldable pub encode : T → Result (List ℕ)
  encode value = or_error msgpack_encode (rmp.to_vec_named value)

  unfoldable pub decode : List ℕ → Result T
  decode bytes = or_error msgpack_decode (rmp.from_slice bytes)

-- `RawCodec`; a copy and a borrow hold the same bytes.
abbrev pub serialize : List ℕ → List ℕ
serialize payload = payload

abbrev pub serialize_bytes : List ℕ → List ℕ
serialize_bytes payload = payload

abbrev pub deserialize : List ℕ → List ℕ
deserialize payload = payload

abbrev pub deserialize_bytes : List ℕ → List ℕ
deserialize_bytes payload = payload
