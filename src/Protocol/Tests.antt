-- ===== src/Protocol/Tests.antt =====
-- Runs of src/protocol at concrete inputs, and the theorems at inputs that meet their hypotheses.
use procwire_rust.Base.{
  replicate, get_or, ℕ, ◌≡◌, refl, some, List, [], ◌∷◌, ◌++◌, arith, concat, ◌↔◌,
}
use procwire_rust.Error.{ok, err, protocol, ProtocolMessage, reserved_flag_bits}
use procwire_rust.Protocol.Wire.{Header, header_size, header_pool_size, encode, decode, validate}
use procwire_rust.Protocol.Wire.RoundTrip.{decode-encode}
use procwire_rust.Protocol.Wire.Validate.{MeetsContract, Refusal, validate_iff, validate-Refusal}
use procwire_rust.Protocol.HeaderPool as Pool
use procwire_rust.Protocol.HeaderPool.{HeaderPool}
use procwire_rust.Protocol.HeaderPool.Lifetime as Ring
use procwire_rust.Protocol.HeaderPool.Lifetime.{encode-kept}
use procwire_rust.Protocol.Frame.{Frame, build_frame}
use procwire_rust.Protocol.FrameBuffer.{
  FrameBuffer, with_max_payload, push, extract_all, try_extract_one,
}
use procwire_rust.Protocol.FrameBuffer.Sound.{IsFrame, IsValid, pending}
use procwire_rust.Protocol.FrameBuffer.Delivery.{Delivers, push-Delivers}
use procwire_rust.Protocol.FrameBuffer.Reassembly.{
  Agrees, push_all, push_all-concat, push_all-stream,
}

abbrev pool : HeaderPool
pool = record { buffers = replicate header_pool_size (replicate header_size 0); index = 15 }

pool-IsValid : Ring.IsValid pool
pool-IsValid = record { sixteen = refl; eleven = omega arith; in_ring = omega arith }

abbrev hello : Frame
hello = record {
  header = record { method_id = 1; flags = 3; request_id = 42; payload_length = 2 };
  payload = 104 ∷ 105 ∷ [];
}

abbrev ack : Frame
ack = record {
  header = record { method_id = 2; flags = 0x23; request_id = 7; payload_length = 0 };
  payload = [];
}

-- A header with a reserved flag bit set.
abbrev bad : Header
bad = record { method_id = 1; flags = 0x80; request_id = 42; payload_length = 0 }

abbrev hello_bytes : List ℕ
hello_bytes = 0 ∷ 1 ∷ 3 ∷ 0 ∷ 0 ∷ 0 ∷ 42 ∷ 0 ∷ 0 ∷ 0 ∷ 2 ∷ 104 ∷ 105 ∷ []

-- The bytes of `hello` and of `ack`, cut inside both headers.
abbrev reads : List (List ℕ)
reads =
    (0 ∷ 1 ∷ 3 ∷ 0 ∷ 0 ∷ [])
    ∷ (0 ∷ 42 ∷ 0 ∷ 0 ∷ 0 ∷ 2 ∷ 104 ∷ [])
    ∷ (105 ∷ 0 ∷ 2 ∷ 0x23 ∷ [])
    ∷ (0 ∷ 0 ∷ 0 ∷ 7 ∷ 0 ∷ 0 ∷ 0 ∷ 0 ∷ [])
    ∷ []

abbrev small : FrameBuffer
small = with_max_payload 100

hello_encodes : build_frame hello.header hello.payload ≡ hello_bytes
unfolding build_frame encode
hello_encodes = refl

small-IsValid : IsValid small
small-IsValid = record { buffered_bytes = tt; awaited = tt }

hello-IsFrame : IsFrame 100 hello
hello-IsFrame = record {
  in_range = omega arith;
  contract = omega arith;
  payload_bytes = omega arith;
  payload_length_true = refl;
}

ack-IsFrame : IsFrame 100 ack
ack-IsFrame = record {
  in_range = omega arith;
  contract = omega arith;
  payload_bytes = tt;
  payload_length_true = refl;
}

decode-encode_example : decode (encode hello.header ++ (9 ∷ [])) ≡ some hello.header
decode-encode_example = decode-encode hello.header (9 ∷ []) (omega arith)

validate_iff_example : (validate hello.header 100 ≡ ok tt) ↔ MeetsContract hello.header 100
validate_iff_example = validate_iff hello.header 100 (omega arith)

validate-Refusal_example :
    (p : ProtocolMessage) × (protocol reserved_flag_bits ≡ protocol p) × Refusal bad 100 p
unfolding validate
validate-Refusal_example = validate-Refusal bad 100 (omega arith) refl

push-Delivers_example : Delivers 100 (pending small ++ hello_bytes) (push small hello_bytes)
push-Delivers_example = push-Delivers small hello_bytes small-IsValid (omega arith)

push_all-concat_example : Agrees (push_all small reads) (push small (concat reads))
push_all-concat_example = push_all-concat small reads small-IsValid (omega arith) (omega arith)

push_all-stream_example : push_all small reads ≡ (ok (hello ∷ ack ∷ []), small)
unfolding build_frame encode
push_all-stream_example =
    push_all-stream 100 (hello ∷ ack ∷ []) reads (hello-IsFrame, (ack-IsFrame, tt)) refl
      (omega arith)

-- A frame that is whole, in a `push` that also brings a bad header, is dropped with the error.
push_drops_frames : (push small (hello_bytes ++ encode bad)).0 ≡ err (protocol reserved_flag_bits)
unfolding push extract_all try_extract_one encode decode validate
push_drops_frames = refl

encode-kept_example :
    (i : ℕ) × (next : HeaderPool) × (q : HeaderPool) × (Pool.encode pool hello.header
      ≡ some (i, next))
    × (Pool.encode_all next (ack.header ∷ bad ∷ []) ≡ some q)
    × Ring.IsValid q
    × (get_or next.buffers i [] ≡ encode hello.header)
    × (get_or q.buffers i [] ≡ encode hello.header)
encode-kept_example =
    encode-kept pool hello.header (ack.header ∷ bad ∷ []) pool-IsValid (omega arith)
