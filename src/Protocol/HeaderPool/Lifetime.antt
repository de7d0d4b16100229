-- ===== src/Protocol/HeaderPool/Lifetime.antt =====
-- How long an encoded header stays in its buffer.
use procwire_rust.Base.{
  ℕ, zero, suc, ◌+◌, ◌%◌, ◌≤◌, ◌<◌, ◌≡◌, refl, ap, ◌∙◌, some, List, [], ◌∷◌, ◌++◌, arith, length,
  get_or, set, All, append-nil, drop_all, length-set, get_or-set_self, get_or-set_ne,
}
use procwire_rust.Protocol.Wire as Wire
use procwire_rust.Protocol.Wire.{Header, header_size, header_pool_size, encode_into}
use procwire_rust.Protocol.Wire.RoundTrip.{encode_into_lem, length-encode}
use procwire_rust.Protocol.HeaderPool.{HeaderPool, encode, encode_all}

-- Sixteen buffers of eleven bytes, and a place among them.
pub record IsValid (pool : HeaderPool) : Type 0 where
  pub sixteen : length pool.buffers ≡ header_pool_size
  pub eleven : All (λ buf. length buf ≡ header_size) pool.buffers
  pub in_ring : pool.index < header_pool_size

All-get_or :
    (bufs : List (List ℕ)) (i : ℕ)
    → All (λ buf. length buf ≡ header_size) bufs
    → i < length bufs
    → length (get_or bufs i []) ≡ header_size
All-get_or [] i h lt = absurd (omega arith)
All-get_or (b ∷ bufs) zero (h, hs) lt = h
All-get_or (b ∷ bufs) (suc i) (h, hs) lt = All-get_or bufs i hs (omega arith)

All-set :
    (bufs : List (List ℕ)) (i : ℕ) (buf : List ℕ)
    → All (λ buf. length buf ≡ header_size) bufs
    → length buf ≡ header_size
    → All (λ buf. length buf ≡ header_size) (set bufs i buf)
All-set [] i buf h hb = tt
All-set (b ∷ bufs) zero buf (h, hs) hb = (hb, hs)
All-set (b ∷ bufs) (suc i) buf (h, hs) hb = (h, All-set bufs i buf hs hb)

-- The pool after one `encode`.
abbrev after : HeaderPool → Header → HeaderPool
after pool h = record {
  buffers = set pool.buffers pool.index (Wire.encode h);
  index = (pool.index + 1) % header_pool_size;
}

encode_whole :
    (h : Header) (buf : List ℕ)
    → length buf ≡ header_size
    → encode_into h buf ≡ some (Wire.encode h)
encode_whole h buf e =
    (encode_into_lem h buf).0 (omega arith)
    ∙ ap some (
        ap (λ t. Wire.encode h ++ t) (drop_all header_size buf (omega arith))
        ∙ append-nil (Wire.encode h))

encode-after :
    (pool : HeaderPool) (h : Header)
    → IsValid pool
    → encode pool h ≡ some (pool.index, after pool h)
unfolding encode
encode-after pool h v =
    rw
      (encode_whole h (get_or pool.buffers pool.index [])
        (All-get_or pool.buffers pool.index v.eleven (omega arith)))
      refl

after-IsValid : (pool : HeaderPool) (h : Header) → IsValid pool → IsValid (after pool h)
after-IsValid pool h v = record {
  sixteen = length-set pool.buffers pool.index (Wire.encode h) ∙ v.sixteen;
  eleven = All-set pool.buffers pool.index (Wire.encode h) v.eleven (length-encode h);
  in_ring = omega arith;
}

encode_all-cons :
    (pool next : HeaderPool) (h : Header) (i : ℕ) (hs : List Header)
    → encode pool h ≡ some (i, next)
    → encode_all pool (h ∷ hs) ≡ encode_all next hs
unfolding encode_all
encode_all-cons pool next h i hs e = rw (encode_all, e) refl

-- A buffer that the ring reaches only in `d` steps or more keeps its bytes for `16 - d` of them.
kept :
    (pool : HeaderPool) (i d : ℕ) (hs : List Header)
    → IsValid pool
    → i < header_pool_size
    → pool.index ≡ (i + d) % header_pool_size
    → 1 ≤ d
    → d + length hs ≤ header_pool_size
    → (q : HeaderPool) × (encode_all pool hs ≡ some q)
      × IsValid q
      × (get_or q.buffers i [] ≡ get_or pool.buffers i [])
unfolding encode_all
kept pool i d [] v lt at pos le = (pool, refl, v, refl)
kept pool i d (h ∷ hs) v lt at pos le =
    let (q, e, vq, same) =
      kept (after pool h) i (suc d) hs (after-IsValid pool h v) lt (omega arith) (omega arith)
        (omega arith) in
    (
      q,
      encode_all-cons pool (after pool h) h pool.index hs (encode-after pool h v) ∙ e,
      vq,
      same ∙ get_or-set_ne pool.buffers pool.index i (Wire.encode h) [] (omega arith),
    )

-- Encoding into a valid pool never panics. It hands out a buffer that holds the encoded header, and
-- that still holds it after up to 15 more headers have been encoded.
pub encode-kept :
    (pool : HeaderPool) (h : Header) (hs : List Header)
    → IsValid pool
    → length hs < header_pool_size
    → (i : ℕ) × (next : HeaderPool) × (q : HeaderPool) × (encode pool h ≡ some (i, next))
      × (encode_all next hs ≡ some q)
      × IsValid q
      × (get_or next.buffers i [] ≡ Wire.encode h)
      × (get_or q.buffers i [] ≡ Wire.encode h)
encode-kept pool h hs v le =
    let holds = get_or-set_self pool.buffers pool.index (Wire.encode h) [] (omega arith) in
    let (q, e, vq, same) =
      kept (after pool h) pool.index 1 hs (after-IsValid pool h v) v.in_ring refl (omega arith)
        (omega arith) in
    (pool.index, after pool h, q, encode-after pool h v, e, vq, holds, same ∙ holds)
