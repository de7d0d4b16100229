-- ===== src/Protocol/HeaderPool.antt =====
-- src/protocol/header_pool.rs: a ring of buffers for encoded headers. A reference to a buffer is its
-- place in the ring. The pool of a thread is passed like any other state.
pub mod Lifetime
use procwire_rust.Base.{ℕ, ◌+◌, ◌%◌, Option, none, some, List, [], ◌∷◌, get_or, set, replicate}
use procwire_rust.Protocol.Wire.{Header, header_size, header_pool_size, encode_into}

pub record HeaderPool : Type 0 where
  pub buffers : List (List ℕ)
  pub index : ℕ

abbrev pub new : HeaderPool
new = record { buffers = replicate header_pool_size (replicate header_size 0); index = 0 }

unfoldable pub acquire : HeaderPool → ℕ × HeaderPool
acquire pool = (pool.index, record pool { index = (pool.index + 1) % header_pool_size })

-- What `encode_into` makes of the buffer at a place; `none` is its panic on a buffer that is too short.
abbrev pub store : HeaderPool → ℕ → Option (List ℕ) → Option (ℕ × HeaderPool)
store pool i none = none
store pool i (some buf) = some (i, record pool { buffers = set pool.buffers i buf })

unfoldable pub encode : HeaderPool → Header → Option (ℕ × HeaderPool)
unfolding acquire
encode pool header =
    let (i, pool') = acquire pool in store pool' i (encode_into header (get_or pool'.buffers i []))

abbrev pub current_index : HeaderPool → ℕ
current_index pool = pool.index

unfoldable pub reset : HeaderPool → HeaderPool
reset pool = record pool { index = 0 }

-- The copy of the buffer that `encode` has filled.
abbrev pub copy_out : Option (ℕ × HeaderPool) → Option (List ℕ × HeaderPool)
copy_out none = none
copy_out (some (i, pool)) = some (get_or pool.buffers i [], pool)

unfoldable pub encode_header_pooled : HeaderPool → Header → Option (List ℕ × HeaderPool)
unfolding encode
encode_header_pooled pool header = copy_out (encode pool header)

-- Several headers, one after the other, as in `with_header_pool`.
unfoldable pub encode_all : HeaderPool → List Header → Option HeaderPool
unfolding encode
encode_all pool [] = some pool
encode_all pool (h ∷ hs) = elim (encode pool h) [ none ↦ none | some found ↦ encode_all found.1 hs ]
