-- ===== src/Writer/Batch.antt =====
-- src/writer.rs, `write_batch` and `build_remaining_slices`: the bytes of a batch under a writer that
-- may take any part of what it is offered.
pub mod Slices
pub mod Delivery
use procwire_rust.Base.{
  ℕ, zero, suc, ◌+◌, ◌-◌, ◌≤◌, ◌≡◌, Bool, not, ◌&&◌, List, [], ◌∷◌, ◌++◌, ltb, ◌==◌, if◌then◌else◌,
  length, take, drop, is_nil, concat,
}
use procwire_rust.Error.{Result, ok, err, ProcwireError, io, write_zero}
use procwire_rust.Protocol.Wire.{header_size}
use procwire_rust.Writer.Defs.{OutboundFrame, size}

-- The writer is an `AsyncWrite` of tokio, of which the code relies on this: a vectored write takes a
-- prefix of the slices' bytes and says how many, and a failed write and a flush take none. `S` is
-- its state, and `sent` all the bytes that it has taken.
pub record AsyncWrite (S : Type 0) : Type 0 where
  pub write_vectored : S → List (List ℕ) → Result ℕ × S
  pub flush : S → Result (Unit {0}) × S
  pub sent : S → List ℕ
  pub write_takes :
      (s s' : S) (slices : List (List ℕ)) (n : ℕ)
      → write_vectored s slices ≡ (ok n, s')
      → (n ≤ length (concat slices)) × (sent s' ≡ sent s ++ take n (concat slices))
  pub write_fails :
      (s s' : S) (slices : List (List ℕ)) (e : ProcwireError)
      → write_vectored s slices ≡ (err e, s')
      → sent s' ≡ sent s
  pub flush_takes : (s : S) → sent (flush s).1 ≡ sent s

-- The part of a header that starts after `start` bytes, if any of it is still to be written.
unfoldable pub header_slice : ℕ → ℕ → List ℕ → List (List ℕ)
header_slice skip_bytes start header =
    if ltb skip_bytes (start + header_size) then drop (skip_bytes - start) header ∷ [] else []

-- The part of a payload, likewise.
unfoldable pub payload_slice : ℕ → ℕ → List ℕ → List (List ℕ)
payload_slice skip_bytes start payload =
    if not (is_nil payload) && ltb skip_bytes (start + length payload)
    then drop (skip_bytes - start) payload ∷ []
    else []

-- The loop of `build_remaining_slices`; `skipped` bytes lie before the first frame. An empty payload
-- moves `skipped` by nothing.
unfoldable pub remaining_from : List OutboundFrame → ℕ → ℕ → List (List ℕ)
unfolding header_slice payload_slice
remaining_from [] skip_bytes skipped = []
remaining_from (frame ∷ frames) skip_bytes skipped =
    let header_end = skipped + header_size in
    let payload_end = header_end + length frame.payload in
    header_slice skip_bytes skipped frame.header
    ++ (payload_slice skip_bytes header_end frame.payload
        ++ remaining_from frames skip_bytes payload_end)

unfoldable pub build_remaining_slices : List OutboundFrame → ℕ → List (List ℕ)
unfolding remaining_from
build_remaining_slices batch skip_bytes = remaining_from batch skip_bytes 0

-- The slices of the first write: each frame gives its header and, if it is not empty, its payload.
unfoldable pub all_slices : List OutboundFrame → List (List ℕ)
all_slices [] = []
all_slices (frame ∷ frames) =
    frame.header ∷ ((if is_nil frame.payload then [] else frame.payload ∷ []) ++ all_slices frames)

unfoldable pub total_size : List OutboundFrame → ℕ
unfolding size
total_size [] = 0
total_size (frame ∷ frames) = size frame + total_size frames

-- The error of a write that takes nothing.
abbrev pub wrote_nothing : ProcwireError
wrote_nothing = io write_zero

module _ {S : Type 0} (w : AsyncWrite S) where
  -- `writer.flush().await?; Ok(())`
  unfoldable pub finish : S → Result (Unit {0}) × S
  finish s = w.flush s

  -- `?` on the answer of a vectored write, and the test for 0 after it.
  unfoldable pub on_written : (ℕ → S → Result (Unit {0}) × S) → Result ℕ × S → Result (Unit {0}) × S
  on_written go_on (err e, s) = (err e, s)
  on_written go_on (ok zero, s) = (err wrote_nothing, s)
  on_written go_on (ok (suc n), s) = go_on (suc n) s

  -- The loop of the slow path, on fuel. The last clause is not reached: each round writes a byte at
  -- least, and `write_batch` gives as much fuel as the batch has bytes.
  unfoldable pub write_rest : ℕ → List OutboundFrame → ℕ → ℕ → S → Result (Unit {0}) × S
  unfolding finish on_written
  write_rest zero batch total total_written s = finish s
  write_rest (suc fuel) batch total total_written s =
      let slices = build_remaining_slices batch total_written in
      let rest = λ (n : ℕ) (s' : S). write_rest fuel batch total (total_written + n) s' in
      if not (ltb total_written total)
      then finish s
      else if is_nil slices
      then finish s
      else on_written rest (w.write_vectored s slices)

  -- What follows the first write of a batch.
  unfoldable pub after_first : List OutboundFrame → Result ℕ × S → Result (Unit {0}) × S
  unfolding write_rest
  after_first batch (err e, s) = (err e, s)
  after_first batch (ok n, s) =
      let total = total_size batch in
      if n == total
      then finish s
      else if n == 0
      then (err wrote_nothing, s)
      else write_rest total batch total n s

  unfoldable pub write_batch : List OutboundFrame → S → Result (Unit {0}) × S
  unfolding after_first
  write_batch batch s =
      if is_nil batch then (ok tt, s) else after_first batch (w.write_vectored s (all_slices batch))
