-- ===== src/Writer/Tests.antt =====
-- Runs of src/writer.rs at concrete inputs, and its theorems at inputs that meet their hypotheses.
use procwire_rust.Base.{
  ℕ, zero, suc, ◌≤◌, ◌≡◌, refl, ap, sym, take_all, min, List, [], ◌∷◌, ◌++◌, arith, length, take,
  concat,
}
use procwire_rust.Error.{Result, ok, err, ProcwireError}
use procwire_rust.Writer.Defs.{OutboundFrame}
use procwire_rust.Writer.Batch.{
  AsyncWrite, all_slices, total_size, build_remaining_slices, write_batch,
}
use procwire_rust.Writer.Batch.Slices.{batch_bytes}
use procwire_rust.Writer.Batch.Delivery.{Written, write_batch-Written}

-- A writer that takes at most five bytes at a time; its state is what it has taken.
abbrev pub take_five : List ℕ → List (List ℕ) → Result ℕ × List ℕ
take_five s slices = (ok (min 5 (length (concat slices))), s ++ take 5 (concat slices))

take-min : (n : ℕ) (xs : List ℕ) → take (min n (length xs)) xs ≡ take n xs
take-min n [] = let e : min n 0 ≡ 0 = omega arith in rw e (sym (take_all n [] (omega arith)))
take-min zero (x ∷ xs) = let e : min 0 (suc (length xs)) ≡ 0 = omega arith in rw e refl
take-min (suc n) (x ∷ xs) =
    let e : min (suc n) (suc (length xs)) ≡ suc (min n (length xs)) = omega arith in
    rw e (ap (λ t. x ∷ t) (take-min n xs))

pub take_five-takes :
    (s s' : List ℕ) (slices : List (List ℕ)) (n : ℕ)
    → take_five s slices ≡ (ok n, s')
    → (n ≤ length (concat slices)) × (s' ≡ s ++ take n (concat slices))
take_five-takes s s' slices n e = ground (arith, take-min 5 (concat slices))

pub take_five-fails :
    (s s' : List ℕ) (slices : List (List ℕ)) (e : ProcwireError)
    → take_five s slices ≡ (err e, s')
    → s' ≡ s
take_five-fails s s' slices x e = cc

abbrev pub trickle : AsyncWrite (List ℕ)
trickle = record {
  write_vectored = take_five;
  flush = λ s. (ok tt, s);
  sent = λ s. s;
  write_takes = take_five-takes;
  write_fails = take_five-fails;
  flush_takes = λ s. refl;
}

abbrev pub frame : OutboundFrame
frame = record {
  header = 0 ∷ 1 ∷ 3 ∷ 0 ∷ 0 ∷ 0 ∷ 42 ∷ 0 ∷ 0 ∷ 0 ∷ 2 ∷ [];
  payload = 104 ∷ 105 ∷ [];
}

abbrev batch : List OutboundFrame
batch = frame ∷ frame ∷ []

write_batch-Written_example : Written trickle [] (batch_bytes batch) (write_batch trickle batch [])
write_batch-Written_example = write_batch-Written trickle batch [] (refl, (refl, tt))

write_batch_runs : write_batch trickle batch [] ≡ (ok tt, batch_bytes batch)
unfolding write_batch build_remaining_slices all_slices total_size
write_batch_runs = refl
