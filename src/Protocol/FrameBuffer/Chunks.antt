-- ===== src/Protocol/FrameBuffer/Chunks.antt =====
-- The loop of `push`: its fuel is enough, and how the input is split over calls does not matter.
use procwire_rust.Base.{
  ℕ, zero, suc, ◌+◌, ◌<◌, ◌≡◌, refl, sym, ap, ◌∙◌, Option, none, some, ◌⊎◌, inl, inr, List, [], ◌∷◌,
  ◌++◌, append_assoc, arith, length,
}
use procwire_rust.Error.{Result, ok, err, ProcwireError}
use procwire_rust.Protocol.Frame.{Frame}
use procwire_rust.Protocol.FrameBuffer.{
  FrameBuffer, State, try_extract_one, extract_all, extend, push,
}
use procwire_rust.Protocol.FrameBuffer.Step.{
  measure, state_weight, try_extract_one-Carries, try_extract_one-smaller,
}

-- The three ways in which a round of the loop can go.
abbrev pub Round : FrameBuffer → Type 0
Round fb =
    ((fb' : FrameBuffer) × (try_extract_one fb ≡ (ok none, fb')))
    ⊎ (((f : Frame) × (fb' : FrameBuffer) × (try_extract_one fb ≡ (ok (some f), fb')))
        ⊎ ((e : ProcwireError) × (fb' : FrameBuffer) × (try_extract_one fb ≡ (err e, fb'))))

pub rounds : (fb : FrameBuffer) → Round fb
rounds fb = go (try_extract_one fb) refl
  where
    go : (r : Result (Option Frame) × FrameBuffer) → try_extract_one fb ≡ r → Round fb
    go (ok none, fb') e = inl (fb', e)
    go (ok (some f), fb') e = inr (inl (f, fb', e))
    go (err x, fb') e = inr (inr (x, fb', e))

-- Frames that were cut before come first; an error drops them.
abbrev pub prepend :
    List Frame → Result (List Frame) × FrameBuffer → Result (List Frame) × FrameBuffer
prepend fs (ok gs, fb) = (ok (fs ++ gs), fb)
prepend fs (err e, fb) = (err e, fb)

pub prepend-prepend :
    (fs gs : List Frame) (r : Result (List Frame) × FrameBuffer)
    → prepend fs (prepend gs r) ≡ prepend (fs ++ gs) r
prepend-prepend fs gs (ok hs, fb) = rw append_assoc
prepend-prepend fs gs (err e, fb) = refl

-- What the loop does from `fb` on, whatever fuel above the measure it is given.
abbrev pub run : FrameBuffer → Result (List Frame) × FrameBuffer
run fb = extract_all (length fb.buffer + 2) fb []

module _ (n : ℕ) (fb : FrameBuffer) (fs : List Frame) {fb' : FrameBuffer} where
  pub round_none : try_extract_one fb ≡ (ok none, fb') → extract_all (suc n) fb fs ≡ (ok fs, fb')
  unfolding extract_all
  round_none e = rw (e, extract_all) (rw e)

  pub round_some :
      {f : Frame}
      → try_extract_one fb ≡ (ok (some f), fb')
      → extract_all (suc n) fb fs ≡ extract_all n fb' (fs ++ (f ∷ []))
  unfolding extract_all
  round_some e = rw (e, extract_all) (rw e)

  pub round_err :
      {x : ProcwireError}
      → try_extract_one fb ≡ (err x, fb')
      → extract_all (suc n) fb fs ≡ (err x, fb')
  unfolding extract_all
  round_err e = rw (e, extract_all) (rw e)

-- Fuel above the measure is enough: more makes no difference, and the frames cut before only stand
-- in front.
pub extract_all-prepend :
    (n m : ℕ) (fb : FrameBuffer) (fs gs : List Frame)
    → measure fb < n
    → measure fb < m
    → extract_all n fb (fs ++ gs) ≡ prepend fs (extract_all m fb gs)
extract_all-prepend zero m fb fs gs hn hm = absurd (omega arith)
extract_all-prepend (suc n) zero fb fs gs hn hm = absurd (omega arith)
extract_all-prepend (suc n) (suc m) fb fs gs hn hm = elim (rounds fb) [
  | inl (fb', e) ↦ rw (round_none n fb (fs ++ gs) e, round_none m fb gs e)
  | inr (inl (f, fb', e)) ↦
      let less : measure fb' < measure fb = try_extract_one-smaller fb e in
      rw (round_some n fb (fs ++ gs) e, round_some m fb gs e, append_assoc)
        (extract_all-prepend n m fb' fs (gs ++ (f ∷ [])) (omega arith) (omega arith))
  | inr (inr (x, fb', e)) ↦ rw (round_err n fb (fs ++ gs) e, round_err m fb gs e)
]

measure-fuel : (fb : FrameBuffer) → measure fb < length fb.buffer + 2
measure-fuel fb = go fb.state
  where
    go : (s : State) → length fb.buffer + state_weight s < length fb.buffer + 2
    go State.waiting_for_header = omega arith
    go (State.waiting_for_payload h r) = omega arith

-- The equations of the loop, free of fuel.
module _ (fb : FrameBuffer) {fb' : FrameBuffer} where
  pub run-none : try_extract_one fb ≡ (ok none, fb') → run fb ≡ (ok [], fb')
  run-none e =
      ap (λ n. extract_all n fb []) (omega arith) ∙ round_none (length fb.buffer + 1) fb [] e

  pub run-some :
      {f : Frame} → try_extract_one fb ≡ (ok (some f), fb') → run fb ≡ prepend (f ∷ []) (run fb')
  run-some {f} e =
      ap (λ n. extract_all n fb []) (omega arith)
      ∙ round_some (length fb.buffer + 1) fb [] e
      ∙ extract_all-prepend (length fb.buffer + 1) (length fb'.buffer + 2) fb' (f ∷ []) []
          (omega (arith, try_extract_one-smaller fb e, measure-fuel fb)) (measure-fuel fb')

  pub run-err : {x : ProcwireError} → try_extract_one fb ≡ (err x, fb') → run fb ≡ (err x, fb')
  run-err e = ap (λ n. extract_all n fb []) (omega arith) ∙ round_err (length fb.buffer + 1) fb [] e

pub prepend-nil : (r : Result (List Frame) × FrameBuffer) → prepend [] r ≡ r
prepend-nil (ok fs, fb) = refl
prepend-nil (err e, fb) = refl

run-cong : (a b : FrameBuffer) → try_extract_one a ≡ try_extract_one b → run a ≡ run b
run-cong a b same = elim (rounds b) [
  | inl (fb', e) ↦ run-none a (same ∙ e) ∙ sym (run-none b e)
  | inr (inl (f, fb', e)) ↦ run-some a (same ∙ e) ∙ sym (run-some b e)
  | inr (inr (x, fb', e)) ↦ run-err a (same ∙ e) ∙ sym (run-err b e)
]

-- Bytes that come later are bytes that come behind: what `run` makes of `fb` with `more` appended
-- is the frames of `fb` and what it makes of the rest with `more` appended.
abbrev pub RunCarries : List ℕ → Result (List Frame) × FrameBuffer → FrameBuffer → Type 0
RunCarries more (ok fs, fb') fb = run (extend fb more) ≡ prepend fs (run (extend fb' more))
RunCarries more (err e, fb') fb = run (extend fb more) ≡ (err e, extend fb' more)

prepend-RunCarries :
    (more : List ℕ) (f : Frame) (r : Result (List Frame) × FrameBuffer) (fb fb1 : FrameBuffer)
    → run (extend fb more) ≡ prepend (f ∷ []) (run (extend fb1 more))
    → RunCarries more r fb1
    → RunCarries more (prepend (f ∷ []) r) fb
prepend-RunCarries more f (ok fs, fb') fb fb1 e h =
    rw (e, h) (prepend-prepend (f ∷ []) fs (run (extend fb' more)))
prepend-RunCarries more f (err x, fb') fb fb1 e h = rw (e, h)

run-RunCarries :
    (n : ℕ) (fb : FrameBuffer) (more : List ℕ) → measure fb < n → RunCarries more (run fb) fb
run-RunCarries zero fb more h = absurd (omega arith)
run-RunCarries (suc n) fb more h = elim (rounds fb) [
  | inl (fb', e) ↦
      rw (run-none fb e)
        (run-cong _ _ (rw e at (try_extract_one-Carries fb more)) ∙ sym (prepend-nil _))
  | inr (inl (f, fb', e)) ↦ rw (run-some fb e) (
      prepend-RunCarries more f (run fb') fb fb'
        (run-some _ (rw e at (try_extract_one-Carries fb more)))
        (run-RunCarries n fb' more (omega (arith, try_extract_one-smaller fb e))))
  | inr (inr (x, fb', e)) ↦
      rw (run-err fb e) (run-err _ (rw e at (try_extract_one-Carries fb more)))
]

extend-extend : (fb : FrameBuffer) (a b : List ℕ) → extend fb (a ++ b) ≡ extend (extend fb a) b
unfolding extend
extend-extend fb a b = rw append_assoc

pub push-run : (fb : FrameBuffer) (bytes : List ℕ) → push fb bytes ≡ run (extend fb bytes)
unfolding push
push-run fb bytes = refl

-- The outcome of one `push` of `a ++ b`, from the outcome of `push a` alone: an error stays, and
-- otherwise the frames of `a` come first and `push b` goes on from the buffer that `a` left.
abbrev pub Joins :
    List ℕ → Result (List Frame) × FrameBuffer → Result (List Frame) × FrameBuffer → Type 0
Joins b (ok fs, fb1) joined = joined ≡ prepend fs (push fb1 b)
Joins b (err e, fb1) joined = joined ≡ (err e, extend fb1 b)

RunCarries→Joins :
    (b : List ℕ) (r : Result (List Frame) × FrameBuffer) (fb : FrameBuffer)
    → RunCarries b r fb
    → Joins b r (run (extend fb b))
unfolding push
RunCarries→Joins b (ok fs, fb1) fb h = h
RunCarries→Joins b (err e, fb1) fb h = h

-- Pushing two pieces one after the other is pushing them together.
pub push-append : (fb : FrameBuffer) (a b : List ℕ) → Joins b (push fb a) (push fb (a ++ b))
push-append fb a b =
    rw (push-run, push-run, extend-extend)
      (RunCarries→Joins b _ _
        (run-RunCarries (suc (measure (extend fb a))) (extend fb a) b (omega arith)))
