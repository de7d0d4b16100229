-- ===== src/Client/ReadLoop/Verdict.antt =====
-- When the read loop ends, with what, and which frames it has dispatched by then.
use procwire_rust.Base.{◌≡◌, refl, sym, ap, subst, ◌∙◌, none, some, List, [], ◌∷◌, ◌++◌, map, ℕ}
use procwire_rust.Error.{Result, ok, err, ProcwireError}
use procwire_rust.Protocol.Frame.{Frame}
use procwire_rust.Protocol.FrameBuffer.{FrameBuffer, push}
use procwire_rust.Protocol.FrameBuffer.Chunks.{prepend}
use procwire_rust.Protocol.FrameBuffer.Reassembly.{push_all, push_all_ok, push_all_err}
use procwire_rust.Client.Auth.{Read, bytes, closed, read_error}
use procwire_rust.Client.ReadLoop.{dispatch_all, read_all}
use procwire_rust.Client.ReadLoop.Order.{dispatch_all-append}

-- A read that no further one follows: the close, a read error, or bytes that the buffer refuses.
abbrev pub Stops : FrameBuffer → Read → Result (Unit {0}) → Type 0
Stops fb closed verdict = verdict ≡ ok tt
Stops fb (read_error e) verdict = verdict ≡ err e
Stops fb (bytes bs) verdict = (e : ProcwireError) × (verdict ≡ err e) × ((push fb bs).0 ≡ err e)

-- Reads among which one stops the loop; the frames are those of the reads before it.
pub record Over (fb : FrameBuffer) (reads : List Read) : Type 0 where
  pub cuts : List (List ℕ)
  pub last : Read
  pub later : List Read
  pub split : reads ≡ map bytes cuts ++ (last ∷ later)
  pub frames : List Frame
  pub left : FrameBuffer
  pub taken : push_all fb cuts ≡ (ok frames, left)
  pub verdict : Result (Unit {0})
  pub stops : Stops left last verdict

halts_here :
    (fb : FrameBuffer) (last : Read) (later : List Read) (verdict : Result (Unit {0}))
    → Stops fb last verdict
    → Over fb (last ∷ later)
halts_here fb last later verdict stops = record {
  cuts = [];
  last = last;
  later = later;
  split = refl;
  frames = [];
  left = fb;
  taken = refl;
  verdict = verdict;
  stops = stops;
}

halts_later :
    (fb fb1 : FrameBuffer) (bs : List ℕ) (frames : List Frame) (reads : List Read)
    → push fb bs ≡ (ok frames, fb1)
    → Over fb1 reads
    → Over fb (bytes bs ∷ reads)
halts_later fb fb1 bs frames reads pushed o = record {
  cuts = bs ∷ o.cuts;
  last = o.last;
  later = o.later;
  split = ap (λ l. bytes bs ∷ l) o.split;
  frames = frames ++ o.frames;
  left = o.left;
  taken = push_all_ok fb bs o.cuts pushed ∙ ap (prepend frames) o.taken;
  verdict = o.verdict;
  stops = o.stops;
}

none-some : {v : Result (Unit {0})} → none ≡ some v → ⊥
none-some e = cc

-- A pushed read that was taken.
abbrev Took : Result (List Frame) × FrameBuffer → List Frame → FrameBuffer → Type 0
Took r frames left = r ≡ (ok frames, left)

err-Took :
    (x : ProcwireError) (fb : FrameBuffer) (frames : List Frame) (left : FrameBuffer)
    → Took (err x, fb) frames left
    → ⊥
err-Took x fb frames left e = cc

ok-Took :
    (gs : List Frame) (fb : FrameBuffer) (frames : List Frame) (left : FrameBuffer)
    → Took (ok gs, fb) frames left
    → (gs ≡ frames) × (fb ≡ left)
ok-Took gs fb frames left e = (cc, cc)

-- What `prepend` has put in front of.
prepend_ok :
    (fs frames : List Frame) (left : FrameBuffer) (r : Result (List Frame) × FrameBuffer)
    → prepend fs r ≡ (ok frames, left)
    → (gs : List Frame) × (r ≡ (ok gs, left)) × (fs ++ gs ≡ frames)
prepend_ok fs frames left (ok gs, fb) e =
    let (same, kept) = ok-Took (fs ++ gs) fb frames left e in (gs, rw kept, same)
prepend_ok fs frames left (err x, fb) e = absurd (err-Took x fb frames left e)

module _ {S : Type 0} (dispatch : S → Frame → S) where
  read_all_stop :
      (s : S) (fb : FrameBuffer) (last : Read) (later : List Read) (verdict : Result (Unit {0}))
      → Stops fb last verdict
      → read_all dispatch s fb (last ∷ later) ≡ (some verdict, s)
  unfolding read_all
  read_all_stop s fb closed later verdict stops = rw stops
  read_all_stop s fb (read_error e) later verdict stops = rw stops
  read_all_stop s fb (bytes bs) later verdict (e, stops, refused) =
      rw (refused, read_all) (rw stops refl)

  read_all_more :
      (s : S) (fb fb1 : FrameBuffer) (bs : List ℕ) (frames : List Frame) (reads : List Read)
      → push fb bs ≡ (ok frames, fb1)
      → read_all dispatch s fb (bytes bs ∷ reads)
        ≡ read_all dispatch (dispatch_all dispatch s frames) fb1 reads
  unfolding read_all
  read_all_more s fb fb1 bs frames reads pushed = rw (pushed, read_all) (rw pushed)

  pub read_all-ended :
      (s : S) (fb : FrameBuffer) (reads : List Read) (v : Result (Unit {0}))
      → (read_all dispatch s fb reads).0 ≡ some v
      → Over fb reads
  unfolding read_all
  read_all-ended s fb [] v e = absurd (none-some e)
  read_all-ended s fb (closed ∷ reads) v e = halts_here fb closed reads (ok tt) refl
  read_all-ended s fb (read_error x ∷ reads) v e = halts_here fb (read_error x) reads (err x) refl
  read_all-ended s fb (bytes bs ∷ reads) v e = go (push fb bs) refl λ fs fb1 p.
      read_all-ended (dispatch_all dispatch s fs) fb1 reads v
        (ap (λ r. r.0) (sym (read_all_more s fb fb1 bs fs reads p)) ∙ e)
    where
      go :
          (r : Result (List Frame) × FrameBuffer)
          → push fb bs ≡ r
          → ((fs : List Frame) (fb1 : FrameBuffer) → push fb bs ≡ (ok fs, fb1) → Over fb1 reads)
          → Over fb (bytes bs ∷ reads)
      go (ok fs, fb1) p ih = halts_later fb fb1 bs fs reads p (ih fs fb1 p)
      go (err x, fb1) p ih = halts_here fb (bytes bs) reads (err x) (x, refl, ap (λ r. r.0) p)

  -- The outcome of a loop that a read stops, and the frames that it has dispatched.
  read_all_taken :
      (s : S) (fb : FrameBuffer) (cuts : List (List ℕ)) (last : Read) (later : List Read)
      (frames : List Frame) (left : FrameBuffer) (verdict : Result (Unit {0}))
      → push_all fb cuts ≡ (ok frames, left)
      → Stops left last verdict
      → read_all dispatch s fb (map bytes cuts ++ (last ∷ later))
        ≡ (some verdict, dispatch_all dispatch s frames)
  unfolding read_all
  read_all_taken s fb [] last later frames left verdict taken stops =
      let (same, kept) = ok-Took [] fb frames left taken in
      read_all_stop s fb last later verdict (subst (λ b. Stops b last verdict) (sym kept) stops)
      ∙ ap (λ fs. (some verdict, dispatch_all dispatch s fs)) same
  read_all_taken s fb (bs ∷ cuts) last later frames left verdict taken stops =
      go (push fb bs) refl
        λ s1 fb1 gs t. read_all_taken s1 fb1 cuts last later gs left verdict t stops
    where
      rest : List Read
      rest = map bytes cuts ++ (last ∷ later)

      go :
          (r : Result (List Frame) × FrameBuffer)
          → push fb bs ≡ r
          → ((s1 : S) (fb1 : FrameBuffer) (gs : List Frame)
              → push_all fb1 cuts ≡ (ok gs, left)
              → read_all dispatch s1 fb1 rest ≡ (some verdict, dispatch_all dispatch s1 gs))
          → read_all dispatch s fb (bytes bs ∷ rest)
            ≡ (some verdict, dispatch_all dispatch s frames)
      go (ok fs, fb1) p ih =
          let (gs, t, same) =
            prepend_ok fs frames left (push_all fb1 cuts)
              (sym (push_all_ok fb bs cuts p) ∙ taken) in
          read_all_more s fb fb1 bs fs rest p
          ∙ ih (dispatch_all dispatch s fs) fb1 gs t
          ∙ ap (λ x. (some verdict, x))
              (sym (dispatch_all-append dispatch s fs gs) ∙ ap (dispatch_all dispatch s) same)
      go (err x, fb1) p ih =
          absurd (err-Took x fb1 frames left (sym (push_all_err fb bs cuts p) ∙ taken))

  pub Over-read_all :
      (s : S) (fb : FrameBuffer) (reads : List Read) (o : Over fb reads)
      → read_all dispatch s fb reads ≡ (some o.verdict, dispatch_all dispatch s o.frames)
  Over-read_all s fb reads o =
      ap (read_all dispatch s fb) o.split
      ∙ read_all_taken s fb o.cuts o.last o.later o.frames o.left o.verdict o.taken o.stops
