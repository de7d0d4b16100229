-- ===== src/Transport/Unix/Lifetime.antt =====
-- What a listener makes of the file system, from its bind to its drop.
use procwire_rust.Base.{
  ℕ, zero, suc, ◌≡◌, refl, sym, ap, ◌∙◌, ◌⊎◌, inl, inr, Bool, true, false, List, Bool-cases, arith,
}
use procwire_rust.Error.{Result, ok, err, ProcwireError}
use procwire_rust.Transport.Unix.{
  Os, PipeListener, bound, bind_free, bind, connected, accept, cleanup_guard, drop_listener,
  drop_cleanup,
}

module _ {S L C : Type 0} (os : Os S L C) (path : List ℕ) where
  -- A bind that fails has met an error of the removal of a file that was there, or of the socket at
  -- the free path, and leaves no file at the path that was not there.
  abbrev pub Bound : S → Result (PipeListener L) × S → Type 0
  Bound s (ok l, s') = (l.path ≡ path) × (os.exists path s' ≡ true)
  Bound s (err e, s') =
      (((os.exists path s ≡ true) × (os.remove_file path s ≡ (err e, s')))
        ⊎ ((free : S) × (os.exists path free ≡ false) × (os.listen path free ≡ (err e, s'))))
      × (os.exists path s' ≡ true → os.exists path s ≡ true)

  -- No file under a path that does not name the same file is touched.
  abbrev pub Spares : S → S → Type 0
  Spares s s' =
      (other : List ℕ) → os.is_alias path other ≡ false → os.exists other s' ≡ os.exists other s

  bound-Bound :
      (s free : S) (r : Result L × S)
      → os.exists path free ≡ false
      → os.listen path free ≡ r
      → Bound s (bound os path r)
  bound-Bound s free (ok l, s') f h = (refl, os.listen_ok path free s' l h)
  bound-Bound s free (err e, s') f h =
      (inr (free, f, h), λ there. absurd (ground (arith, os.listen_err path free s' e h)))

  bound-Spares : (r : Result L × S) (s : S) → Spares s r.1 → Spares s (bound os path r).1
  bound-Spares (ok l, s') s h = h
  bound-Spares (err e, s') s h = h

  -- The bind behind the removal of a file that was there.
  removed-Bound :
      (s : S) (r : Result (Unit {0}) × S)
      → os.exists path s ≡ true
      → os.remove_file path s ≡ r
      → Spares s r.1
      → Bound s (bind_free os path r) × Spares s (bind_free os path r).1
  removed-Bound s (err e, s1) there h spares = ((inl (there, h), λ _. there), spares)
  removed-Bound s (ok _, s1) there h spares = (
    bound-Bound s s1 (os.listen path s1) (os.remove_ok path s s1 h) refl,
    bound-Spares (os.listen path s1) s
        (λ other ne. os.listen_other path other s1 ne ∙ spares other ne),
  )

  -- `bind` touches no file but the one at the path; when it succeeds, the socket is
  -- there, whatever stood there before; when it fails, it says why as in `Bound`.
  bind-Bound : (s : S) → Bound s (bind os path s) × Spares s (bind os path s).1
  unfolding bind
  bind-Bound s = elim (Bool-cases (os.exists path s)) [
    | inl there ↦ rw there (
        removed-Bound s (os.remove_file path s) there refl
          (λ other ne. os.remove_other path other s ne))
    | inr free ↦
        rw (free, bind_free)
          (
            bound-Bound s s (os.listen path s) free refl,
            bound-Spares (os.listen path s) s (λ other ne. os.listen_other path other s ne),
          )
  ]

  -- `n` accepts, whatever they give.
  abbrev pub accepts : ℕ → PipeListener L → S → S
  accepts zero l s = s
  accepts (suc n) l s = accepts n l (accept os l s).1

  accept_files :
      (l : PipeListener L) (other : List ℕ) (s : S)
      → os.exists other (accept os l s).1 ≡ os.exists other s
  unfolding accept
  accept_files l other s = go (os.accept l.listener s) (os.accept_files l.listener other s)
    where
      go :
          (r : Result C × S)
          → os.exists other r.1 ≡ os.exists other s
          → os.exists other (connected os r).1 ≡ os.exists other s
      go (ok c, s') h = h
      go (err e, s') h = h

  accepts_files :
      (n : ℕ) (l : PipeListener L) (other : List ℕ) (s : S)
      → os.exists other (accepts n l s) ≡ os.exists other s
  accepts_files zero l other s = refl
  accepts_files (suc n) l other s =
      accepts_files n l other (accept os l s).1 ∙ accept_files l other s

  -- Once the file is gone it stays so.
  gone_stays : (s : S) → os.exists path s ≡ false → os.exists path (os.remove_file path s).1 ≡ false
  gone_stays s gone = go (os.remove_file path s) refl
    where
      go : (r : Result (Unit {0}) × S) → os.remove_file path s ≡ r → os.exists path r.1 ≡ false
      go (ok _, s') h = os.remove_ok path s s' h
      go (err e, s') h = os.remove_err path s s' e h ∙ gone

  -- Two removals leave the file only if the first of them fails.
  gone_twice :
      (s : S)
      → (os.exists path (os.remove_file path (os.remove_file path s).1).1 ≡ false)
        ⊎ ((e : ProcwireError) × ((os.remove_file path s).0 ≡ err e))
  gone_twice s = go (os.remove_file path s) refl
    where
      go :
          (r : Result (Unit {0}) × S)
          → os.remove_file path s ≡ r
          → (os.exists path (os.remove_file path (os.remove_file path s).1).1 ≡ false)
            ⊎ ((e : ProcwireError) × ((os.remove_file path s).0 ≡ err e))
      go (ok _, s') h = inl (
          gone_stays (os.remove_file path s).1 (
            os.remove_ok path s (os.remove_file path s).1
              (h ∙ ap (λ t. (ok tt, t)) (sym (ap (λ r. r.1) h)))))
      go (err e, s') h = inr (e, ap (λ r. r.0) h)

  -- The listener and its guard are dropped, in the one or the other order.
  abbrev pub drop_both : Bool → PipeListener L → S → S
  drop_both true l s = drop_cleanup os (cleanup_guard os l) (drop_listener os l s)
  drop_both false l s = drop_listener os l (drop_cleanup os (cleanup_guard os l) s)

  drop_both_lem :
      (order : Bool) (l : PipeListener L) (s : S)
      → l.path ≡ path
      → drop_both order l s ≡ (os.remove_file path (os.remove_file path s).1).1
  unfolding drop_listener drop_cleanup
  drop_both_lem true l s e = ap (λ p. (os.remove_file p (os.remove_file p s).1).1) e
  drop_both_lem false l s e = ap (λ p. (os.remove_file p (os.remove_file p s).1).1) e

  -- The file of a listener that is bound: there while `n` accepts are made, and, when the listener and
  -- its guard are dropped, gone unless the first removal fails, with no other file touched since `s`.
  pub record Owned (s : S) (l : PipeListener L) (t : S) : Type 0 where
    pub listens : (n : ℕ) → os.exists path (accepts n l t) ≡ true
    pub gone :
        (n : ℕ) (order : Bool)
        → (os.exists path (drop_both order l (accepts n l t)) ≡ false)
          ⊎ ((e : ProcwireError) × ((os.remove_file path (accepts n l t)).0 ≡ err e))
    pub spares : (n : ℕ) (order : Bool) → Spares s (drop_both order l (accepts n l t))

  -- What a bind says of its path and of other files, at all times of the listener.
  abbrev pub Lifetime : S → Result (PipeListener L) × S → Type 0
  Lifetime s (ok l, t) = Owned s l t
  Lifetime s (err e, t) = Bound s (err e, t)

  owned :
      (s : S) (l : PipeListener L) (t : S)
      → l.path ≡ path
      → os.exists path t ≡ true
      → Spares s t
      → Owned s l t
  owned s l t own there spares =
      let listens : (n : ℕ) → os.exists path (accepts n l t) ≡ true =
        λ n. accepts_files n l path t ∙ there in
      record {
        listens = listens;
        gone = λ n order.
            let u = accepts n l t in
            elim (gone_twice u) [
              | inl gone ↦ inl (ap (os.exists path) (drop_both_lem order l u own) ∙ gone)
              | inr failed ↦ inr failed
            ];
        spares = λ n order other ne.
            let u = accepts n l t in
            ap (os.exists other) (drop_both_lem order l u own)
            ∙ os.remove_other path other (os.remove_file path u).1 ne
            ∙ os.remove_other path other u ne
            ∙ accepts_files n l other t
            ∙ spares other ne;
      }

  -- `bind` touches no file but those that name the one at its path, whatever comes of it. If it
  -- succeeds, the file of the socket is there while the listener accepts; when the listener and its
  -- guard are dropped, in whichever order, it is gone, unless the removal fails, whose error is
  -- dropped. If it fails, the error is the one of the removal of a file that was there, or of the socket
  -- at the free path, and it leaves no new file.
  pub bind-Lifetime : (s : S) → Lifetime s (bind os path s) × Spares s (bind os path s).1
  bind-Lifetime s = go (bind os path s) (bind-Bound s)
    where
      go :
          (r : Result (PipeListener L) × S) → Bound s r × Spares s r.1 → Lifetime s r × Spares s r.1
      go (ok l, t) ((own, there), spares) = (owned s l t own there spares, spares)
      go (err e, t) (why, spares) = (why, spares)
