-- ===== src/Transport/Windows/Gap.antt =====
-- When a named pipe can be found by the parent.
use procwire_rust.Base.{ℕ, suc, ◌+◌, ◌-◌, ◌≡◌, refl, sym, ap, ◌∙◌, true, false, List, arith}
use procwire_rust.Error.{Result, ok, err}
use procwire_rust.Transport.Windows.{
  NamedPipes, PipeListener, PipeStream, checked, bind, connected, created, accept,
}

module _ {S V : Type 0} (pipes : NamedPipes S V) where
  -- The instances that a result of `accept` keeps.
  abbrev pub held : Result (PipeStream V) → ℕ
  held (ok stream) = 1
  held (err e) = 0

  checked-gap :
      (path : List ℕ) (s : S) (r : Result V × S) (l : PipeListener) (s' : S)
      → pipes.create true path s ≡ r
      → checked pipes path r ≡ (ok l, s')
      → (pipes.instances path s' ≡ 0) × (l.path ≡ path)
  checked-gap path s (err e, s1) l s' h eq = absurd (cc)
  checked-gap path s (ok v, s1) l s' h eq =
      let (none_before, one) = pipes.create_first path s s1 v h in
      let state : pipes.close path v s1 ≡ s' = cc in
      let same : l.path ≡ path = ground arith in
      (
        ap (pipes.instances path) (sym state) ∙ pipes.close_one path v s1 ∙ ap (λ k. k - 1) one,
        same,
      )

  connected-held :
      (path : List ℕ) (v : V) (s : S) (r : Result (Unit {0}) × S) (k : ℕ)
      → pipes.instances path s ≡ suc k
      → pipes.instances path r.1 ≡ pipes.instances path s
      → pipes.instances path (connected pipes path v r).1 ≡ k + held (connected pipes path v r).0
  connected-held path v s (ok _, s1) k one same = omega arith
  connected-held path v s (err e, s1) k one same = omega (arith, pipes.close_one path v s1)

  created-held :
      (path : List ℕ) (s : S) (r : Result V × S)
      → pipes.create false path s ≡ r
      → pipes.instances path (created pipes path r).1
        ≡ pipes.instances path s + held (created pipes path r).0
  created-held path s (err e, s1) h = omega (arith, pipes.create_err false path s s1 e h)
  created-held path s (ok v, s1) h =
      connected-held path v s1 (pipes.connect v s1) (pipes.instances path s)
        (pipes.create_more path s s1 v h) (pipes.connect_keeps path v s1)

  -- Behind a `bind` that succeeds no client can find the pipe: the instance that `bind` makes is
  -- closed before it returns. Each accept that succeeds leaves one instance, that of its stream, and
  -- an accept that fails leaves none.
  pub bind-no_instance :
      (path : List ℕ) (s s' : S) (l : PipeListener)
      → bind pipes path s ≡ (ok l, s')
      → (pipes.instances path s' ≡ 0)
        × ((t : S)
            → pipes.instances path (accept pipes l t).1
              ≡ pipes.instances path t + held (accept pipes l t).0)
  unfolding bind accept
  bind-no_instance path s s' l e =
      let (none_left, same) = checked-gap path s (pipes.create true path s) l s' refl e in
      (none_left, λ t. rw same (created-held path t (pipes.create false path t) refl))
