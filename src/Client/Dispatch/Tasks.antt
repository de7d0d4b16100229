-- ===== src/Client/Dispatch/Tasks.antt =====
-- Lists of handler tasks, and the requests that they answer.
use procwire_rust.Base.{
  ℕ, zero, suc, ◌≡◌, ◌≢◌, refl, sym, ap, subst, some, List, [], ◌∷◌, length, All, All-at, some_inj,
  get_elem?,
}
use procwire_rust.Client.Dispatch.{Running, remove_at}

-- No running task answers the request.
abbrev pub IsFree : ℕ → List Running → Type 0
IsFree id rs = All (λ r. r.context.request_id ≢ id) rs

-- Each running task answers a request of its own.
abbrev pub Distinct : List Running → Type 0
Distinct [] = Unit {0}
Distinct (r ∷ rs) = IsFree r.context.request_id rs × Distinct rs

pub length-remove_at :
    (n : ℕ) (rs : List Running) (r : Running)
    → get_elem? rs n ≡ some r
    → suc (length (remove_at n rs)) ≡ length rs
length-remove_at n [] r e = cc
length-remove_at zero (x ∷ rs) r e = refl
length-remove_at (suc n) (x ∷ rs) r e = ap suc (length-remove_at n rs r e)

pub All-remove_at :
    (P : Running → Type 0) (n : ℕ) (rs : List Running) → All P rs → All P (remove_at n rs)
All-remove_at P n [] h = h
All-remove_at P zero (r ∷ rs) (h, hs) = hs
All-remove_at P (suc n) (r ∷ rs) (h, hs) = (h, All-remove_at P n rs hs)

pub remove_at-Distinct : (n : ℕ) (rs : List Running) → Distinct rs → Distinct (remove_at n rs)
remove_at-Distinct n [] d = d
remove_at-Distinct zero (r ∷ rs) (free, d) = d
remove_at-Distinct (suc n) (r ∷ rs) (free, d) =
    (All-remove_at _ n rs free, remove_at-Distinct n rs d)

-- The others answer other requests than the one that is removed.
pub remove_at-IsFree :
    (n : ℕ) (rs : List Running) (r : Running)
    → get_elem? rs n ≡ some r
    → Distinct rs
    → IsFree r.context.request_id (remove_at n rs)
remove_at-IsFree n [] r e d = cc
remove_at-IsFree zero (x ∷ rs) r e (free, d) =
    let same : x ≡ r = some_inj e in
    subst {A = Running} (λ x. IsFree x.context.request_id rs) same free
remove_at-IsFree (suc n) (x ∷ rs) r e (free, d) =
    (λ same. All-at _ n rs r e free (sym same), remove_at-IsFree n rs r e d)
