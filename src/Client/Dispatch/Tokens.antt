-- ===== src/Client/Dispatch/Tokens.antt =====
-- Every running task has a token of its own.
use procwire_rust.Base.{
  ℕ, zero, suc, ◌<◌, ◌≡◌, ◌≢◌, sym, subst, Option, none, some, List, [], ◌∷◌, arith, All, All-at,
  All-map, Bool, true, false, ◌==◌, if◌then◌else◌, get_elem?, some_inj,
}
use procwire_rust.Base.Assoc.{number_key, lookup}
use procwire_rust.Protocol.Wire.{abort_method_id, auth_method_id}
use procwire_rust.Protocol.Header.{is_response}
use procwire_rust.Handler.Registry.{HandlerRegistry}
use procwire_rust.Client.Dispatch.{
  Running, Runtime, cancel_found, abort, spawn, dispatch_frame, remove_at, complete_found, complete,
  one_less, drop_permit, Event, arrives, completes, frees, step, run,
}
use procwire_rust.Client.Dispatch.Tasks.{All-remove_at}
use procwire_rust.Protocol.Frame.{Frame}

-- No task has the token.
abbrev pub IsUnused : ℕ → List Running → Type 0
IsUnused token rs = All (λ r. r.token ≢ token) rs

abbrev pub Apart : List Running → Type 0
Apart [] = Unit {0}
Apart (r ∷ rs) = IsUnused r.token rs × Apart rs

-- All tasks but the one at the position have other tokens.
abbrev pub OthersUnused : ℕ → ℕ → List Running → Type 0
OthersUnused n token [] = Unit {0}
OthersUnused zero token (r ∷ rs) = IsUnused token rs
OthersUnused (suc n) token (r ∷ rs) = (r.token ≢ token) × OthersUnused n token rs

remove_at-Apart : (n : ℕ) (rs : List Running) → Apart rs → Apart (remove_at n rs)
remove_at-Apart n [] d = d
remove_at-Apart zero (r ∷ rs) (unused, d) = d
remove_at-Apart (suc n) (r ∷ rs) (unused, d) = (All-remove_at _ n rs unused, remove_at-Apart n rs d)

pub Apart-OthersUnused :
    (n : ℕ) (rs : List Running) (task : Running)
    → get_elem? rs n ≡ some task
    → Apart rs
    → OthersUnused n task.token rs
Apart-OthersUnused n [] task e d = tt
Apart-OthersUnused zero (r ∷ rs) task e (unused, d) =
    let same : r ≡ task = some_inj e in subst {A = Running} (λ x. IsUnused x.token rs) same unused
Apart-OthersUnused (suc n) (r ∷ rs) task e (unused, d) =
    (λ same. All-at _ n rs task e unused (sym same), Apart-OthersUnused n rs task e d)

module _ {H : Type 0} (registry : HandlerRegistry H) where
  -- The tokens of the running tasks differ, and are older than the next one.
  pub record Tokens (rt : Runtime) : Type 0 where
    pub older : All (λ (r : Running). r.token < rt.next_token) rt.running
    pub apart : Apart rt.running

  abort-Tokens : (rt : Runtime) (id : ℕ) → Tokens rt → Tokens (abort rt id)
  unfolding abort
  abort-Tokens rt id v = go (lookup number_key id rt.active_contexts)
    where
      go : (o : Option ℕ) → Tokens (cancel_found rt o)
      go none = v
      go (some t) = record { older = v.older; apart = v.apart }

  spawn-Tokens : (rt : Runtime) (frame : Frame) → Tokens rt → Tokens (spawn registry rt frame)
  unfolding spawn
  spawn-Tokens rt frame v = record {
    older = (
      omega arith,
      All-map (λ (r : Running). r.token < rt.next_token)
          (λ (r : Running). r.token < suc rt.next_token) rt.running (λ r h. omega arith) v.older,
    );
    apart = (
      All-map (λ (r : Running). r.token < rt.next_token) (λ (r : Running). r.token ≢ rt.next_token)
          rt.running (λ r h e. absurd (omega arith)) v.older,
      v.apart,
    );
  }

  complete-Tokens : (rt : Runtime) (n : ℕ) → Tokens rt → Tokens (complete rt n)
  unfolding complete
  complete-Tokens rt n v = go (get_elem? rt.running n)
    where
      go : (o : Option Running) → Tokens (complete_found rt n o)
      go none = v
      go (some r) = record {
        older = All-remove_at _ n rt.running v.older;
        apart = remove_at-Apart n rt.running v.apart;
      }

  drop_permit-Tokens : (rt : Runtime) → Tokens rt → Tokens (drop_permit rt)
  unfolding drop_permit
  drop_permit-Tokens rt v = go rt.ending
    where
      go : (n : ℕ) → Tokens (one_less rt n)
      go zero = v
      go (suc n) = record { older = v.older; apart = v.apart }

  chosen : (b : Bool) (x y : Runtime) → Tokens x → Tokens y → Tokens (if b then x else y)
  chosen true x y hx hy = hx
  chosen false x y hx hy = hy

  step-Tokens : (rt : Runtime) (e : Event) → Tokens rt → Tokens (step registry rt e)
  unfolding step dispatch_frame
  step-Tokens rt (completes n) v = complete-Tokens rt n v
  step-Tokens rt frees v = drop_permit-Tokens rt v
  step-Tokens rt (arrives frame) v =
      chosen (frame.header.method_id == abort_method_id) _ _ (abort-Tokens rt _ v) (
        chosen (frame.header.method_id == auth_method_id) _ _ v (
          chosen (is_response frame.header) _ _ v
            (chosen (rt.permits == 0) _ _ v (spawn-Tokens rt frame v))))

  pub run-Apart : (rt : Runtime) (es : List Event) → Tokens rt → Apart (run registry rt es).running
  unfolding run
  run-Apart rt [] v = v.apart
  run-Apart rt (e ∷ es) v = run-Apart (step registry rt e) es (step-Tokens rt e v)
