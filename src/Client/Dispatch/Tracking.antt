-- ===== src/Client/Dispatch/Tracking.antt =====
-- An invariant of the runtime: permits are kept, and every running task is found by its request id.
use procwire_rust.Base.{
  ℕ, zero, suc, ◌+◌, ◌<◌, ◌≡◌, ◌≢◌, refl, sym, ap, subst, ◌∙◌, ◌⊎◌, inl, inr, Option, none, some,
  List, [], ◌∷◌, arith, length, All, get_elem?, ==_iff,
}
use procwire_rust.Base.Assoc.{
  Map, number_key, lookup, insert, remove, lookup-insert_self, lookup-insert_ne, lookup-remove_ne,
}
use procwire_rust.Protocol.Wire.{abort_method_id}
use procwire_rust.Protocol.Frame.{Frame}
use procwire_rust.Handler.Registry.{HandlerRegistry}
use procwire_rust.Client.Dispatch.{
  Running, Runtime, cancel_found, abort, spawn, dispatch_frame, remove_at, complete_found, complete,
  one_less, drop_permit, Event, arrives, completes, frees, step, run,
}
use procwire_rust.Client.Dispatch.Tasks.{
  IsFree, Distinct, length-remove_at, All-remove_at, remove_at-Distinct, remove_at-IsFree,
}

module _ {H : Type 0} (registry : HandlerRegistry H) where
  -- Permits are neither lost nor made.
  abbrev pub permits_and_tasks : Runtime → ℕ
  permits_and_tasks rt = rt.permits + length rt.running + rt.ending

  pub complete-permits :
      (rt : Runtime) (n : ℕ) → permits_and_tasks (complete rt n) ≡ permits_and_tasks rt
  unfolding complete
  complete-permits rt n = go (get_elem? rt.running n) refl
    where
      go :
          (o : Option Running)
          → get_elem? rt.running n ≡ o
          → permits_and_tasks (complete_found rt n o) ≡ permits_and_tasks rt
      go none e = refl
      go (some r) e = omega (arith, length-remove_at n rt.running r e)

  pub drop_permit-permits :
      (rt : Runtime) → permits_and_tasks (drop_permit rt) ≡ permits_and_tasks rt
  unfolding drop_permit
  drop_permit-permits rt = go rt.ending refl
    where
      go : (n : ℕ) → rt.ending ≡ n → permits_and_tasks (one_less rt n) ≡ permits_and_tasks rt
      go zero e = refl
      go (suc n) e = omega arith

  abort-keeps :
      (rt : Runtime) (id : ℕ)
      → ((abort rt id).permits ≡ rt.permits)
        × ((abort rt id).ending ≡ rt.ending)
        × ((abort rt id).running ≡ rt.running)
        × ((abort rt id).active_contexts ≡ rt.active_contexts)
  unfolding abort
  abort-keeps rt id = go (lookup number_key id rt.active_contexts)
    where
      go :
          (o : Option ℕ)
          → ((cancel_found rt o).permits ≡ rt.permits)
            × ((cancel_found rt o).ending ≡ rt.ending)
            × ((cancel_found rt o).running ≡ rt.running)
            × ((cancel_found rt o).active_contexts ≡ rt.active_contexts)
      go none = (refl, refl, refl, refl)
      go (some t) = (refl, refl, refl, refl)

  -- A frame spawns a task, or leaves permits, contexts and tasks as they are.
  pub dispatch_frame-cases :
      (rt : Runtime) (frame : Frame)
      → ((dispatch_frame registry rt frame ≡ spawn registry rt frame)
          × (0 < rt.permits)
          × (frame.header.method_id ≢ abort_method_id))
        ⊎ ((dispatch_frame registry rt frame).permits ≡ rt.permits)
          × ((dispatch_frame registry rt frame).ending ≡ rt.ending)
          × ((dispatch_frame registry rt frame).running ≡ rt.running)
          × ((dispatch_frame registry rt frame).active_contexts ≡ rt.active_contexts)
  unfolding dispatch_frame
  dispatch_frame-cases rt frame =
      ground (
        arith,
        abort-keeps rt frame.header.request_id,
        ==_iff frame.header.method_id abort_method_id,
      )

  -- The entry of a task is under its request id.
  abbrev pub IsTracked : Map ℕ ℕ → Running → Type 0
  IsTracked contexts r = lookup number_key r.context.request_id contexts ≡ some r.token

  pub record Inv (limit : ℕ) (rt : Runtime) : Type 0 where
    pub permits_kept : permits_and_tasks rt ≡ limit
    pub distinct : Distinct rt.running
    pub tracked : All (IsTracked rt.active_contexts) rt.running

  insert-IsTracked :
      (contexts : Map ℕ ℕ) (id token : ℕ) (rs : List Running)
      → IsFree id rs
      → All (IsTracked contexts) rs
      → All (IsTracked (insert number_key id token contexts)) rs
  insert-IsTracked contexts id token [] free h = tt
  insert-IsTracked contexts id token (r ∷ rs) (ne, free) (h, hs) = (
    lookup-insert_ne number_key id r.context.request_id token contexts (λ e. ne (sym e)) ∙ h,
    insert-IsTracked contexts id token rs free hs,
  )

  remove-IsTracked :
      (contexts : Map ℕ ℕ) (id : ℕ) (rs : List Running)
      → IsFree id rs
      → All (IsTracked contexts) rs
      → All (IsTracked (remove number_key id contexts)) rs
  remove-IsTracked contexts id [] free h = tt
  remove-IsTracked contexts id (r ∷ rs) (ne, free) (h, hs) = (
    lookup-remove_ne number_key id r.context.request_id contexts (λ e. ne (sym e)) ∙ h,
    remove-IsTracked contexts id rs free hs,
  )

  spawn-Inv :
      {limit : ℕ} (rt : Runtime) (frame : Frame)
      → 0 < rt.permits
      → IsFree frame.header.request_id rt.running
      → Inv limit rt
      → Inv limit (spawn registry rt frame)
  unfolding spawn
  spawn-Inv rt frame pos free v = record {
    permits_kept = omega arith;
    distinct = (free, v.distinct);
    tracked = (
      lookup-insert_self number_key frame.header.request_id rt.next_token rt.active_contexts,
      insert-IsTracked rt.active_contexts frame.header.request_id rt.next_token rt.running free
          v.tracked,
    );
  }

  pub spawn-permits :
      (rt : Runtime) (frame : Frame)
      → 0 < rt.permits
      → permits_and_tasks (spawn registry rt frame) ≡ permits_and_tasks rt
  unfolding spawn
  spawn-permits rt frame pos = omega arith

  complete-Inv : {limit : ℕ} (rt : Runtime) (n : ℕ) → Inv limit rt → Inv limit (complete rt n)
  unfolding complete
  complete-Inv {limit} rt n v = go (get_elem? rt.running n) refl
    where
      go : (o : Option Running) → get_elem? rt.running n ≡ o → Inv limit (complete_found rt n o)
      go none e = v
      go (some r) e = record {
        permits_kept = omega (arith, length-remove_at n rt.running r e);
        distinct = remove_at-Distinct n rt.running v.distinct;
        tracked =
            remove-IsTracked rt.active_contexts r.context.request_id (remove_at n rt.running)
              (remove_at-IsFree n rt.running r e v.distinct)
              (All-remove_at _ n rt.running v.tracked);
      }

  drop_permit-Inv : {limit : ℕ} (rt : Runtime) → Inv limit rt → Inv limit (drop_permit rt)
  unfolding drop_permit
  drop_permit-Inv {limit} rt v = go rt.ending refl
    where
      go : (n : ℕ) → rt.ending ≡ n → Inv limit (one_less rt n)
      go zero e = v
      go (suc n) e = record {
        permits_kept = omega arith;
        distinct = v.distinct;
        tracked = v.tracked;
      }

  -- The parent gives a new request an id that none of the running requests has.
  abbrev pub IsFresh : Runtime → Event → Type 0
  IsFresh rt (arrives frame) =
      (frame.header.method_id ≡ abort_method_id) ⊎ IsFree frame.header.request_id rt.running
  IsFresh rt (completes n) = Unit {0}
  IsFresh rt frees = Unit {0}

  abbrev pub AllFresh : Runtime → List Event → Type 0
  AllFresh rt [] = Unit {0}
  AllFresh rt (e ∷ es) = IsFresh rt e × AllFresh (step registry rt e) es

  kept-Inv :
      {limit : ℕ} (rt rt' : Runtime)
      → (rt'.permits ≡ rt.permits)
        × (rt'.ending ≡ rt.ending)
        × (rt'.running ≡ rt.running)
        × (rt'.active_contexts ≡ rt.active_contexts)
      → Inv limit rt
      → Inv limit rt'
  kept-Inv rt rt' (permits, ending, running, contexts) v = record {
    permits_kept = omega (arith, ap length running);
    distinct = subst Distinct (sym running) v.distinct;
    tracked = rw (running, contexts) v.tracked;
  }

  step-Inv :
      {limit : ℕ} (rt : Runtime) (e : Event)
      → IsFresh rt e
      → Inv limit rt
      → Inv limit (step registry rt e)
  unfolding step
  step-Inv rt (completes n) fresh v = complete-Inv rt n v
  step-Inv rt frees fresh v = drop_permit-Inv rt v
  step-Inv {limit} rt (arrives frame) fresh v = elim (dispatch_frame-cases rt frame) [
    | inl (spawned, pos, no_abort) ↦
        subst (Inv limit) (sym spawned) (spawn-Inv rt frame pos (is_free fresh no_abort) v)
    | inr kept ↦ kept-Inv rt _ kept v
  ]
    where
      is_free :
          IsFresh rt (arrives frame)
          → frame.header.method_id ≢ abort_method_id
          → IsFree frame.header.request_id rt.running
      is_free (inl abort) no_abort = absurd (no_abort abort)
      is_free (inr free) no_abort = free

  pub run-Inv :
      {limit : ℕ} (rt : Runtime) (es : List Event)
      → AllFresh rt es
      → Inv limit rt
      → Inv limit (run registry rt es)
  unfolding run
  run-Inv rt [] fresh v = v
  run-Inv rt (e ∷ es) (fresh, more) v = run-Inv (step registry rt e) es more (step-Inv rt e fresh v)
