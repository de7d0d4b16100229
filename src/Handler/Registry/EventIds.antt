-- ===== src/Handler/Registry/EventIds.antt =====
-- The ids that a registry gives out for its events.
use procwire_rust.Base.{
  ℕ, suc, ◌+◌, ◌^◌, ◌≤◌, ◌<◌, ◌≡◌, inl, inr, some, List, [], ◌∷◌, arith, length,
}
use procwire_rust.Base.Assoc.{text_key, lookup, lookup-insert_cases}
use procwire_rust.Control.Init.{ResponseType}
use procwire_rust.Handler.Registry.{HandlerRegistry, register, register_event, get_event_id}
use procwire_rust.Handler.Registry.Ids.{Registration, method, event, register_all}
use Prim.Native.String.{String}

module _ {H : Type 0} where
  -- Event ids have been given out from 1 on, `n` at most.
  record HasEventIds (n : ℕ) (r : HandlerRegistry H) : Type 0 where
    next_from_one : 1 ≤ r.next_event_id
    next_bound : r.next_event_id ≤ suc n
    ids_given :
        (name : String) (id : ℕ)
        → lookup text_key name r.events ≡ some id
        → (1 ≤ id) × (id < r.next_event_id)

  register_event-HasEventIds :
      (n : ℕ) (r : HandlerRegistry H) (name : String)
      → n + 2 < 2 ^ 16
      → HasEventIds n r
      → HasEventIds (suc n) (register_event r name)
  unfolding register_event
  register_event-HasEventIds n r name fits v = record {
    next_from_one = omega arith;
    next_bound = omega arith;
    ids_given = λ other id found.
        elim (lookup-insert_cases text_key name other r.next_event_id id r.events found) [
          | inl (same, is_new) ↦ omega arith
          | inr (ne, old) ↦ omega (arith, v.ids_given other id old)
        ];
  }

  register-HasEventIds :
      (n : ℕ) (r : HandlerRegistry H) (name : String) (t : ResponseType) (h : H)
      → HasEventIds n r
      → HasEventIds (suc n) (register r name t h)
  unfolding register
  register-HasEventIds n r name t h v = record {
    next_from_one = v.next_from_one;
    next_bound = omega arith;
    ids_given = v.ids_given;
  }

  register_all-HasEventIds :
      (rs : List (Registration H))
      → length rs + 1 < 2 ^ 16
      → HasEventIds (length rs) (register_all rs)
  unfolding lookup
  register_all-HasEventIds [] fits = record {
    next_from_one = omega arith;
    next_bound = omega arith;
    ids_given = λ name id found. absurd (cc);
  }
  register_all-HasEventIds (method name t h ∷ rs) fits =
      register-HasEventIds (length rs) (register_all rs) name t h
        (register_all-HasEventIds rs (omega arith))
  register_all-HasEventIds (event name ∷ rs) fits =
      register_event-HasEventIds (length rs) (register_all rs) name (omega arith)
        (register_all-HasEventIds rs (omega arith))

  -- The events of fewer than 65,535 registrations have ids that fit and that the wire allows.
  pub event_ids_fit :
      (rs : List (Registration H))
      → length rs + 1 < 2 ^ 16
      → (name : String) (id : ℕ) → get_event_id (register_all rs) name ≡ some id
      → (1 ≤ id) × (id < 2 ^ 16)
  unfolding get_event_id
  event_ids_fit rs fits name id found =
      let v = register_all-HasEventIds rs fits in
      omega (arith, v.ids_given name id found, v.next_bound)
