-- ===== src/Handler/Registry/Ids.antt =====
-- The ids that a registry gives out, and that it finds a method by the id that it gave it.
use procwire_rust.Base.{
  ℕ, suc, ◌+◌, ◌^◌, ◌≤◌, ◌<◌, ◌≡◌, ◌≢◌, sym, ap, subst, ◌∙◌, inl, inr, some, List, [], ◌∷◌, arith,
  length,
}
use procwire_rust.Base.Assoc.{
  number_key, text_key, lookup, lookup-insert_self, lookup-insert_cases, lookup-insert_ne,
}
use procwire_rust.Control.Init.{ResponseType}
use procwire_rust.Handler.Registry.{
  MethodEntry, HandlerRegistry, next_id, new, register, register_event,
}
use Prim.Native.String.{String}

-- What a builder does to its registry.
pub data Registration (H : Type 0) : Type 0 where
  method : String → ResponseType → H → Registration H
  event : String → Registration H

module _ {H : Type 0} where
  abbrev pub register_all : List (Registration H) → HandlerRegistry H
  register_all [] = new
  register_all (method name response_type handler ∷ rs) =
      register (register_all rs) name response_type handler
  register_all (event name ∷ rs) = register_event (register_all rs) name

  -- Ids have been given out from 1 on, `n` at most, and every method is known by its id.
  pub record IsValid (n : ℕ) (r : HandlerRegistry H) : Type 0 where
    pub next_from_one : 1 ≤ r.next_method_id
    pub next_bound : r.next_method_id ≤ suc n
    pub ids_given :
        (name : String) (e : MethodEntry H)
        → lookup text_key name r.methods ≡ some e
        → (1 ≤ e.id) × (e.id < r.next_method_id)
    pub names_known :
        (name : String) (e : MethodEntry H)
        → lookup text_key name r.methods ≡ some e
        → lookup number_key e.id r.id_to_name ≡ some name

  register-IsValid :
      (n : ℕ) (r : HandlerRegistry H) (name : String) (t : ResponseType) (h : H)
      → n + 2 < 2 ^ 16
      → IsValid n r
      → IsValid (suc n) (register r name t h)
  unfolding register
  register-IsValid n r name t h fits v = record {
    next_from_one = omega arith;
    next_bound = omega arith;
    ids_given = λ other e found.
        elim (lookup-insert_cases text_key name other _ e r.methods found) [
          | inl (same, is_new) ↦
              subst (λ e. (1 ≤ e.id) × (e.id < next_id r.next_method_id)) (sym is_new) (omega arith)
          | inr (ne, old) ↦ omega (arith, v.ids_given other e old)
        ];
    names_known = λ other e found.
        elim (lookup-insert_cases text_key name other _ e r.methods found) [
          | inl (same, is_new) ↦
              rw (is_new, lookup-insert_self number_key r.next_method_id name r.id_to_name)
                (ap some same)
          | inr (ne, old) ↦
              let below = v.ids_given other e old in
              lookup-insert_ne number_key r.next_method_id e.id name r.id_to_name (omega arith)
              ∙ v.names_known other e old
        ];
  }

  register_event-IsValid :
      (n : ℕ) (r : HandlerRegistry H) (name : String)
      → IsValid n r
      → IsValid (suc n) (register_event r name)
  unfolding register_event
  register_event-IsValid n r name v = record {
    next_from_one = v.next_from_one;
    next_bound = omega arith;
    ids_given = v.ids_given;
    names_known = v.names_known;
  }

  nothing_found :
      (name : String) (e : MethodEntry H) → lookup {V = MethodEntry H} text_key name [] ≢ some e
  unfolding lookup
  nothing_found name e found = cc

  pub register_all-IsValid :
      (rs : List (Registration H)) → length rs + 1 < 2 ^ 16 → IsValid (length rs) (register_all rs)
  register_all-IsValid [] fits = record {
    next_from_one = omega arith;
    next_bound = omega arith;
    ids_given = λ name e found. absurd (nothing_found name e found);
    names_known = λ name e found. absurd (nothing_found name e found);
  }
  register_all-IsValid (method name t h ∷ rs) fits =
      register-IsValid (length rs) (register_all rs) name t h (omega arith)
        (register_all-IsValid rs (omega arith))
  register_all-IsValid (event name ∷ rs) fits =
      register_event-IsValid (length rs) (register_all rs) name
        (register_all-IsValid rs (omega arith))
