-- ===== src/Handler/Registry/Announce.antt =====
-- What a schema announces under an id is what a call of that id runs.
use procwire_rust.Base.{
  ℕ, ◌+◌, ◌^◌, ◌≤◌, ◌<◌, ◌≡◌, refl, sym, ap, subst, ◌∙◌, inl, inr, Option, none, some, List, [],
  ◌∷◌, arith, length, Bool-cases,
}
use procwire_rust.Base.Assoc.{Map, number_key, text_key, lookup, lookup-insert}
use procwire_rust.Error.{Result}
use procwire_rust.Protocol.Wire.{auth_method_id}
use procwire_rust.Control.Init.{
  InitSchema, MethodSchema, empty_schema, add_method, add_event, get_method, get_event, EventSchema,
}
use procwire_rust.Handler.Registry.{
  MethodEntry, HandlerRegistry, entry_by_name, get_method_name, get_handler,
  get_response_type_by_id, add_methods, add_events, build_schema, dispatch, get_event_id,
}
use Prim.Native.String.{String}
use procwire_rust.Handler.Registry.Ids.{Registration, register_all, register_all-IsValid}

add_events-methods : (s : InitSchema) (m : Map String ℕ) → (add_events s m).methods ≡ s.methods
unfolding add_events add_event
add_events-methods s [] = refl
add_events-methods s ((name, id) ∷ m) = add_events-methods s m

some_inj : {A : Type 0} {a b : A} → some a ≡ some b → a ≡ b
some_inj e = cc

-- What a schema says of an event, from its id.
abbrev pub event_of : Option ℕ → Option EventSchema
event_of none = none
event_of (some id) = some (record { id = id })

get_event-add_events :
    (s : InitSchema) (m : Map String ℕ) (name : String)
    → s.events ≡ []
    → get_event (add_events s m) name ≡ event_of (lookup text_key name m)
unfolding get_event add_events add_event lookup
get_event-add_events s [] name none_yet = rw none_yet refl
get_event-add_events s ((k, id) ∷ m) name none_yet = elim (Bool-cases (text_key.same k name)) [
  | inl same ↦ rw (lookup-insert text_key k name, same) refl
  | inr differs ↦
      rw (lookup-insert text_key k name, differs) (get_event-add_events s m name none_yet)
]

module _ {H : Type 0} where
  -- What a schema says of a method, from its entry.
  abbrev pub schema_of : Option (MethodEntry H) → Option MethodSchema
  schema_of none = none
  schema_of (some e) = some (record { id = e.id; response = e.response_type })

  get_method-add_methods :
      (m : Map String (MethodEntry H)) (name : String)
      → get_method (add_methods empty_schema m) name ≡ schema_of (lookup text_key name m)
  unfolding get_method add_methods add_method lookup
  get_method-add_methods [] name = refl
  get_method-add_methods ((k, e) ∷ m) name = elim (Bool-cases (text_key.same k name)) [
    | inl same ↦ rw (lookup-insert text_key k name, same) refl
    | inr differs ↦ rw (lookup-insert text_key k name, differs) (get_method-add_methods m name)
  ]

  -- The schema announces exactly the methods of the registry, with their ids and response types.
  pub get_method-build_schema :
      (r : HandlerRegistry H) (name : String)
      → get_method (build_schema r) name ≡ schema_of (lookup text_key name r.methods)
  unfolding build_schema get_method
  get_method-build_schema r name =
      rw (add_events-methods (add_methods empty_schema r.methods) r.events)
        (get_method-add_methods r.methods name)

  add_methods-events :
      (s : InitSchema) (m : Map String (MethodEntry H)) → (add_methods s m).events ≡ s.events
  unfolding add_methods add_method
  add_methods-events s [] = refl
  add_methods-events s ((name, e) ∷ m) = add_methods-events s m

  -- The schema announces exactly the events of the registry.
  pub get_event-build_schema :
      (r : HandlerRegistry H) (name : String)
      → get_event (build_schema r) name ≡ event_of (get_event_id r name)
  unfolding build_schema get_event_id
  get_event-build_schema r name =
      get_event-add_events (add_methods empty_schema r.methods) r.events name
        (add_methods-events empty_schema r.methods)

  announced_entry :
      (o : Option (MethodEntry H)) (m : MethodSchema)
      → schema_of o ≡ some m
      → (e : MethodEntry H) × (o ≡ some e) × (e.id ≡ m.id) × (e.response_type ≡ m.response)
  announced_entry none m h = cc
  announced_entry (some e) m h = (e, refl, ground arith, ground arith)

  -- The entry behind an announcement.
  entry_of :
      (r : HandlerRegistry H) (name : String) (m : MethodSchema)
      → get_method (build_schema r) name ≡ some m
      → (e : MethodEntry H) × (lookup text_key name r.methods ≡ some e)
        × (e.id ≡ m.id)
        × (e.response_type ≡ m.response)
  entry_of r name m h =
      announced_entry (lookup text_key name r.methods) m (sym (get_method-build_schema r name) ∙ h)

  -- The id of an entry leads back to it.
  entry_by_id :
      (r : HandlerRegistry H) (name : String) (e : MethodEntry H) (id : ℕ)
      → lookup number_key id r.id_to_name ≡ some name
      → lookup text_key name r.methods ≡ some e
      → entry_by_name r (get_method_name r id) ≡ some e
  unfolding entry_by_name get_method_name
  entry_by_id r name e id known found = rw known found

  module _ {S : Type 0} (call : H → S → Result (Unit {0}) × S) where
    -- What the parent may rely on: an announced id is a valid method id of the wire, no other method is
    -- announced under it, and calling it runs a handler of that name, with the announced response type.
    abbrev pub Answers : HandlerRegistry H → String → MethodSchema → Type 0
    Answers r name m =
        (1 ≤ m.id)
        × (m.id < auth_method_id)
        × ((other : String) (n : MethodSchema)
            → get_method (build_schema r) other ≡ some n
            → n.id ≡ m.id
            → other ≡ name)
        × (get_response_type_by_id r m.id ≡ some m.response)
        × ((handler : H) × (get_handler r name ≡ some handler)
            × ((s : S) → dispatch call r m.id s ≡ call handler s))

    response_by_id :
        (r : HandlerRegistry H) (e : MethodEntry H) (m : MethodSchema)
        → entry_by_name r (get_method_name r m.id) ≡ some e
        → e.response_type ≡ m.response
        → get_response_type_by_id r m.id ≡ some m.response
    unfolding get_response_type_by_id
    response_by_id r e m by_id same = rw by_id (ap some same)

    handler_by_name :
        (r : HandlerRegistry H) (name : String) (e : MethodEntry H)
        → lookup text_key name r.methods ≡ some e
        → get_handler r name ≡ some e.handler
    unfolding get_handler
    handler_by_name r name e found = rw found refl

    dispatch_entry :
        (r : HandlerRegistry H) (e : MethodEntry H) (id : ℕ)
        → entry_by_name r (get_method_name r id) ≡ some e
        → (s : S) → dispatch call r id s ≡ call e.handler s
    unfolding dispatch
    dispatch_entry r e id by_id s = rw by_id refl

    -- For a registry of at most 65533 registrations, whatever method its schema announces is answered as
    -- announced.
    pub build_schema-Answers :
        (rs : List (Registration H)) (name : String) (m : MethodSchema)
        → length rs + 2 < 2 ^ 16
        → get_method (build_schema (register_all rs)) name ≡ some m
        → Answers (register_all rs) name m
    build_schema-Answers rs name m fits announced =
        let r = register_all rs in
        let v = register_all-IsValid rs (omega arith) in
        let (e, found, same_id, same_type) = entry_of r name m announced in
        let known =
          subst (λ id. lookup number_key id r.id_to_name ≡ some name) same_id
            (v.names_known name e found) in
        let by_id = entry_by_id r name e m.id known found in
        (
          omega (arith, v.ids_given name e found),
          omega (arith, v.ids_given name e found),
          λ other n told same.
              let (f, found', same_id', same_type') = entry_of r other n told in
              let known' =
                subst (λ id. lookup number_key id r.id_to_name ≡ some other) (same_id' ∙ same)
                  (v.names_known other f found') in
              some_inj (sym known' ∙ known),
          response_by_id r e m by_id same_type,
          (e.handler, handler_by_name r name e found, λ s. dispatch_entry r e m.id by_id s),
        )
