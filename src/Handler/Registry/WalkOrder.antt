-- ===== src/Handler/Registry/WalkOrder.antt =====
-- The schema does not depend on the order in which the maps of the registry are walked.
use procwire_rust.Base.{ℕ, ◌≡◌, sym, ap, ◌∙◌, List, [], ◌∷◌}
use procwire_rust.Base.Assoc.{Map, text_key}
use procwire_rust.Base.MapOrder.{HasDistinctKeys, Perm-SameEntries, insert-HasDistinctKeys}
use procwire_rust.Control.Init.{InitSchema, get_method, get_event}
use procwire_rust.Handler.Registry.{
  MethodEntry, HandlerRegistry, register, register_event, get_event_id, build_schema,
}
use procwire_rust.Handler.Registry.Ids.{Registration, method, event, register_all}
use procwire_rust.Handler.Registry.Announce.{
  schema_of, event_of, get_method-build_schema, get_event-build_schema,
}
use Prim.Native.String.{String}
use mathlib.Core.List.{Permᴰ}
use mathlib.Core.Quot
use mathlib.Core.Quot.{Quot}

-- Two schemas answer every name alike.
abbrev pub SameSchema : InitSchema → InitSchema → Type 0
SameSchema s t =
    ((name : String) → get_method s name ≡ get_method t name)
    × ((name : String) → get_event s name ≡ get_event t name)

-- A schema as the parent sees it, without the order of its entries.
abbrev pub SchemaView : Type 0
SchemaView = Quot SameSchema

abbrev pub view : InitSchema → SchemaView
view s = Quot.mk s

module _ {H : Type 0} where
  register_all-HasDistinctKeys :
      (rs : List (Registration H))
      → HasDistinctKeys text_key (register_all rs).methods
        × HasDistinctKeys text_key (register_all rs).events
  unfolding register register_event
  register_all-HasDistinctKeys [] = (tt, tt)
  register_all-HasDistinctKeys (method name response_type handler ∷ rs) =
      let (methods, events) = register_all-HasDistinctKeys rs in
      (insert-HasDistinctKeys text_key name _ (register_all rs).methods methods, events)
  register_all-HasDistinctKeys (event name ∷ rs) =
      let (methods, events) = register_all-HasDistinctKeys rs in
      (methods, insert-HasDistinctKeys text_key name _ (register_all rs).events events)

  -- Whatever the registrations, and in whatever order the maps of methods and of events are walked,
  -- the schema is one and the same for a reader that asks it by name.
  pub build_schema-view :
      (rs : List (Registration H)) (methods : Map String (MethodEntry H)) (events : Map String ℕ)
      → Permᴰ (register_all rs).methods methods
      → Permᴰ (register_all rs).events events
      → view (build_schema (record (register_all rs) { methods = methods; events = events }))
        ≡ view (build_schema (register_all rs))
  unfolding get_event_id
  build_schema-view rs methods events p q =
      let r = register_all rs in
      let walked : HandlerRegistry H = record r { methods = methods; events = events } in
      let (distinct_methods, distinct_events) = register_all-HasDistinctKeys rs in
      let same_methods = (Perm-SameEntries text_key p distinct_methods).1 in
      let same_events = (Perm-SameEntries text_key q distinct_events).1 in
      Quot.sound (
        λ name.
            get_method-build_schema walked name
            ∙ ap schema_of (sym (same_methods name))
            ∙ sym (get_method-build_schema r name),
        λ name.
            get_event-build_schema walked name
            ∙ ap event_of (sym (same_events name))
            ∙ sym (get_event-build_schema r name),
      )
