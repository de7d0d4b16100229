-- ===== src/Handler/Registry.antt =====
-- src/handler/registry.rs: methods and events by name, and the ids under which the parent calls them.
-- A handler is a value of the type `H`; what calling one does is an argument of `dispatch`.
pub mod Ids
pub mod EventIds
pub mod Announce
pub mod WalkOrder
use procwire_rust.Base.{ℕ, ◌+◌, ◌%◌, ◌^◌, Option, none, some, List, [], ◌∷◌}
use procwire_rust.Base.Assoc.{Map, number_key, text_key, lookup, insert}
use procwire_rust.Error.{Result, ok, err, handler_not_found}
use procwire_rust.Control.Init.{
  ResponseType, InitSchema, MethodSchema, EventSchema, empty_schema, add_method, add_event,
}
use Prim.Native.String.{String}

pub record MethodEntry (H : Type 0) : Type 0 where
  pub handler : H
  pub response_type : ResponseType
  pub id : ℕ

pub record HandlerRegistry (H : Type 0) : Type 0 where
  pub methods : Map String (MethodEntry H)
  pub events : Map String ℕ
  pub next_method_id : ℕ
  pub next_event_id : ℕ
  pub id_to_name : Map ℕ String

-- `+= 1` on a u16: a build with overflow checks panics where this wraps.
abbrev pub next_id : ℕ → ℕ
next_id id = (id + 1) % 2 ^ 16

unfoldable pub add_events : InitSchema → Map String ℕ → InitSchema
unfolding add_event
add_events s [] = s
add_events s ((name, id) ∷ m) = add_event (add_events s m) name id

module _ {H : Type 0} where
  abbrev pub new : HandlerRegistry H
  new = record { methods = []; events = []; next_method_id = 1; next_event_id = 1; id_to_name = [] }

  unfoldable pub register : HandlerRegistry H → String → ResponseType → H → HandlerRegistry H
  register r name response_type handler =
      let id = r.next_method_id in
      let entry : MethodEntry H = record {
        handler = handler;
        response_type = response_type;
        id = id;
      } in
      record r {
        next_method_id = next_id id;
        methods = insert text_key name entry r.methods;
        id_to_name = insert number_key id name r.id_to_name;
      }

  unfoldable pub register_event : HandlerRegistry H → String → HandlerRegistry H
  register_event r name =
      let id = r.next_event_id in
      record r { next_event_id = next_id id; events = insert text_key name id r.events }

  abbrev pub entry_handler : Option (MethodEntry H) → Option H
  entry_handler none = none
  entry_handler (some e) = some e.handler

  abbrev pub entry_response_type : Option (MethodEntry H) → Option ResponseType
  entry_response_type none = none
  entry_response_type (some e) = some e.response_type

  abbrev pub entry_id : Option (MethodEntry H) → Option ℕ
  entry_id none = none
  entry_id (some e) = some e.id

  -- `self.id_to_name.get(&id).and_then(|name| self.methods.get(name))`
  unfoldable pub entry_by_name : HandlerRegistry H → Option String → Option (MethodEntry H)
  entry_by_name r none = none
  entry_by_name r (some name) = lookup text_key name r.methods

  unfoldable pub get_method_name : HandlerRegistry H → ℕ → Option String
  get_method_name r id = lookup number_key id r.id_to_name

  unfoldable pub get_handler : HandlerRegistry H → String → Option H
  get_handler r name = entry_handler (lookup text_key name r.methods)

  unfoldable pub get_handler_by_id : HandlerRegistry H → ℕ → Option H
  unfolding entry_by_name get_method_name
  get_handler_by_id r id = entry_handler (entry_by_name r (get_method_name r id))

  unfoldable pub get_method_id : HandlerRegistry H → String → Option ℕ
  get_method_id r name = entry_id (lookup text_key name r.methods)

  unfoldable pub get_event_id : HandlerRegistry H → String → Option ℕ
  get_event_id r name = lookup text_key name r.events

  unfoldable pub get_response_type : HandlerRegistry H → String → Option ResponseType
  get_response_type r name = entry_response_type (lookup text_key name r.methods)

  unfoldable pub get_response_type_by_id : HandlerRegistry H → ℕ → Option ResponseType
  unfolding entry_by_name get_method_name
  get_response_type_by_id r id = entry_response_type (entry_by_name r (get_method_name r id))

  -- A `HashMap` is walked in no order that the code relies on; here it is from the back.
  unfoldable pub add_methods : InitSchema → Map String (MethodEntry H) → InitSchema
  unfolding add_method
  add_methods s [] = s
  add_methods s ((name, e) ∷ m) = add_method (add_methods s m) name e.id e.response_type

  unfoldable pub build_schema : HandlerRegistry H → InitSchema
  unfolding add_methods add_events
  build_schema r = add_events (add_methods empty_schema r.methods) r.events

-- `call` is `Handler::call` with the payload and the context of the request, `S` what it changes.
module _ {H S : Type 0} (call : H → S → Result (Unit {0}) × S) where
  abbrev pub call_found : ℕ → Option H → S → Result (Unit {0}) × S
  call_found method_id none s = (err (handler_not_found method_id), s)
  call_found method_id (some handler) s = call handler s

  unfoldable pub dispatch : HandlerRegistry H → ℕ → S → Result (Unit {0}) × S
  unfolding get_handler_by_id
  dispatch r method_id s = call_found method_id (get_handler_by_id r method_id) s
