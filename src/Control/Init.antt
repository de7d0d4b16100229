-- ===== src/Control/Init.antt =====
-- src/control/init.rs: the schema of the `$init` message. A `HashMap` is an association list with the
-- newest entry first.
pub mod Message
pub mod Readable
pub mod Legacy
use procwire_rust.Base.{ℕ, Bool, ◌&&◌, Option, [], is_nil}
use procwire_rust.Base.Assoc.{Map, text_key, insert, lookup}
use Prim.Native.String.{String}

pub data ResponseType : Type 0 where
  result stream ack no_response : ResponseType

pub record MethodSchema : Type 0 where
  pub id : ℕ
  pub response : ResponseType

pub record EventSchema : Type 0 where
  pub id : ℕ

pub record InitSchema : Type 0 where
  pub methods : Map String MethodSchema
  pub events : Map String EventSchema

abbrev pub empty_schema : InitSchema
empty_schema = record { methods = []; events = [] }

unfoldable pub add_method : InitSchema → String → ℕ → ResponseType → InitSchema
unfolding insert
add_method s name id response = record s {
  methods = insert text_key name (record { id = id; response = response }) s.methods;
}

unfoldable pub add_event : InitSchema → String → ℕ → InitSchema
unfolding insert
add_event s name id = record s { events = insert text_key name (record { id = id }) s.events }

unfoldable pub get_method : InitSchema → String → Option MethodSchema
unfolding lookup
get_method s name = lookup text_key name s.methods

unfoldable pub get_event : InitSchema → String → Option EventSchema
unfolding lookup
get_event s name = lookup text_key name s.events

abbrev pub is_empty : InitSchema → Bool
is_empty s = is_nil s.methods && is_nil s.events
