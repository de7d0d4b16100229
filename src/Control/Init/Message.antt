-- ===== src/Control/Init/Message.antt =====
-- src/control/init.rs: the `$init` message. A `HashMap` is walked in no order that the code relies on;
-- here it is from the back.
use procwire_rust.Base.{ℕ, List, [], ◌∷◌}
use procwire_rust.Base.Text.{codes}
use procwire_rust.Base.Assoc.{Map, text_key, insert}
use procwire_rust.Control.Json.{Json}
use procwire_rust.Control.Init.{
  ResponseType, result, stream, ack, no_response, MethodSchema, EventSchema, InitSchema,
}
use Prim.Native.String.{String}

-- `#[serde(rename_all = "lowercase")]`
unfoldable pub response_text : ResponseType → List ℕ
response_text result = codes "result"
response_text stream = codes "stream"
response_text ack = codes "ack"
response_text no_response = codes "none"

abbrev pub protocol_version : List ℕ
protocol_version = codes "1.0.0"

module _ (J : Json) where
  unfoldable pub method_value : MethodSchema → J.Value
  unfolding response_text
  method_value m =
      J.object (("id", J.number m.id) ∷ ("response", J.text (response_text m.response)) ∷ [])

  unfoldable pub event_value : EventSchema → J.Value
  event_value e = J.object (("id", J.number e.id) ∷ [])

  unfoldable pub methods_map : Map String MethodSchema → Map String J.Value
  unfolding method_value
  methods_map [] = []
  methods_map ((name, m) ∷ ms) = insert text_key name (method_value m) (methods_map ms)

  unfoldable pub events_map : Map String EventSchema → Map String J.Value
  unfolding event_value
  events_map [] = []
  events_map ((name, e) ∷ es) = insert text_key name (event_value e) (events_map es)

  -- `"schema": { ... }`
  unfoldable pub schema_value : InitSchema → J.Value
  unfolding methods_map events_map
  schema_value schema = J.object (
      ("methods", J.object (methods_map schema.methods))
      ∷ ("events", J.object (events_map schema.events))
      ∷ [])

  -- `msg` of `build_init_message`
  unfoldable pub init_value : List ℕ → InitSchema → J.Value
  unfolding schema_value
  init_value pipe_path schema = J.object (
      ("jsonrpc", J.text (codes "2.0"))
      ∷ ("method", J.text (codes "$init"))
      ∷ (
        "params",
        J.object (
            ("pipe", J.text pipe_path)
            ∷ ("schema", schema_value schema)
            ∷ ("version", J.text protocol_version)
            ∷ []),
      )
      ∷ [])

  unfoldable pub build_init_message : List ℕ → InitSchema → List ℕ
  unfolding init_value
  build_init_message pipe_path schema = J.to_string (init_value pipe_path schema)
