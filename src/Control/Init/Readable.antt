-- ===== src/Control/Init/Readable.antt =====
-- What the parent reads in the `$init` message is the schema.
use procwire_rust.Base.{
  ℕ, ◌≡◌, refl, ◌∙◌, Bool, true, false, Option, none, some, List, [], ◌∷◌, if◌then◌else◌,
}
use procwire_rust.Base.Text.{codes, same_codes}
use procwire_rust.Base.Assoc.{Map, text_key, lookup, lookup-insert}
use procwire_rust.Control.Json.{Json, IsLawful}
use procwire_rust.Control.Init.{
  ResponseType, result, stream, ack, no_response, MethodSchema, EventSchema, InitSchema, get_method,
  get_event,
}
use procwire_rust.Control.Init.Message.{
  response_text, protocol_version, method_value, event_value, methods_map, events_map, schema_value,
  init_value, build_init_message,
}
use Prim.Native.String.{String}
use text.Mathlib.Text.{◌==◌ as str_eq}

-- The parent's reading of a response type.
abbrev pub read_response : List ℕ → Option ResponseType
read_response s =
    if same_codes s (codes "result")
    then some result
    else if same_codes s (codes "stream")
    then some stream
    else if same_codes s (codes "ack")
    then some ack
    else if same_codes s (codes "none")
    then some no_response
    else none

-- Option's bind.
infixl 5 ◌>>=◌
abbrev pub ◌>>=◌ {ℓ κ} : {A : Type ℓ} {B : Type κ} → Option A → (A → Option B) → Option B
none >>= f = none
some a >>= f = f a

-- A choice is read on both sides.
if-bind {ℓ κ} :
    {A : Type ℓ} {B : Type κ} (b : Bool) (x : A) (o : Option A) (f : A → Option B) (y : B)
    (o' : Option B)
    → f x ≡ some y
    → (o >>= f) ≡ o'
    → ((if b then some x else o) >>= f) ≡ (if b then some y else o')
if-bind true x o f y o' h h' = h
if-bind false x o f y o' h h' = h'

bind-some {ℓ κ} :
    {A : Type ℓ} {B : Type κ} (o : Option A) (f : A → Option B)
    → ((o >>= λ v. some v) >>= f) ≡ (o >>= f)
bind-some none f = refl
bind-some (some a) f = refl

module _ (J : Json) where
  -- The value at a chain of keys.
  abbrev pub at_keys : J.Value → List String → Option J.Value
  at_keys v [] = some v
  at_keys v (k ∷ ks) = do v' ← J.get v k; at_keys v' ks

  abbrev pub read_method : J.Value → Option MethodSchema
  read_method v = do
    id ← (J.get v "id" >>= J.as_u64)
    response ← (J.get v "response" >>= J.as_str)
    r ← read_response response
    some (record { id = id; response = r })

  abbrev pub read_event : J.Value → Option EventSchema
  read_event v = do id ← (J.get v "id" >>= J.as_u64); some (record { id = id })

  -- What can be read in a message about a pipe and a schema.
  pub record Announces (message : J.Value) (pipe_path : List ℕ) (schema : InitSchema) : Type 0 where
    pub kind : (J.get message "method" >>= J.as_str) ≡ some (codes "$init")
    pub pipe : (at_keys message ("params" ∷ "pipe" ∷ []) >>= J.as_str) ≡ some pipe_path
    pub version : (at_keys message ("params" ∷ "version" ∷ []) >>= J.as_str) ≡ some protocol_version
    pub methods :
        (name : String)
        → (at_keys message ("params" ∷ "schema" ∷ "methods" ∷ name ∷ []) >>= read_method)
          ≡ get_method schema name
    pub events :
        (name : String)
        → (at_keys message ("params" ∷ "schema" ∷ "events" ∷ name ∷ []) >>= read_event)
          ≡ get_event schema name

  module _ (lawful : IsLawful J) where
    read_response-response_text : (r : ResponseType) → read_response (response_text r) ≡ some r
    unfolding response_text same_codes
    read_response-response_text result = refl
    read_response-response_text stream = refl
    read_response-response_text ack = refl
    read_response-response_text no_response = refl

    read_method-method_value : (m : MethodSchema) → read_method (method_value J m) ≡ some m
    unfolding method_value lookup
    read_method-method_value m =
        simp (lawful.get-object, lawful.as_u64-number, lawful.as_str-text)
          (rw (read_response-response_text m.response) refl)

    read_event-event_value : (e : EventSchema) → read_event (event_value J e) ≡ some e
    unfolding event_value lookup
    read_event-event_value e = rw (lawful.get-object, lawful.as_u64-number) refl

    read_method-lookup :
        (name : String) (ms : Map String MethodSchema)
        → (lookup text_key name (methods_map J ms) >>= read_method) ≡ lookup text_key name ms
    unfolding methods_map lookup
    read_method-lookup name [] = refl
    read_method-lookup name ((k, m) ∷ ms) =
        rw (lookup-insert text_key k name (method_value J m) (methods_map J ms)) (
          if-bind (str_eq k name) (method_value J m) (lookup text_key name (methods_map J ms))
            read_method m (lookup text_key name ms) (read_method-method_value m)
            (read_method-lookup name ms))

    read_event-lookup :
        (name : String) (es : Map String EventSchema)
        → (lookup text_key name (events_map J es) >>= read_event) ≡ lookup text_key name es
    unfolding events_map lookup
    read_event-lookup name [] = refl
    read_event-lookup name ((k, e) ∷ es) =
        rw (lookup-insert text_key k name (event_value J e) (events_map J es)) (
          if-bind (str_eq k name) (event_value J e) (lookup text_key name (events_map J es))
            read_event e (lookup text_key name es) (read_event-event_value e)
            (read_event-lookup name es))

    -- The message that is sent is printed from a value in which the parent reads the pipe, the
    -- version, and under each name exactly the method and the event that the schema has there.
    pub build_init_message-Announces :
        (pipe_path : List ℕ) (schema : InitSchema)
        → (v : J.Value) × (build_init_message J pipe_path schema ≡ J.to_string v)
          × Announces v pipe_path schema
    unfolding build_init_message init_value schema_value get_method get_event lookup
    build_init_message-Announces pipe_path schema = (
      init_value J pipe_path schema,
      refl,
      record {
        kind = simp (lawful.get-object, lawful.as_str-text);
        pipe = simp (lawful.get-object, lawful.as_str-text);
        version = simp (lawful.get-object, lawful.as_str-text);
        methods = λ name. simp (lawful.get-object) (
            bind-some (lookup text_key name (methods_map J schema.methods)) read_method
            ∙ read_method-lookup name schema.methods);
        events = λ name. simp (lawful.get-object) (
            bind-some (lookup text_key name (events_map J schema.events)) read_event
            ∙ read_event-lookup name schema.events);
      },
    )
