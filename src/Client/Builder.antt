-- ===== src/Client/Builder.antt =====
-- src/client.rs, `ClientBuilder`: the settings of a client, and the token that it starts with. A text is
-- the list of its bytes; the environment variable PROCWIRE_TOKEN is an argument.
pub mod Limits
pub mod Started
use procwire_rust.Base.{ℕ, min, Option, none, some, List, [], ◌∷◌}
use procwire_rust.Protocol.Wire.{default_max_payload_size, absolute_max_payload_size}
use procwire_rust.Writer.Defs.{WriterConfig, default_config}
use procwire_rust.Control.Init.{result, stream, ack}
use procwire_rust.Handler.Registry as Registry
use procwire_rust.Handler.Registry.{HandlerRegistry, register}
use procwire_rust.Error.{Result}
use procwire_rust.Control.Json.{Json}
use procwire_rust.Control.Stdio.{Stdout}
use procwire_rust.Transport.Path.{Env}
use procwire_rust.Transport.Unix.{Os}
use procwire_rust.Client.Start as Start
use procwire_rust.Client.Start.{World, Client}
use Prim.Native.String.{String}

abbrev pub default_max_concurrent_handlers : ℕ
default_max_concurrent_handlers = 256

pub record ClientBuilder (H : Type 0) : Type 0 where
  pub registry : HandlerRegistry H
  pub writer_config : WriterConfig
  pub max_concurrent_handlers : ℕ
  pub max_payload_size : ℕ
  pub auth_token : Option (List ℕ)

module _ {H : Type 0} where
  abbrev pub new : ClientBuilder H
  new = record {
    registry = Registry.new;
    writer_config = default_config;
    max_concurrent_handlers = default_max_concurrent_handlers;
    max_payload_size = default_max_payload_size;
    auth_token = none;
  }

  unfoldable pub handle : ClientBuilder H → String → H → ClientBuilder H
  unfolding register
  handle b name handler = record b { registry = register b.registry name result handler }

  unfoldable pub handle_stream : ClientBuilder H → String → H → ClientBuilder H
  unfolding register
  handle_stream b name handler = record b { registry = register b.registry name stream handler }

  unfoldable pub handle_ack : ClientBuilder H → String → H → ClientBuilder H
  unfolding register
  handle_ack b name handler = record b { registry = register b.registry name ack handler }

  unfoldable pub event : ClientBuilder H → String → ClientBuilder H
  unfolding Registry.register_event
  event b name = record b { registry = Registry.register_event b.registry name }

  abbrev pub max_concurrent_handlers : ClientBuilder H → ℕ → ClientBuilder H
  max_concurrent_handlers b limit = record b { max_concurrent_handlers = limit }

  abbrev pub max_pending_frames : ClientBuilder H → ℕ → ClientBuilder H
  max_pending_frames b limit = record b {
    writer_config = record b.writer_config { max_pending_frames = limit };
  }

  abbrev pub channel_capacity : ClientBuilder H → ℕ → ClientBuilder H
  channel_capacity b capacity = record b {
    writer_config = record b.writer_config { channel_capacity = capacity };
  }

  abbrev pub backpressure_timeout : ClientBuilder H → ℕ → ClientBuilder H
  backpressure_timeout b timeout = record b {
    writer_config = record b.writer_config { backpressure_timeout = timeout };
  }

  unfoldable pub max_payload_size : ClientBuilder H → ℕ → ClientBuilder H
  max_payload_size b size = record b { max_payload_size = min size absolute_max_payload_size }

  abbrev pub auth_token : ClientBuilder H → List ℕ → ClientBuilder H
  auth_token b token = record b { auth_token = some token }

-- `filter(|t| !t.is_empty())`
abbrev pub unless_empty : Option (List ℕ) → Option (List ℕ)
unless_empty none = none
unless_empty (some []) = none
unless_empty (some (b ∷ bs)) = some (b ∷ bs)

abbrev pub or_else : Option (List ℕ) → Option (List ℕ) → Option (List ℕ)
or_else none other = other
or_else (some token) other = some token

-- The token that `start` hands on.
unfoldable pub start_token : Option (List ℕ) → Option (List ℕ) → Option (List ℕ)
start_token set from_env = unless_empty (or_else set from_env)

-- `start`, with PROCWIRE_TOKEN as the second argument. The writer's settings go to the writer task.
unfoldable pub build_and_start :
    {S L C O H : Type 0}
    → Os S L C
    → Stdout O
    → Json
    → ClientBuilder H
    → Option (List ℕ)
    → Env
    → Option ℕ
    → Result (Unit {0})
    → World S O
    → Option (Result (Client H)) × World S O
unfolding start_token Start.start
build_and_start os out J b from_env = Start.start os out J (record {
  registry = b.registry;
  max_concurrent_handlers = b.max_concurrent_handlers;
  max_payload_size = b.max_payload_size;
  auth_token = start_token b.auth_token from_env;
})
