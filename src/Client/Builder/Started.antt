-- ===== src/Client/Builder/Started.antt =====
-- The client that a configured builder starts.
use procwire_rust.Base.{ℕ, Option, List}
use procwire_rust.Protocol.Frame.{Frame}
use procwire_rust.Control.Json.{Json}
use procwire_rust.Handler.Registry.{HandlerRegistry}
use procwire_rust.Client.Builder.{start_token}
use procwire_rust.Client.Builder.Limits.{Setting, configure}
use procwire_rust.Client.Start.{Settings}

-- What the calls of the builder amount to, around a registry.
abbrev pub settled :
    {H : Type 0} → List (Setting H) → Option (List ℕ) → HandlerRegistry H → Settings H
settled ss from_env registry = record {
  registry = registry;
  max_concurrent_handlers = (configure ss).max_concurrent_handlers;
  max_payload_size = (configure ss).max_payload_size;
  auth_token = start_token (configure ss).auth_token from_env;
}
