-- ===== src/Client/Emit.antt =====
-- src/client.rs, `emit` and `emit_raw`: events that the client sends of itself.
use procwire_rust.Base.{
  ℕ, ◌%◌, ◌^◌, ◌≡◌, ◌⊎◌, inl, inr, ap, refl, Option, none, some, List, [], ◌∷◌, ◌++◌, length,
}
use procwire_rust.Error.{Result, ok, err, protocol, unknown_event}
use procwire_rust.Protocol.Wire.{Header, direction_to_parent}
use procwire_rust.Writer.Defs.{OutboundFrame, new}
use procwire_rust.Control.Init.{get_event}
use procwire_rust.Handler.Context.{FrameSender}
use procwire_rust.Handler.Registry.{HandlerRegistry, get_event_id, build_schema}
use procwire_rust.Handler.Registry.Announce.{get_event-build_schema, event_of}
use Prim.Native.String.{String}

abbrev pub event_header : ℕ → List ℕ → Header
event_header id payload = record {
  method_id = id;
  flags = direction_to_parent;
  request_id = 0;
  payload_length = length payload % 2 ^ 32;
}

-- The frame of an event, told by its numbers.
abbrev pub event_frame : ℕ → List ℕ → OutboundFrame
event_frame id bytes =
    new
      (record { method_id = id; flags = 1; request_id = 0; payload_length = length bytes % 2 ^ 32 })
      bytes

module _ {H W : Type 0} (registry : HandlerRegistry H) (sender : FrameSender W) where
  abbrev pub emit_payload : String → Option ℕ → Result (List ℕ) → W → Result (Unit {0}) × W
  emit_payload event none payload s = (err (protocol (unknown_event event)), s)
  emit_payload event (some id) (err e) s = (err e, s)
  emit_payload event (some id) (ok payload) s =
      sender.send s (new (event_header id payload) payload)

  unfoldable pub emit_raw : String → List ℕ → W → Result (Unit {0}) × W
  emit_raw event payload s = emit_payload event (get_event_id registry event) (ok payload) s

  -- `encode` stands for `MsgPackCodec::encode`
  unfoldable pub emit :
      {T : Type 0} → (T → Result (List ℕ)) → String → T → W → Result (Unit {0}) × W
  emit encode event v s = emit_payload event (get_event_id registry event) (encode v) s

  -- What emitting may do: the frame goes out under the id that the schema announces for the event, with
  -- the flag of the direction to the parent and no other, so that it is an event and no response, with
  -- request id 0 and the length of its payload; or it fails and nothing goes out: by its name
  -- if the schema has no such event, else because the value does not encode or the writer refuses.
  abbrev pub Emits : String → Result (List ℕ) → W → Result (Unit {0}) × W → Type 0
  Emits event payload s (ok u, s') =
      (id : ℕ) × (bytes : List ℕ) × (get_event (build_schema registry) event
        ≡ some (record { id = id }))
      × (payload ≡ ok bytes)
      × (sender.accepted s' ≡ sender.accepted s ++ (event_frame id bytes ∷ []))
  Emits event payload s (err e, s') =
      (sender.accepted s' ≡ sender.accepted s)
      × (((get_event (build_schema registry) event ≡ none) × (e ≡ protocol (unknown_event event)))
          ⊎ ((id : ℕ) × (get_event (build_schema registry) event ≡ some (record { id = id }))
              × ((payload ≡ err e)
                  ⊎ ((bytes : List ℕ) × (payload ≡ ok bytes)
                      × ((sender.send s (event_frame id bytes)).0 ≡ err e)))))

  emit_payload-Emits :
      (event : String) (found : Option ℕ) (payload : Result (List ℕ)) (s : W)
      → get_event (build_schema registry) event ≡ event_of found
      → Emits event payload s (emit_payload event found payload s)
  emit_payload-Emits event none payload s e = (refl, inl (e, refl))
  emit_payload-Emits event (some id) (err x) s e = (refl, inr (id, e, inl refl))
  emit_payload-Emits event (some id) (ok bytes) s e =
      go (sender.send s (new (event_header id bytes) bytes)) refl
    where
      go :
          (r : Result (Unit {0}) × W)
          → sender.send s (new (event_header id bytes) bytes) ≡ r
          → Emits event (ok bytes) s r
      go (ok u, s') h = (id, bytes, e, refl, sender.send_accepts s s' _ h)
      go (err x, s') h =
          (sender.send_refuses s s' _ x h, inr (id, e, inr (bytes, refl, ap (λ r. r.0) h)))

  -- `emit` sends the encoded value and `emit_raw` its bytes in one frame, under the id that the schema
  -- announces for the event and request id 0, flagged as to the parent and nothing else; or nothing goes
  -- out, because the schema has no such event, the value does not encode, or the writer refuses.
  pub emit-Emits :
      {T : Type 0} (encode : T → Result (List ℕ)) (event : String) (v : T) (bytes : List ℕ) (s : W)
      → Emits event (encode v) s (emit encode event v s)
        × Emits event (ok bytes) s (emit_raw event bytes s)
  unfolding emit emit_raw
  emit-Emits encode event v bytes s = (
    emit_payload-Emits event (get_event_id registry event) (encode v) s
        (get_event-build_schema registry event),
    emit_payload-Emits event (get_event_id registry event) (ok bytes) s
        (get_event-build_schema registry event),
  )
