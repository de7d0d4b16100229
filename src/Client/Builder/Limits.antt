-- ===== src/Client/Builder/Limits.antt =====
-- What holds of every client that a builder makes.
use procwire_rust.Base.{ℕ, ◌≤◌, ◌≡◌, ◌≢◌, refl, List, [], ◌∷◌, arith}
use procwire_rust.Error.{err, protocol, payload_exceeds_absolute}
use procwire_rust.Protocol.Wire.{Header, validate, absolute_max_payload_size}
use procwire_rust.Control.Init.{result, stream, ack}
use procwire_rust.Handler.Registry.Ids as Ids
use procwire_rust.Handler.Registry.Ids.{Registration, register_all, method}
use procwire_rust.Client.Builder.{
  ClientBuilder, new, handle, handle_stream, handle_ack, event, max_concurrent_handlers,
  max_pending_frames, channel_capacity, backpressure_timeout, max_payload_size, auth_token,
}
use Prim.Native.String.{String}

-- One call of the builder's interface.
pub data Setting (H : Type 0) : Type 0 where
  with_handler : String → H → Setting H
  with_stream_handler : String → H → Setting H
  with_ack_handler : String → H → Setting H
  with_event : String → Setting H
  with_max_concurrent : ℕ → Setting H
  with_max_pending : ℕ → Setting H
  with_capacity : ℕ → Setting H
  with_timeout : ℕ → Setting H
  with_payload_limit : ℕ → Setting H
  with_token : List ℕ → Setting H

never_absolute :
    (h : Header) (m n : ℕ)
    → m ≤ absolute_max_payload_size
    → validate h m ≢ err (protocol (payload_exceeds_absolute n))
unfolding validate
never_absolute h m n le e = ground arith

module _ {H : Type 0} where
  abbrev pub apply : Setting H → ClientBuilder H → ClientBuilder H
  apply (with_handler name h) b = handle b name h
  apply (with_stream_handler name h) b = handle_stream b name h
  apply (with_ack_handler name h) b = handle_ack b name h
  apply (with_event name) b = event b name
  apply (with_max_concurrent n) b = max_concurrent_handlers b n
  apply (with_max_pending n) b = max_pending_frames b n
  apply (with_capacity n) b = channel_capacity b n
  apply (with_timeout n) b = backpressure_timeout b n
  apply (with_payload_limit n) b = max_payload_size b n
  apply (with_token t) b = auth_token b t

  -- The settings, the last one first.
  abbrev pub configure : List (Setting H) → ClientBuilder H
  configure [] = new
  configure (s ∷ ss) = apply s (configure ss)

  -- What a setting registers.
  abbrev pub registrations : List (Setting H) → List (Registration H)
  registrations [] = []
  registrations (with_handler name h ∷ ss) = method name result h ∷ registrations ss
  registrations (with_stream_handler name h ∷ ss) = method name stream h ∷ registrations ss
  registrations (with_ack_handler name h ∷ ss) = method name ack h ∷ registrations ss
  registrations (with_event name ∷ ss) = Ids.event name ∷ registrations ss
  registrations (s ∷ ss) = registrations ss

  within : (ss : List (Setting H)) → (configure ss).max_payload_size ≤ absolute_max_payload_size
  unfolding max_payload_size handle handle_stream handle_ack event
  within [] = omega arith
  within (with_payload_limit n ∷ ss) = omega arith
  within (s ∷ ss) = within ss

  pub registers :
      (ss : List (Setting H)) → (configure ss).registry ≡ register_all (registrations ss)
  unfolding max_payload_size handle handle_stream handle_ack event
  registers [] = refl
  registers (with_handler name h ∷ ss) = rw (registers ss) refl
  registers (with_stream_handler name h ∷ ss) = rw (registers ss) refl
  registers (with_ack_handler name h ∷ ss) = rw (registers ss) refl
  registers (with_event name ∷ ss) = rw (registers ss) refl
  registers (s ∷ ss) = registers ss

  -- Whatever calls a builder gets, its registry is that of the handlers and events among them in their
  -- order, and its payload limit is within the absolute one, so that a frame buffer with this limit
  -- never refuses a header for the absolute limit.
  pub configure_lem :
      (ss : List (Setting H))
      → ((configure ss).registry ≡ register_all (registrations ss))
        × ((configure ss).max_payload_size ≤ absolute_max_payload_size)
        × ((h : Header) (n : ℕ)
            → validate h (configure ss).max_payload_size
              ≢ err (protocol (payload_exceeds_absolute n)))
  configure_lem ss = (registers ss, within ss, λ h n. never_absolute h _ n (within ss))
