-- ===== src/Client/Session/Typed.antt =====
-- The headers of all that a session hands to its writer.
use procwire_rust.Base.{
  ℕ, ◌+◌, ◌^◌, ◌%◌, ◌<◌, ◌≡◌, ◌≢◌, refl, sym, subst, some, List, [], ◌∷◌, arith, length, map, All,
  append-nil,
}
use procwire_rust.Error.{Result}
use procwire_rust.Protocol.Wire.{Header, InRange, encode, decode}
use procwire_rust.Protocol.Wire.RoundTrip.{decode-encode}
use procwire_rust.Protocol.Frame.{Frame}
use procwire_rust.Protocol.FrameBuffer.Sound.{IsFrame}
use procwire_rust.Writer.Defs.{OutboundFrame, new}
use procwire_rust.Handler.Context.{FrameSender}
use procwire_rust.Handler.Registry.Ids.{Registration, register_all}
use procwire_rust.Handler.Registry.EventIds.{event_ids_fit}
use procwire_rust.Client.Session.{Session, start, Reach}
use procwire_rust.Client.Session.Answered.{IsSound}
use procwire_rust.Client.Session.Account.{Reach-Answered}
use procwire_rust.EndToEnd.{outbound}

-- The header bytes are those of a header whose fields fit their widths, and they are read back as it. It
-- has a method id and no reserved flag, and its length is that of the payload, cut to 32 bits.
pub record IsTyped (f : OutboundFrame) : Type 0 where
  pub header : Header
  pub encoded : f.header ≡ encode header
  pub decoded : decode f.header ≡ some header
  pub in_range : InRange header
  pub method_used : header.method_id ≢ 0
  pub flags_allowed : header.flags < 2 ^ 6
  pub length_cut : header.payload_length ≡ length f.payload % 2 ^ 32

IsSound-IsTyped : (f : Frame) → IsSound f → IsTyped (outbound f)
unfolding new
IsSound-IsTyped f s =
    let in_range : InRange f.header = omega arith in
    record {
      header = f.header;
      encoded = refl;
      decoded =
          subst (λ bytes. decode bytes ≡ some f.header) (append-nil (encode f.header))
            (decode-encode f.header [] in_range);
      in_range = in_range;
      method_used = s.method_used;
      flags_allowed = s.flags_small;
      length_cut = s.length_true;
    }

All-IsTyped : (fs : List Frame) → All IsSound fs → All IsTyped (map outbound fs)
All-IsTyped [] h = tt
All-IsTyped (f ∷ fs) (h, hs) = (IsSound-IsTyped f h, All-IsTyped fs hs)

module _ {H W T : Type 0} (sender : FrameSender W) (encode_value : T → Result (List ℕ)) where
  -- However the tasks and the events of a session take turns on frames that keep the wire contract:
  -- every frame that the writer has accepted has the bytes of a well-formed header, with fields that
  -- fit their widths, a method id, no reserved flag, and the length of the payload, cut to 32 bits. The
  -- registry has fewer than 65,535 registrations.
  pub Reach-IsTyped :
      (rs : List (Registration H)) (k limit : ℕ) (writer : W) (frames : List Frame)
      (s : Session W T)
      → length rs + 1 < 2 ^ 16
      → sender.accepted writer ≡ []
      → All (IsFrame k) frames
      → Reach (register_all rs) sender encode_value (start limit writer) frames s
      → All IsTyped (sender.accepted s.writer)
  Reach-IsTyped rs k limit writer frames s few nothing valid reach =
      let (sent, v) =
        Reach-Answered (register_all rs) sender encode_value k limit writer frames s
          (event_ids_fit rs few) nothing valid reach in
      subst (All IsTyped) (sym v.accepted) (All-IsTyped sent v.sound)
