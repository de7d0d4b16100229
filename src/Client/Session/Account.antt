-- ===== src/Client/Session/Account.antt =====
-- The account of a session holds whatever happens in it.
use procwire_rust.Base.{
  ℕ, ◌^◌, ◌≤◌, ◌<◌, ◌≡◌, refl, List, [], ◌∷◌, arith, All, All-before, All-behind, inl, some,
}
use Prim.Native.String.{String}
use procwire_rust.Error.{Result}
use procwire_rust.Protocol.Frame.{Frame}
use procwire_rust.Protocol.FrameBuffer.Sound.{IsFrame}
use procwire_rust.Handler.Context.{FrameSender}
use procwire_rust.Handler.Registry.{HandlerRegistry, get_event_id}
use procwire_rust.Client.Dispatch.{Runtime}
use procwire_rust.Client.Session.{
  Session, start, uses, cancels, completes, frees, emits, Reach, here, arrives, moves,
}
use procwire_rust.Client.Session.Answered.{Answered, uses-Answered}
use procwire_rust.Client.Session.Requests.{arrive-Answered}
use procwire_rust.Client.Session.Events.{emits-Answered}

module _ {H W T : Type 0} (registry : HandlerRegistry H) (sender : FrameSender W)
    (encode : T → Result (List ℕ)) where
  module _ {frames sent : List Frame} {s : Session W T}
      (v : Answered registry sender encode frames sent s) where
    completes-Answered :
        (runtime : Runtime)
        → Answered registry sender encode frames sent (record s { runtime = runtime })
    completes-Answered runtime = record {
      accepted = v.accepted;
      once = v.once;
      known = v.known;
      replies = v.replies;
      ids = v.ids;
      sound = v.sound;
    }

  -- Whatever happens in a session, with frames that keep the wire contract ...
  pub Reach-Answered :
      (k limit : ℕ) (writer : W) (frames : List Frame) (s : Session W T)
      → ((event : String) (id : ℕ)
          → get_event_id registry event ≡ some id
          → (1 ≤ id) × (id < 2 ^ 16))
      → sender.accepted writer ≡ []
      → All (IsFrame k) frames
      → Reach registry sender encode (start limit writer) frames s
      → (sent : List Frame) × Answered registry sender encode frames sent s
  Reach-Answered k limit writer frames s event_ids empty valid reach = go reach valid
    where
      go :
          {frames : List Frame} {s : Session W T}
          → Reach registry sender encode (start limit writer) frames s
          → All (IsFrame k) frames
          → (sent : List Frame) × Answered registry sender encode frames sent s
      go here valid = (
        [],
        record {
          accepted = empty;
          once = λ m r. omega arith;
          known = λ m r. omega arith;
          replies = λ m r. inl refl;
          ids = tt;
          sound = tt;
        },
      )
      go (arrives {frames} r frame clones) valid =
          let (sent, v) = go r (All-before (IsFrame k) frames (frame ∷ []) valid) in
          (
            sent,
            arrive-Answered registry sender encode v k frame clones
                (All-behind (IsFrame k) frames (frame ∷ []) valid).0,
          )
      go (moves r (uses st m)) valid =
          let (sent, v) = go r valid in uses-Answered registry sender encode v st m
      go (moves r frees) valid = let (sent, v) = go r valid in (sent, completes-Answered v _)
      go (moves r (completes n)) valid =
          let (sent, v) = go r valid in (sent, completes-Answered v _)
      go (moves r (cancels q n found)) valid =
          let (sent, v) = go r valid in (sent, completes-Answered v _)
      go (moves r (emits event payload)) valid =
          let (sent, v) = go r valid in
          emits-Answered registry sender encode v event_ids event payload
