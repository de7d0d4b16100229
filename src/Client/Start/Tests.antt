-- ===== src/Client/Start/Tests.antt =====
-- src/client.rs, `start`: a parent behind a stranger; and the end of a client whose frame buffer
-- refuses a header.
use procwire_rust.Base.{ℕ, false, ◌≡◌, refl, some, List, [], ◌∷◌, ◌++◌, arith}
use procwire_rust.Error.{err, protocol, method_id_reserved}
use procwire_rust.Base.Text.{codes}
use procwire_rust.Protocol.FrameBuffer.{with_max_payload, push, extract_all, try_extract_one}
use procwire_rust.Control.Stdin.{ControlAction, Console, open_end, run_control_reader}
use procwire_rust.Control.Stdin.Lines.{end_line}
use procwire_rust.Control.Stdin.Meaning.{ReadAs}
use procwire_rust.Client.Start.Shutdown.{Resolves, wait_for_shutdown-Resolves}
use procwire_rust.Protocol.Wire.{decode, validate}
use procwire_rust.Protocol.Frame.{Frame}
use procwire_rust.Control.Init.{result}
use procwire_rust.Control.Tests.{trees, bytes_out, bytes_out-IsSteady}
use procwire_rust.Handler.Registry.Ids.{method, register_all}
use procwire_rust.Transport.Tests.{FileSystem, process}
use procwire_rust.Client.Auth.{bytes, closed}
use procwire_rust.Client.Start.{connects, World, Client, serve}
use procwire_rust.Client.Builder.Limits.{Setting, with_payload_limit, with_token, with_handler}
use procwire_rust.Client.Start.Serves.{reads_of}

abbrev greeting : Frame
greeting = record {
  header = record { method_id = 0xFFFE; flags = 0; request_id = 0; payload_length = 2 };
  payload = 115 ∷ 51 ∷ [];
}

abbrev request : Frame
request = record {
  header = record { method_id = 1; flags = 0; request_id = 7; payload_length = 1 };
  payload = 0xC0 ∷ [];
}

-- The two frames in three reads.
abbrev cuts : List (List ℕ)
cuts =
    (0xFF ∷ 0xFE ∷ 0 ∷ 0 ∷ 0 ∷ 0 ∷ 0 ∷ [])
    ∷ (0 ∷ 0 ∷ 0 ∷ 2 ∷ 115 ∷ 51 ∷ 0 ∷ 1 ∷ 0 ∷ 0 ∷ 0 ∷ 0 ∷ 7 ∷ 0 ∷ 0 ∷ [])
    ∷ (0 ∷ 1 ∷ 0xC0 ∷ [])
    ∷ []

-- A stranger sends a request, and no token.
abbrev stranger_cuts : List (List ℕ)
stranger_cuts = (0 ∷ 1 ∷ 0 ∷ 0 ∷ 0 ∷ 0 ∷ 7 ∷ 0 ∷ 0 ∷ 0 ∷ 1 ∷ 0xC0 ∷ []) ∷ []

abbrev world : World FileSystem (List ℕ)
world = record {
  transport = λ path. false;
  stdout = [];
  process = process;
  control_reader = false;
  arrivals = connects (reads_of stranger_cuts) ∷ connects (reads_of cuts) ∷ [];
}

abbrev listed : List Frame → Frame → List Frame
listed fs f = fs ++ (f ∷ [])

abbrev calls : List (Setting ℕ)
calls = with_payload_limit 100 ∷ with_token (115 ∷ 51 ∷ []) ∷ with_handler "echo" 10 ∷ []

-- The parent sends a frame and then a header of method 0, which the frame buffer refuses.
abbrev refusing : Client ℕ
refusing = record {
  registry = register_all (method "echo" result 10 ∷ []);
  connection = record {
    reads =
        bytes (0 ∷ 1 ∷ 0 ∷ 0 ∷ 0 ∷ 0 ∷ 7 ∷ 0 ∷ 0 ∷ 0 ∷ 0 ∷ [])
        ∷ bytes (0 ∷ 0 ∷ 0 ∷ 0 ∷ 0 ∷ 0 ∷ 8 ∷ 0 ∷ 0 ∷ 0 ∷ 0 ∷ [])
        ∷ closed
        ∷ [];
    frame_buffer = with_max_payload 100;
    initial_frames = request ∷ [];
  };
  max_concurrent_handlers = 4;
}

abbrev asking : Console (List ℕ)
asking = record {
  stdin = record {
    text = end_line (codes "log") ++ (end_line (codes "{\"method\":\"$shutdown\"}") ++ []);
    ending = open_end;
  };
  stdout = [];
  cancelled = false;
}

wait_for_shutdown-Resolves_example :
    (acts : List ControlAction) × ReadAs trees
      (codes "log" ∷ codes "{\"method\":\"$shutdown\"}" ∷ [])
      open_end
      []
      acts
    × Resolves listed refusing [] acts (run_control_reader trees bytes_out asking).1.cancelled
wait_for_shutdown-Resolves_example =
    wait_for_shutdown-Resolves listed refusing [] trees bytes_out bytes_out-IsSteady asking open_end
      (codes "log" ∷ codes "{\"method\":\"$shutdown\"}" ∷ []) [] (omega arith) tt refl refl

-- Here the loop has ended with the error, and the frame before it is dispatched.
refusing_serves : serve listed refusing [] ≡ (
  some (err (protocol method_id_reserved)),
  request
      ∷ record {
        header = record { method_id = 1; flags = 0; request_id = 7; payload_length = 0 };
        payload = [];
      }
      ∷ [],
)
unfolding serve push extract_all try_extract_one decode validate
refusing_serves = refl
