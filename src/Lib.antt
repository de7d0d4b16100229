-- ===== src/Lib.antt =====
-- procwire-client: the child's side of procwire. A child announces its methods on stdout, accepts one
-- connection of its parent, and answers the requests that come over it as binary frames.
--
-- How the parts interact. The socket's bytes go to a frame buffer, which cuts them into frames and
-- validates their headers. With a token set, the first frame must prove it before the connection is
-- adopted. A frame is a request for a method id, which the registry turns into a handler; the handler
-- answers through its context, which builds frames and hands them to a writer handle; the handle counts
-- the frame and queues it in a channel, from which the writer task takes batches and writes them with
-- vectored writes.
--
-- Files, and the code that they model:
--   Error                 src/error.rs: the errors, with the kinds of their messages
--   Protocol/Wire         src/protocol/wire_format.rs: constants, flags, Header (encode, encode_into,
--                         decode, validate); Protocol/Header has its predicates
--   Protocol/Frame        src/protocol/frame.rs: Frame, build_frame, build_frame_parts
--   Protocol/FrameBuffer  src/protocol/frame_buffer.rs: push, try_extract_one, extend, clear
--   Protocol/HeaderPool   src/protocol/header_pool.rs: HeaderPool, encode_header_pooled
--   Backpressure          src/backpressure.rs: BackpressureController, BackpressureGuard; its child
--                         Threads has the atomic operations of several tasks as steps
--   Writer/Defs, Batch    src/writer.rs: OutboundFrame, write_batch, build_remaining_slices
--   Writer/Handle         src/writer.rs: WriterHandle (send, try_send, wait_for_backpressure)
--   Writer/Pipeline       src/writer.rs: writer_loop and the handles, as steps of one system
--   Control/Init          src/control/init.rs: ResponseType, InitSchema; its child Message has
--                         build_init_message, Legacy the legacy types
--   Control/Stdio         src/control/stdio.rs: write_stdout_line, write_stdout_json
--   Control/Stdin         src/control/stdin.rs: parse_control_line, run_control_reader
--   Handler/Context       src/handler/context.rs: RequestContext; its child Once has the steps of tasks
--                         that share one context
--   Handler/Registry      src/handler/registry.rs: HandlerRegistry (register, build_schema, dispatch)
--   Handler/Typed         src/handler/registry.rs: Handler, TypedHandler
--   Codec                 src/codec: MsgPackCodec, RawCodec
--   Transport/Path        src/transport/pipe.rs: generate_pipe_path, unix_runtime_dir, rand_u64
--   Transport/Unix        src/transport/pipe.rs: unix_impl
--   Transport/Windows     src/transport/pipe.rs: windows_impl
--   Client/Auth           src/client.rs: constant_time_eq, run_auth_handshake
--   Client/Dispatch       src/client.rs: dispatch_frame, and the end of a handler task; its child Request
--                         has the body of that task, Scripts handlers of several operations
--   Client/ReadLoop       src/client.rs: read_loop
--   Client/Start          src/client.rs: Client::start with its accept loop, wait_for_shutdown
--   Client/Builder        src/client.rs: ClientBuilder
--   Client/Emit           src/client.rs: emit, emit_raw
--   Client/Session        src/client.rs and src/handler/context.rs: frames that arrive, tasks and events
--                         as steps of one system over one writer
--   EndToEnd              the writer of one side and the frame buffer of the other; its child Session
--                         has the whole client
--   Base                  what they share: lists measured and cut by native numbers, association lists for
--                         HashMap, lists of tasks, tables of bit operations
-- The modules called Tests run the definitions and apply the theorems at concrete inputs.
--
-- State is passed explicitly: a method takes the state and returns its result beside the new one. Atomic
-- operations of tasks that run at the same time are constructors of a step relation, and a theorem on all
-- reachable states is one on all interleavings.
--
-- Bounds. A byte is a number below 256, and the fields of a header fit their widths by the hypothesis
-- InRange. usize has 64 bits; fetch_add and fetch_sub wrap. A u16 id wraps where a build with overflow
-- checks panics.
--
-- Loops. push runs on the length of its buffer plus 2 as fuel: each round but the last takes bytes, or
-- leaves the state that waits for a payload. write_batch gives its loop the size of the batch as fuel: each
-- round takes a byte at least. A wait on the clock is a list of rounds, what the other tasks have made of
-- the shared state and the time passed; it ends in the first round after the timeout. The reader of the
-- control plane has the length of its input plus 1 as fuel: each round takes a line of one character at
-- least.
--
-- Parameters. AsyncWrite (tokio): a vectored write takes a prefix of its slices and says how much, and an
-- error takes nothing. Mpsc (tokio): a channel queues behind and takes from the front. FrameSender is what
-- a context needs of a writer handle. Json (serde_json), Stdout, Os (std::fs and tokio's UnixListener; it
-- says which paths name one file), NamedPipes (tokio) and RmpSerde (rmp_serde) are what the control plane,
-- the transport and the codecs use. MessagePack encoding is a function into Result, and a handler's call
-- is a function on a state. Each has an instance among the tests.
--
-- Not modelled: reset of the backpressure counter while tasks run; that the reader of the control plane
-- runs beside the rest, which meets it only in the token that it cancels; the poll functions of PipeStream,
-- which forward to tokio; capacities and the sharing of Bytes; log lines, and the texts of messages.
pub mod Base
pub mod Error
pub mod Protocol
pub mod Writer
pub mod Backpressure
pub mod Control
pub mod Handler
pub mod Client
pub mod EndToEnd
pub mod Transport
pub mod Codec
