-- ===== src/Lib.antt =====
-- A model of camrtsp, which streams a camera over RTSP, and what is proved of it.
--
-- A capture backend encodes frames to H.264 and publishes access units to a broadcaster, which keeps
-- one bounded queue for each viewer. The RTSP server runs a session for each control connection: it
-- cuts the connection's bytes into requests, authorizes them, negotiates a transport, and takes units
-- from its queue, which it sends as RTP packets with RTCP reports.
--
--   Core: crates/camrtsp-core/src/lib.rs, the data that the crates exchange, `StreamConfig::validate`
--     and `BitrateMode::resolve`.
--   Rtp: crates/camrtsp-rtp/src/lib.rs, `packetize_h264` and `rtp_packet`. Rtp/Reassembly has a
--     receiver after RFC 6184 and Rtp/Header a reader of the header, both written on their own.
--   Broadcaster: crates/camrtsp-server/src/lib.rs, `Broadcaster` and `Subscription`. Each method is a
--     function on the shared state, as the mutex makes it one step; Broadcaster/Run runs any sequence
--     of calls, which is any interleaving of publishers and sessions. A queue that the source shares by
--     `Arc` is found by its subscriber's number.
--   Request: `take_request`, `read_control` and `parse_request`, on the bytes read so far.
--     Request/Printed has requests as a client prints them, written on its own.
--   Transport: `negotiate_transport`, `Delivery` and what they call. A UDP socket is its address, and
--     which ports can be bound is an argument.
--   Auth: `authorized` and `digest_parameters`. Base64, SHA-256 and MD5 are the argument `Packages`.
--   Response: `respond`, `sdp`, `valid_path`, `request_path` and the RTCP packets. Response/Client
--     has a client's reader of responses, written on its own.
--   Session: `handle`. Its local variables, the broadcaster and what was written are one record; the
--     socket, the clock and the nonces are inputs of each round of its loop (`Tick`). `?` is an error
--     result, and a write that fails is a number of writes that are left.
--     Session/Viewer has what a viewer reads of the interleaved frames or the datagrams, after RFC
--     2326, RFC 3550 and RFC 6184; Session/Arrival puts it behind the broadcaster and the session,
--     Session/Draining behind a queue and the rounds that empty it, and Session/Answers puts a
--     client's printer and reader at the two ends of a round.
--   Server: `RtspServer`, its construction and accept loop, on the threads of the sessions.
--     Server/Table has a table of threads without an order, by which Server/Refinement says what the
--     loop promises.
--   Sink: `AccessUnitSink`, which a capture backend calls and whose closures call the broadcaster.
--   Capture: crates/camrtsp-capture/src/lib.rs, `NativeCamera` on any backend.
--   Macos: the backend in the same file. Devices has the cameras, the permission and the preset;
--     Pipeline `start`, `request_keyframe` and `stop`; Encoder the two callbacks; Avcc the readers of
--     what VideoToolbox writes. What the system answers is a record, and what the source computes with
--     floats a parameter, `Floats`. Camera puts the backend under `NativeCamera` and the command
--     line.
--   Windows: crates/camrtsp-capture/src/windows.rs. H264 splits units and reads configurations,
--     Formats and OutputType have the media types, Activation and Pipeline the start and the stop,
--     Callbacks the two callbacks, Encoders and Synchronous the two drivers, and Worker the worker's
--     loop. Media Foundation's answers are inputs; a run of the worker is a list of steps, each a
--     callback or a round of the loop, which is any interleaving of the threads. Camera puts the
--     backend under `NativeCamera` and the command line.
--   Split and Android: crates/camrtsp-android/src/lib.rs, `split_h264`, the table of servers and the
--     calls from Java, whose arguments are what JNI gives for them.
--   Cli: apps/cli/src/main.rs, the parsers of the arguments; Cli/Run is `run` on any capture
--     backend.
--   Text and Io: Rust's text functions that the server uses, and `io::Error` with its kind.
--   Common: the shared types, Boolean tests, lists and byte operations. Examples: tests and examples.
--
-- An integer of w bits is a natural number with its wrap-around written out. `chunks`,
-- `take_request`, `split_h264`, `split_avcc` and the pass over finished threads run on fuel, the
-- length of their input, with a round more where the loop ends by a test: each chunk, frame, unit and
-- thread takes an element at least, so the fuel is enough. An `Instant` is a number of microseconds.
--
-- Not modelled: the calls of the operating system, threads and condition variables (a wait is the
-- choice of the moment when a method runs), the memory of buffers and COM objects and the messages
-- that tell an encoder of the stream's start and end, and printing; also what another thread does in
-- the middle of a callback or of a round of the Windows worker, which are one step each, and in the
-- middle of a round of a session: other threads' calls of the broadcaster stand between the rounds
-- (`others` of `Tick`); also the errors of `set_nonblocking` and `local_addr` on sockets that are open.
pub mod Common
pub mod Text
pub mod Io
pub mod Core
pub mod Rtp
pub mod Broadcaster
pub mod Request
pub mod Transport
pub mod Auth
pub mod Response
pub mod Session
pub mod Server
pub mod Split
pub mod Android
pub mod Cli
pub mod Sink
pub mod Macos
pub mod Windows
pub mod Capture
mod Examples
