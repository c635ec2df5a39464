-- ===== src/Lib.antt =====
-- A verification library for cast-app, a desktop application that plays media and the screen on
-- Google Cast receivers.
--
-- The parts of the program and how they meet. The cast engine (src/cast) holds one connection task
-- per receiver: a run loop (src/cast/connection/state_machine.rs) that takes commands from the GUI,
-- frames from the reader thread (src/cast/connection/reader.rs), and the ticks of three timers. It
-- writes JSON messages (src/cast/namespaces.rs) in CastMessage protobufs (src/cast/proto.rs) in
-- length-prefixed frames (src/cast/framing.rs), numbers its requests (src/cast/request_id.rs),
-- tears a session down in order (src/cast/connection/teardown.rs) and reconnects by a retry policy
-- (src/util/retry.rs). The screen path (src/screen) cuts the encoder's output into fMP4 segments
-- (src/screen/segments.rs) in a reader thread (src/screen/bridge/stdout_reader.rs) and hands them
-- on through a bounded queue (src/util/backpressure.rs) to the thread that feeds the media server
-- (src/screen/bridge/forwarder.rs). Discovery (src/cast/mdns.rs) queries for receivers, reads the
-- answers and keeps the table of devices that the GUI shows; the certificate that a receiver
-- presents is compared with the pin of its first connection (src/cast/tofu.rs). The media server
-- (src/media/server.rs) serves the one active source to the receiver, answers range requests
-- (src/media/range.rs) and flushes its writers now and then (src/media/flush.rs).
--
-- Which file models which part; below each, its child modules hold the proofs and the runs.
--   Common             shared names; tests, lists, bits, bytes, UTF-8, texts, trim, IPv4 and floats
--   Cast/Framing       src/cast/framing.rs: encode_frame, read_exact_or_eof, read_frame
--   Cast/Reader        src/cast/connection/reader.rs: FrameAccumulator, reader_loop
--   Cast/Proto         src/cast/proto.rs: varints; Message: encode_ and decode_cast_message
--   Cast/RequestId     src/cast/request_id.rs: RequestId, PendingMap
--   Cast/Namespaces    src/cast/namespaces.rs: payloads, addresses; Parse: parse_inbound
--   Cast/Connection    src/cast/connection/{mod,state_machine,writer}.rs: Session, commands, events
--     Commands         handle_command, dispatch_pending
--     Inbound          route_inbound, apply_receiver_status and the other messages
--     Teardown         src/cast/connection/teardown.rs: the messages of teardown_session
--     Run              the state of the loop, teardown_session, connection_lost, establish
--     Loop             the branches of select! in run, one step for each
--   Cast/Mdns          src/cast/mdns.rs: the parser of DNS packets
--     Correlate        correlate, parse_packet
--     Table            build_ptr_query, the table of devices and the loop of run_with_dest
--   Cast/Tofu          src/cast/tofu.rs: TofuStore, the hex texts, receiver_key
--   Util/Retry         src/util/retry.rs: Backoff
--   Util/Backpressure  src/util/backpressure.rs: every operation of the queue
--   Screen/Segments    src/screen/segments.rs: Mp4Segmenter
--   Screen/Pipeline    src/screen/bridge/{stdout_reader,forwarder}.rs: the two threads; restart of
--                      src/screen/bridge/controller.rs
--   Screen/BgraRgba    src/screen/bgra_rgba.rs: bgra_to_rgba
--   Media/Flush        src/media/flush.rs: FlushTracker
--   Media/Http         src/media/server.rs: the heads of requests and responses
--   Media/Server       src/media/server.rs: the server task and its connections, the live stream
--     Task             handle_connection, serve_live_screen
--   Media/LocalFile    src/media/local_file.rs: serve, stream_reader; src/media/mime.rs
--   Media/Range        src/media/range.rs: parse_range, content_range
--
-- How state and effects are modelled. A struct is a record with the source's fields, an enum a data
-- type. A function that mutates its receiver returns the new record. The awaits of the connection
-- task meet a World: the time, and lists of what the next writes, connects and thread starts bring;
-- where a list ends, the call fails. The World also logs what the task does, the newest effect
-- first. The branch that select! takes is a Wake; the proofs hold for each that is_enabled admits
-- or for any, as they say. A reader is the list of what its read calls return: bytes, an
-- interruption or an error, and the end of the stream after the last.
--
-- The two threads of the screen pipeline are one state: the segmenter, the output queue, what each
-- thread holds, and the stop flag. A step is one action of one thread between two accesses to what
-- they share, and any list of steps is a schedule. A restart of the encoder joins its reader,
-- clears the queue and starts afresh. The state also logs the segments cut since the last restart,
-- those delivered or in hand at it, and those delivered. A DNS parser is a function of the
-- position; its result is a value with the next position, an error, or one of two values that stand
-- for a panic and for a loop without end. The media server is its task with all its connections: a
-- step is one branch of the task's loop or of one connection, so that any list of steps is an
-- interleaving; a channel that is attached is a number. The discovery loop is a step for each
-- branch of select!, and logs what it sends. The pin store meets the file system as values: what
-- the file holds, and whether each call of a save succeeds.
--
-- Numbers. A machine word is a natural number with its wrap-around written out. Instants and
-- Durations are numbers of nanoseconds. Floats are IEEE 754 bit patterns. A String is the list of
-- its UTF-8 bytes, and String::from_utf8_lossy is written out. JSON is a data type of values; its
-- text form, serde_json's to_string and from_str, is a parameter of the connection, and that of the
-- pin file a parameter of the store. A HashMap is an association list, whose order stands for the
-- iteration order that Rust leaves open.
--
-- Fuel. read_exact_or_eof gets two rounds more than the reader has results, and each round takes
-- one. push_bytes gets a round for each buffered byte and one more, and a frame takes four bytes.
-- decode_cast_message gets a round for each byte, and a field takes at least one. The box loop gets
-- a round for each pending byte, and a box takes eight. allocate gets a round for each pending ID
-- and one more, and a round that goes on has met a pending ID. A name in a DNS packet gets five
-- runs through the packet, one for each depth of pointers, and one round more: a round that meets a
-- label moves on in the packet. A TXT record gets a round for each byte and one more.
-- read_limited_line gets two rounds, for a line without a line feed is the last one. The header
-- lines and trim get a round for each byte. A decimal has at most 20 digits.
--
-- What is not modelled: sockets, TLS (src/cast/tls.rs), the transport and its lock, threads and
-- channels as such, D-Bus, PipeWire and ffmpeg processes (src/screen), the bodies of URL and SMB
-- sources (src/media/url_proxy.rs, src/media/smb_source.rs), the rest of the controller of the
-- screen cast (src/screen/bridge/controller.rs), the UDP socket of discovery, the path of the pin
-- store, the choice of the LAN address (src/media/lan_ip.rs), the GUI and the wiring of tasks
-- (src/app.rs, src/runtime.rs).
pub mod Common
pub mod Cast
pub mod Util
pub mod Media
pub mod Screen
