-- ===== src/Lib.antt =====
-- SlimStreamer: a server that streams audio to SlimProto clients (Squeezebox players).
--
-- The program captures PCM data from ALSA devices, cuts it into chunks, takes the devices in turn,
-- and hands each chunk to the consumer of its sampling rate, a Streamer or a file. For every client
-- it has a CommandSession, which controls the client over the SlimProto protocol, and it may have a
-- StreamingSession, which sends the encoded chunks over HTTP. A device has a thread of its own,
-- which fills a queue; all the rest runs in one thread, the processor, so an operation is a function
-- on states, and the operations of several connections are sequences of steps.
--
-- Which file models which part:
--   Util/Ring           src/slim/util/buffer/Ring.hpp: push, pop, clear, operator[] over a storage
--     Ring/Inv, Window, Refine, Run   its invariant, its specification, and the relation of the two
--   Util/BufferPool     src/slim/util/buffer/BufferPool.hpp, HeapBuffer.hpp: the buffers, and their laws
--   Util/StateMachine   src/slim/util/StateMachine.hpp: the lookup in a table of transitions
--   Util/Time           src/slim/util/Timestamp.hpp, Duration.hpp, BigInteger.hpp
--   Chunk, Exception    src/slim/Chunk.hpp, src/slim/Exception.hpp
--   Encoder             src/slim/EncoderBase.hpp, src/slim/wave/Encoder.hpp
--     Flac              src/slim/flac/Encoder.hpp, and what it hands to libFLAC (Words, Ends)
--   Proto/Wire          the byte order of fields, htons and htonl
--   Proto/Client        src/slim/proto/InboundCommand.hpp and src/slim/proto/client
--   Proto/Server        src/slim/proto/OutboundCommand.hpp and src/slim/proto/server
--   Proto/CommandSession   src/slim/proto/CommandSession.hpp
--     State, Machine    the fields, and the transition table (`transition_table`, `fire`)
--     Lifecycle         prepare, setStreamingSession, start, stop, consumeChunk
--     Handlers          onDSCO to onSETD, onSTAT and its events, ping and its timer
--     Probes            the latency probes, getAccurateDurationIndex, getLatencyMeanProbe
--     Request           onRequest
--     Diagram, Invariant   the table as a function, and the invariant of a session
--   Proto/StreamingSession   src/slim/proto/StreamingSession.hpp
--     State             the fields, with the socket and the handlers left to the processor
--     Transfer          the encoded callback, transferTask, flush, and Connection::writeAsync
--     Lifecycle         start, stop, consumeChunk, onRequest, and the handlers as they run
--     Queue, Bytes      the chunks with their buffers, and the bytes these hold
--     Invariant, Steps, Awake   the invariants, over one step relation
--     Progress, Sending, Rounds, Drain   what a session sends
--     Stopped, Stopping, Ends   how it stops
--   Proto/Streamer      src/slim/proto/Streamer.hpp
--     State, Machine    the fields, the transition table, its guards and actions
--     Deliver, Chunks   streamChunk and consumeChunk, and Counting, what they do to the numbers
--     Sessions          the callbacks of the servers, onSlimProtoOpen to onHTTPClose
--     Steps             all of these, and the tasks of sessions, as one step relation
--     Kept, Keys, Sound, Streams   what chunks and events keep of the sessions
--     Diagram, Invariant, Loss   the table as a function, the invariants, the end of a stream
--   Alsa                src/slim/alsa: Parameters.hpp, Source.cpp and Source.hpp
--     Marks, Extract, Period, Bounds, Streams   which frames are data, and what becomes of them
--   Multiplexor         src/slim/Multiplexor.hpp: producers in turn (Turns, Pause)
--   Demultiplexor       src/slim/Demultiplexor.hpp: chunks to the consumer of their rate (Routing)
--   FileConsumer        src/slim/FileConsumer.hpp: a file with its header (Header)
--   Conn/Tcp            src/slim/conn/tcp: Server.hpp, Connection.hpp, CallbacksBase.hpp
--     State, Server     the fields of server and connection, and their operations
--     Phase, Life       what its user is told of a connection, and that the server agrees
--     Limit, Deaf       the limit of connections, and what a failed accept leaves behind
--   Conn/Serving        createCommandCallbacks of src/SlimStreamer.cpp: the Streamer behind that server
--   Conn/Udp            src/slim/conn/udp/Server.hpp, and the discovery answers (Answers)
--   Scheduler           src/slim/Scheduler.hpp: the tasks that move chunks (Tasks)
--   EncoderBuilder      src/slim/EncoderBuilder.hpp: the parameters of an encoder (Built)
--   Program             src/SlimStreamer.cpp: the devices, and the program that writes files
--   Proto/System        the Streamer with its HTTP sessions, as one system
--   Base                lists, integers and tests over native numbers
--   Tests               runs at concrete inputs
--
-- How the code is read. A function that changes an object takes its state and returns the new one. A
-- name of the source is kept in snake case. What an object does outside of itself is recorded: a session
-- keeps the list of its effects (commands written, its connection stopped, tasks posted to the
-- processor), the Streamer the connections it stopped. The clock is an argument. An exception is a
-- value; undefined behaviour is the outcome `fault`, or `broken` for a request and `undefined` for a
-- callback. An unordered map is an association list. Connections are numbers, and so is a reference to
-- a streaming session. Indices of the ring wrap at 2 ^ 64, and fields of a message at their width;
-- timestamps, durations and counters (64 bits wide in the source) are unbounded. The host is
-- little-endian, a vector doubles its capacity when it grows, and the text of a DEBUG log line is taken
-- to be computed. The loop of onRequest runs on fuel: one more than the number of received bytes, as
-- each round but the last takes a message of 8 bytes at least. The loop of the encoded callback runs on
-- the number of its bytes, as each round takes one at least.
--
-- What is not under src/ or not read here is a parameter. The Streamer uses its HTTP sessions through
-- the record `StreamingApi`: what they answer to a chunk is arbitrary. A session uses its encoder
-- through the record `EncoderApi`, and relies on `EncoderLaws`: a stopped encoder emits nothing. The
-- version in the HTTP response comes from the build. What a write sends, and whether it fails, is
-- arbitrary; it sends the memory of its buffer as that is when the write ends.
--
-- The queue of a source is known by what it does to a chunk: it is full, or it offers a slot. The width
-- of a sample is what ALSA says of the format. Producers and consumers of chunks are interfaces.
--
-- libFLAC is the record `FlacApi`, whose answers are arbitrary. The scheduler uses its producer and its
-- consumer through `SchedulerApi`; either may throw.
--
-- The order in which a compiler evaluates the arguments of the builder's call is a parameter too.
--
-- A TCP connection is known by the number of those made before it. What the network and the user of a
-- server do is any sequence of steps; an exception of a callback is caught there. A state with
-- undefined behaviour (an acceptor that is not there) is none, and has no step. libFLAC gets memory, and
-- the zeroes that the FLAC encoder writes to the buffer of a chunk before are not kept in the chunk.
--
-- Not modelled: RealTimeQueue (a changed copy of a published one), opening and closing of ALSA devices,
-- the waiting in Multiplexor::stop, Connection::write, the start and stop callbacks of the UDP server
-- (the program gives none), logging, and the command line. The devices are mostly calls of libraries.
pub mod Base
pub mod Util
pub mod Chunk
pub mod Conn
pub mod Encoder
pub mod EncoderBuilder
pub mod Alsa
pub mod Multiplexor
pub mod Scheduler
pub mod FileConsumer
pub mod Demultiplexor
pub mod Exception
pub mod Proto
pub mod Program
mod Tests
