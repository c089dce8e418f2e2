-- ===== src/Lib.antt =====
-- smf, a remote procedure call framework: messages, filters, the server, the client, and smfc,
-- the compiler that generates services and clients from flatbuffers schemas.
--
-- The parts and their files. Paths are the repository's.
--   Rpc       what is sent and received. Rpc/Header is the struct of src/core/rpc.fbs and its
--             bytes, Rpc/Checksum src/include/smf/rpc_header_utils.h, Rpc/Letter and Rpc/Envelope
--             the classes of those names, Rpc/RecvContext the two parsing steps of
--             src/core/rpc_recv_context.cc, Rpc/Connection src/include/smf/rpc_connection.h.
--             Rpc/TypedContext src/include/smf/rpc_recv_typed_context.h and fbs_typed_buf.h,
--             Rpc/Stream what seastar's streams are relied on for. Rpc/Framing and its children
--             relate what is sent to what is received.
--   Filter    src/core/compression.cc (Codec), src/core/lz4_filter.cc and src/core/zstd_filter.cc
--             (Compression), src/include/smf/rpc_filter.h (Apply), and both ends together
--             (EndToEnd).
--   Server    src/core/rpc_handle_router.cc (Router), the handling of one request of
--             src/core/rpc_server.cc (Dispatch), and the server as a machine (Machine): its state
--             holds every connection, the bodies being read and the requests in flight, and an
--             event is what runs between two waits of the program (the test of a session's loop,
--             a header, the grant of its units, a body, a request), so that runs interleave them.
--             A read that throws, or takes too long, is an event of its own. Writes takes the
--             sending of replies apart, under `serialize_writes`, Shutdown has `stop` with its
--             gate over the same machine, and Start the constructor and `start`.
--   Client    src/core/rpc_client.cc: slots and promises (SlotMap, Promises), any sequence of its
--             operations (Calls), what is sent and what fails (Sending), what a response does
--             (Response), its background fibers with their two semaphores, as a machine (Fibers,
--             which is related to Calls in Fibers/Refines); src/include/smf/reconnect_client.h
--             (Reconnect, and Reconnect/Stop for its gate).
--   Smfc      src/smfc/smf_printer.h (Printer), the schema classes (Schema, Names) and the three
--             generators (Cpp, Go, Python), each a chain of printer actions in the order of the
--             source, with its templates as they stand there. Balance has the rules by which a
--             chain is shown to return. Driver is src/smfc/codegen.cc and src/smfc/main.cc.
--             Generated reads the C++ that is printed for a service as code: its `switch`, its
--             handles and the client's methods.
--   EndToEnd  one call through all of these: a generated client, the wire, the server of a
--             generated service, and back.
--   Histogram src/core/histogram.cc over an HDR histogram of a library, and how those of the cores
--             are merged (Merge).
--   LoadGenerator
--             src/include/smf/load_generator.h, load_channel.h and load_generator_duration.h: the
--             division over channels, and a benchmark as a machine.
--   Random    src/core/random.cc.
--   Samples   concrete streams, codecs and letters for the tests.
--
-- How they interact: a client puts a session into the header, filters and sends a letter; the
-- server reads it with Rpc/RecvContext, filters it, finds the method by the header's `meta`, and
-- sends the reply with the same functions; the client finds the promise of the reply by its
-- session.
--
-- Conventions. A byte and a character are natural numbers; machine integers wrap where the source's
-- do. A future that is there is `ready` or `failed`; waiting is an event of the machine. Exceptions
-- are values of Rpc/Future. `debug` tells whether the checks of a debug build are compiled in.
--
-- Fuel. The substitution loop of the printer runs on fuel, one more than the escape characters of
-- its template, which is enough where no value holds the escape character. With such a value the
-- loop of the source may never end, and the model says `none` once the fuel is used up, as it does
-- where a generator throws or its behaviour is undefined. Text is printed in decimal with 20
-- places, enough for 64 bits. Everything else is structural recursion.
--
-- Not in the repository, and so parameters: XXH64, crc32, the compression libraries, seastar's
-- streams and semaphore, the HDR histogram, clocks, random generators, the flatbuffers parser and
-- serialization, the file system (`create_directories` may throw), and FLATBUFFERS_MAX_BUFFER_SIZE.
-- Their hypotheses stand in the records that hold them.
--
-- Not modelled: sockets and their options, logging, metrics and the HTTP admin server, which are
-- I/O; streams that break in the middle of a reply (a write of the client may fail); what the read
-- of a body that took too long goes on to take from a connection of the server, which is in error
-- by then; a client that connects again, without a reconnect, while a read is in flight; floating
-- point (`qps`, src/include/smf/human_bytes.h); demo applications and tests.
pub mod Prelude
pub mod Samples
pub mod Rpc
pub mod Filter
pub mod Server
pub mod Client
pub mod Smfc
pub mod EndToEnd
pub mod Histogram
pub mod LoadGenerator
pub mod Random
