-- ===== src/Lib.antt =====
-- SRNP, a network of components that publish pairs (a key and a value) and subscribe to each other's.
--
-- A component has a pair space, which holds its own pairs and its copies of those that it subscribed
-- to; a client, which the application calls; a server, which handles what the peers send; frame
-- channels, which carry framed messages to and from the peers; and a codec, which makes the messages
-- bytes. A master gives out owner ids and tells the components of each other. The modules follow
-- these parts; paths are from the repository's root.
--
-- Base.antt: the lists, options, integers, texts and sorted maps that the parts share. A
--   `std::map` is an association list in the order of its keys, a `std::string` the list of its bytes.
-- Numbers.antt: the decimal numbers of the standard library's `from_chars`, `to_string` and `format`.
-- Wire.antt: include/srnp/wire.h and src/wire.cpp. `Writer` and `Reader` are records, and their
--   methods actions on them that may throw a `DecodeError`: `write_integer`, `read_string` and so
--   on. `toLittleEndian` takes the host's endianness as an argument.
-- Messages.antt: include/srnp/Pair.h and include/srnp/msgs/. A time is its count of nanoseconds.
-- Messages/Printing.antt: src/Pair.cpp.
-- Codec.antt: src/codec.cpp, one encoder and one decoder for each message.
-- PairSpace.antt: src/PairSpace.cpp, one function for each method, which takes the space and gives
--   the new one. `Clock::now()` is an argument, a callback is its identity.
-- Channel.antt: src/session.cpp. What runs under `outbox_mutex_` is one function, since no other
--   thread sees it half done; Channel/Threads.antt has the interleavings of these as a relation,
--   Channel/Draining.antt the whole loop of one drain.
-- Session.antt: `ClientSession` of src/client.cpp, a connection to another component.
-- Client.antt: `Client` of src/client.cpp. Its children have the subscriptions (Client/Subscribing.antt)
-- the table of sessions (Client/Peers.antt) and the reads and writes by way of a meta-pair
-- (Client/MetaPairs.antt). It holds the component's pair space, which the server shares; a pointer to
-- a session is the session in the table.
-- MetaValues.antt: the text of a meta-pair's value, which names another pair: `extractStrings` and
-- both functions `parseMetaValue`.
-- Server.antt: `ServerSession` of src/server.cpp, a handler for each type of message and the loop over
-- a connection's frames, on the component's client and space.
-- Server/Replicas.antt follows a pair from its owner to a subscriber.
-- MasterHub.antt: src/master_hub.cpp. What the random generator draws is an argument.
-- MasterLink.antt: `MasterLink` of src/server.cpp, the registration and the loop over the notices. What
-- the master sends is an argument.
-- Kernel.antt: src/srnp_kernel.cpp and the constructor of `Server`: the one node of a process, and what
-- is thrown. Kernel/Calls.antt has the calls of the public interface; Kernel/Joining.antt starts a node
-- at a hub of MasterHub.antt.
-- MetaTrackers.antt: src/meta_pair_callback.cpp, on the calls of the kernel. Each function is a chain of
-- moves on one tracker, the first of which that throws ends it and leaves what was done before.
-- Logging.antt: src/srnp_print.cpp, the level of the log and its lines.
-- Viewer.antt: the viewer's texts (gui/format.cpp), its node (gui/srnp_link.cpp), and what its lists
-- and buttons do (gui/pair_view.cpp).
--
-- The parts meet where the code calls from one to another: the server's handlers fan pairs out through
-- the client, the client sends through its sessions, these through frame channels, and a channel's
-- `read` gives the server its frames. The kernel makes the client and hands it the welcome that the
-- link has read; the trackers and the viewer use nothing but the kernel's calls.
--
-- Most recursion is on a list or on the count that a message carries. The loops over a connection, of
-- the server and of the link to the master, take fuel above the length of the stream, since a frame is
-- 16 bytes at least; a drain takes fuel above the number of the frames that wait, each of which it
-- takes once; the digits of a number take fuel of the number itself, and the lines of a dump fuel of
-- the number of its bytes; the master's search for a free id takes fuel above the number of sessions,
-- since each taken id is one of theirs. An `int` is an integer without bounds, whose range is a
-- hypothesis where bytes are made of it; handles wrap at 2^64, and a property that needs them distinct
-- bounds the history.
-- `sizeof(ComponentInfo)` is 72, as on 64-bit Linux.
--
-- Not modelled: the operating system's sockets and Boost.Asio (a channel's socket is the list of the
-- frames that it has taken, a master that is reached is a function from what is written to what comes
-- back), the threads of the server and its accept loop, the drawing of the viewer in gui/, dates as
-- text, the command lines of the programs, benchmarks and tests.
pub mod Base
pub mod Channel
pub mod Client
pub mod Codec
pub mod Kernel
pub mod Logging
pub mod MasterHub
pub mod MasterLink
pub mod Messages
pub mod MetaTrackers
pub mod MetaValues
pub mod Numbers
pub mod PairSpace
pub mod Server
pub mod Session
pub mod Viewer
pub mod Wire
