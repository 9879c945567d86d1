-- ===== src/Lib.antt =====
-- flocksy: a file synchronisation client that speaks the Flock protocol, verified in part.
--
-- A node runs a thread for each part: the boxoffice decides, the heartbeater repeats the node's status
-- to the publisher, the publisher sends to the other nodes, and a subscriber for each other node hands
-- what it hears to the boxoffice. The parts send each other text with binary fields over ZeroMQ.
--
-- include/flock_fsm.h (FlockFsm) is the generated state machine of the protocol. Its enumerations
-- are data types; a status code is a natural number, since src/boxoffice.cpp casts whatever
-- number it reads to status_t. Each generated function is a chain of tests on the state, the event
-- and the status; FlockFsm.Ladder gives such a chain its meaning (arms tried in order, then the
-- value of the last else), and every state's arms are a list, in the order of the source.
-- FlockFsm.Step runs the machine on status codes the way processEvent of src/boxoffice.cpp does: the
-- event is taken from the status code, and the state changes if check_event accepts it.
--
-- Stream is std::stringstream as the parts use it: the text, what is left of it, and the fail bit.
-- Numbers are read and printed as the standard library does (Stream.Decimal); an int is its 32-bit
-- pattern. Bytes holds the big-endian fields, Constants the numbers of include/constants.hpp.
-- Threads holds the loops of src/heartbeater.cpp, src/publisher.cpp and src/subscriber.cpp as functions of
-- one round, and the poll wrappers of src/constants.cpp. A run that fails is a fault of Result
-- (Prelude.Results): an exception that escapes, or `undefined` for a use of memory that is not set.
--
-- Boxoffice is src/boxoffice.cpp: the map of the other nodes (Nodes), the reading of a message's head and
-- updateTimestamp (Clock), the members (Office), performAction down to prepareHeartbeatMessage (Sending),
-- processEvent (Events) and the loop of runRouter (Router). The blocks of processEvent are the switch on
-- the status of a heartbeat (Heartbeats, with Replies for the cases that wait for all nodes and Metadata
-- for 130, 170 and 174), the local changes (LocalChanges) and the chunks of a file (FileData). A handler
-- goes on, returns a number, or fails. What the clock and the random numbers give is an argument
-- (Readings); what is sent is collected in the state. The address that `new` gives a File of a queue is
-- the next of a counter.
--
-- Hash is src/hash.cpp with the comparisons of include/hash.hpp, and HashTree is src/hash_tree.cpp: the loop that
-- finds the size of a tree (Size), std::sort (Sort), the loops that fill the levels (Levels), makeHashTree as a
-- whole (Build) and getChangedHashes (Changes). The hash function of libsodium is a parameter.
--
-- Directory is src/directory.cpp: the string that stands for a file, and fillDirectory with Boost.Filesystem as
-- a parameter. A link is followed as often as an argument says.
--
-- Box is src/box.cpp: the constructor over directories that have been filled (Fill), and the loop that turns an
-- inotify event into a message for the boxoffice (Watch), with the poll wrapper that it waits in,
-- s_recv_in of src/constants.cpp (Inotify).
--
-- Dispatcher is the loop of src/dispatcher.cpp that sends a file in chunks (Transfer), and the one that waits for the stop
-- of the synchronisation (Stop), for what each round's poll gives.
--
-- Journey joins the threads: the way of a heartbeat from the heartbeater of one node to the boxoffice of
-- another.
--
-- File is src/file.cpp: the metadata of a file, its checks and its chunks, over a disk that is a parameter
-- (File.Disk), and the form on the wire (File.Codec).
--
-- The fuel of Stream.Decimal.print is enough: a number has at most as many digits as its value and one.
-- HashTree.Size.grow runs for 31 rounds at most, which is enough, since an int overflows in the last.
-- The fuel of Dispatcher.transfer counts chunks; `none` means that more chunks are to come.
--
-- A list of hashes may be of any length; an int that holds its length keeps 32 bits of it.
--
-- Not modelled: negative status codes, which equal no enumerator; sockets, threads and inotify itself;
-- src/config.cpp, what Boost.Filesystem throws, and the rest of src/dispatcher.cpp; the error bits that the stream of a
-- file keeps from one read to the next (readFileData); and the memory of a key that updateTimestamp frees while it is
-- in the map of the nodes.
pub mod Prelude
pub mod FlockFsm
pub mod Stream
pub mod Threads
pub mod File
pub mod Bytes
pub mod Constants
pub mod Boxoffice
pub mod Dispatcher
pub mod Hash
pub mod HashTree
pub mod Directory
pub mod Box
pub mod Journey
