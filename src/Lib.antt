-- ===== src/Lib.antt =====
-- A key-value store of two nodes that talk over TCP: each keeps a table with timestamps, answers
-- commands, propagates a client's writes to the other, and compares Merkle trees with it every five
-- seconds.
--
-- The parts, from the repository's root:
--   kv_store.hpp                      Store: `set` and `del` by timestamps, the listings, the commands
--                                     of the class. Store/Updates has the abstract registers of
--                                     last-writer-wins, with Updates/Convergence,
--                                     Updates/Latest and Updates/Conflicts; Store/IndexSync is about
--                                     the shared Merkle index.
--   anti_entropy/merkle_tree_index.hpp,
--   anti_entropy/index_interface.hpp  MerkleIndex, with MerkleIndex/Build (`rebuild`), Paths
--                                     (`get_paths`, `find_differences`), Hashing (the leaves),
--                                     Blocks (entries that share a block) and Interface (the
--                                     virtual functions and their defaults).
--   node.hpp, node.cpp                Node: `process_command`, `propagate_update`,
--                                     `start_anti_entropy`. Node/Reading is about the words of a
--                                     command, Node/Propagation about SET and DEL at both ends,
--                                     Node/Running about the invariant, Node/Paths about GET_PATHS.
--                                     Node/Contract says what a node promises, as registers and
--                                     requests that are lists of words (Text/Words/Split), and
--                                     Node/Cases and Node/Refinement relate `process_command` to
--                                     it; Node/Messages is about what it sends, and Node/Fits
--                                     about what a session's buffer holds of it.
--                                     Session: `Node::Session` and `start_accept` as a client meets
--                                     them, and in Session/Events as the event loop drives them,
--                                     with Events/Truncation about the buffer's end, and Events/Linear
--                                     about the order of the commands.
--                                     Requests: the private functions that ask the peer, with
--                                     Requests/Safety and FetchAll about `fetch_and_update_all_keys`,
--                                     and in Requests/Retry the retries of `propagate_update`.
--                                     Node/Sent is about the messages to the peer, Node/Replies about
--                                     what clients read after a write.
--   node1.cpp, node2.cpp              Node/Main has the two programs, and Cluster the two nodes
--                                     together: commands, attempts to deliver messages and steps of
--                                     anti-entropy in any order, with Cluster/Invariants, History
--                                     (each node as registers), Latest (what becomes of a write),
--                                     Threads (the messages and their attempts), Messages (what
--                                     they say), Sources and Origin (where values come from),
--                                     Settling (the ends of what waits), Runs (whole runs),
--                                     Crossing (writes of one key at both nodes), Cutting (a
--                                     message longer than the buffer), Clocks and Agreement.
--   anti_entropy/anti_entropy_manager.{hpp,cpp}
--                                     AntiEntropy: `run_anti_entropy` and the rounds of `start`, with
--                                     AntiEntropy/Safety, Outcomes, RoundTrip and
--                                     Steps (the thread beside the sessions), with Steps/Adequacy,
--                                     Steps/Keeping and Steps/Ending; Counting and Listing are about
--                                     answers and the buffer that they are read into.
--   CMakeFiles/4.0.1/CompilerIdCXX/CMakeCXXCompilerId.cpp
--                                     Probe, with Compilers (`COMPILER_ID` and the version macros;
--                                     Upper, Middle and Lower are the chain of compilers in its
--                                     order), Platforms, Architectures, Standard, and Arrays (the
--                                     strings and `main`). CMake generated the file, which the
--                                     repository keeps; no program is linked with it.
--   CMakeFiles/4.0.1/CompilerIdC/CMakeCCompilerId.c
--                                     Probe/CProbe, which takes from the files of Probe what it has in
--                                     common with the source for C++; CProbe/Chains and
--                                     CProbe/Objects compare the two.
-- Text models what the code uses of the standard library's streams and conversions, Dict its
-- `unordered_map`, and Io is code that throws and talks to a peer.
--
-- State. A store is its table and the address of a Merkle index; the indexes stand in a memory, since
-- the store and the manager share one by `shared_ptr`. A node is its store and that memory, its peer
-- and its manager. A handler takes the state and the clock, and returns the state, the response and
-- the messages that it hands to threads. An end of the cluster has a list of threads, each with its
-- message and the retries behind it. The mutexes are not in the state: every call of the store is
-- one step. `run_anti_entropy` is one action in AntiEntropy, and in AntiEntropy/Steps a step for
-- every use of the store, the network or the index, between which Cluster lets commands and messages
-- come.
--
-- Parameters. `HashOrder` is the order of a hash table, left open but for being a permutation; it
-- sees the present order only. `Merkle` is the submodule merklecpp, with `IsMerkle` for the
-- documented laws that some proofs take. `World` is the network, the peer and the clock; `Link` is
-- the network of a world whose peer is a session, where a response that fits a buffer arrives in one
-- piece. Every connect, write and read of a world returns or throws, while a read of the source waits
-- as long as its peer is silent.
--
-- `Macros` are the macros that a compiler predefines. Those that a condition compares hold integers
-- that are not negative, and are spelled in decimal where they become strings; of two definitions of
-- one macro the later holds, as compilers do with a warning; the execution character set is ASCII.
--
-- Bounds and fuel. Timestamps are natural numbers, printed in decimal and read by `stoull`, which
-- refuses what is not below 2^64 and wraps a negative number; `to_string` of n has fuel n + 1, more
-- than its digits; a round of `parse_keys` reads at least one byte, and its fuel is the length of the
-- text and one. Where the fuel of
-- `parse_keys` runs out, it gives none. A buffer of a session holds 1024 bytes: in Session and in
-- Cluster, what a session reads is the first 1024 of the command or the message. The retries are five, as in the code.
--
-- Not modelled: prints, the event loop itself, the steps of threads within a call, the lifetime of
-- buffers, the submodule and boost, the Python prototype, the scripts and the build files but for
-- the two compiler probes; those under build/ are copies.
pub mod Prelude
pub mod Membership
pub mod Text
pub mod Dict
pub mod Merkle
pub mod MerkleIndex
pub mod Store
pub mod Node
pub mod Io
pub mod AntiEntropy
pub mod Session
pub mod Requests
pub mod Cluster
pub mod Probe
pub mod Tests
