-- ===== src/Lib.antt =====
-- nplex-cpp is the client library of a database that keeps a copy of all data in memory. One event
-- loop owns a client: it connects to a server, receives a snapshot and a stream of updates, and puts
-- them into a store. User threads read and write through transactions on that store and submit them
-- to the server, which accepts or rejects them and then sends their commits in the stream.
--
-- Which file models what:
-- - Types, Schema: include/nplex-cpp/types.hpp and the tables of src/schema1.fbs, schema2.fbs and
--   schema3.fbs.
-- - Key, Crud, User: is_valid_key, crud_to_string and parse_crud of src/utils.cpp, and is_authorized
--   of src/user.cpp.
-- - OrderedMap, Result: std::map as an association list in the order of its keys
--   (OrderedMap/Sorted), and methods that may throw: what was written before a throw stays.
-- - Store: store_t of src/store.cpp. `apply_update` is update_internal behind its test for a null
--   pointer. The objects of metadata are indices into a heap, since values and m_metas share them.
--   Store/Frame says which operations leave the data alone, Store/Content compares an update with
--   the abstract one of Store/Abstract, and Store/Changes compares the list of changes with the two
--   contents, by Store/Replays; Store/Loading does the same for a snapshot, and Store/Ordered keeps
--   the maps in order. Store/Holding counts the entries that hold a metadata object, and
--   Store/Counters, Readiness and Counts compare that with its reference counter.
-- - Tx: transaction_impl of src/transaction_impl.cpp. Tx/Access has read, ensure, upsert,
--   upsert_if_changed and remove of a key, Tx/Scan has for_each, for_each_internal and remove of a
--   pattern, Tx/Track has update, Tx/Submit has submit, discard and the answers of the server, with
--   the promise as a record. Tx/View, Items, Writing, Prefix, Visits, Effects, Scanned, Removal,
--   Sorted, Ordered, Session, Tracking, Conflicts, Serializable, Repeatable, Lifecycle, Outcomes,
--   Final and Leaving hold the proofs; the promises that m_promise held before are kept as the
--   caller still has their futures. Tx/Session has the step relation that interleaves the calls of a
--   transaction with commits. An iterator of for_each_internal is the part of the map that it still
--   goes through.
-- - Messaging: the contents of the requests that src/messaging.cpp builds. Messaging/Framing has the
--   frame round a message, output_msg_t, and parse_network_msg; `Wire` is what they use of cppcrc
--   and flatbuffers. Messaging/Frames and Messaging/Accepted hold the proofs.
-- - Connection: connection_impl of src/connection.cpp; the calls of libuv are events with return
--   codes. Connection/Limits has the step relation of a connection with the messages that libuv took
--   and has not called back for.
-- - Client: client_impl of src/client_impl.cpp. Client/Core has what the handlers share, Client/Link
--   the life of the connections and the login, Client/Commands the queue of commands and the calls
--   of the user, Client/Commit has process_update, Client/Receive the other messages. `World`
--   gathers what a handler cannot know: return codes of libuv, answers of the manager and the
--   reactor, and which transactions have another owner. Client/Reading has cb_tcp_read of
--   src/connection.cpp, which cuts the input of a connection, passed beside the client, into
--   messages and calls the client on each. Client/Events gathers the callbacks as one step.
--   Client/Running has run, with all that uv_run does in it as a parameter, set_initial_rev, and the
--   waits, which are given the states that they see as they wake. Client/Chunks, Stream, Trims,
--   Trimming, Pipeline, Responses, Ordering, Closing, Queue, Commits, Tracking, Answers, Creation
--   and Syncing hold the proofs.
-- - Json: the escaping of texts in src/json.cpp. Json/Escapes compares it with a reader of JSON
--   texts.
-- - Tests: concrete data, and the theorems applied to it.
--
-- Parameters: the glob matcher of deps/match.c, the UTF-8 routines of deps/utf8.h, the checksum of
-- cppcrc, the binary form of a message by flatbuffers, and the return codes of libuv. Nothing is
-- assumed of them but, for the limits of a connection, that libuv calls cb_tcp_write once for each
-- message that uv_write took, in order, and cb_tcp_close behind the last, as it documents, and for
-- the theorems on frames, that the checksum is below 2 ^ 32 and can be continued from the bytes
-- before, which cppcrc documents.
--
-- Bounds and fuel: reference counters are 32 bits wide, correlation ids and the counters of a
-- connection 64, the sum in the test of the command queue 32, and they wrap. Revisions are read from
-- 64-bit fields and only compared. no_control of Key runs on as much fuel as the key has bytes,
-- since each step takes one at least where the decoder does so; the loop of process_commands runs on
-- as much fuel as there are commands, the loop of for_each_internal on as much as there are keys in
-- the two maps, and the loop of cb_tcp_read on as much as there are bytes of input, since a message
-- takes more than twelve. A frame's length is 32 bits wide and wraps.
--
-- Not modelled: mutexes and other threads (a method runs alone, and each handler is one step), the
-- condition variable with its notify_all (a wait is given the states that it sees), destructors (a
-- promise that is destroyed without a result is broken, and a transaction that loses its last owner
-- is discarded; the model leaves both as they are, where containers are cleared, requests popped and
-- commands dropped), the failing of asserts, the log, the callbacks of the reactor, which are taken
-- not to call back, times, the restart of the connection-lost timer, addresses, the writers of
-- src/json.cpp beyond texts, and the constructor of the client with the setters of its logger,
-- reactor and manager.
pub mod Prelude
pub mod OrderedMap
pub mod Result
pub mod Types
pub mod Schema
pub mod Key
pub mod Store
pub mod User
pub mod Crud
pub mod Tx
pub mod Messaging
pub mod Connection
pub mod Client
pub mod Json
pub mod Tests
