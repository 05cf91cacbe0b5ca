-- ===== src/Lib.antt =====
-- A Chubby-like lock service: a small replicated file store whose files carry advisory locks,
-- used by clients that hold sessions, are told of events and keep their sessions alive.
--
-- The parts and how they interact. Every server holds a store of files (utils.h) and a database
-- of sessions (Session.cpp). A client's request reaches an RPC handler (SkinnyImpl.cpp), which
-- appends an action to the log that the servers replicate with NuRaft; once the log's entry is
-- committed, the state machine (StateMachine.cpp) of each server applies the action to its own
-- store and sessions and answers. The leader runs a thread for each session (class KAThread in
-- Session.cpp), which holds the client's last keepalive call and answers it with an event or, in
-- time, without one, and which reports the session as expired when no call is there to answer.
--
-- The files and what they model:
--   Prelude     Booleans, options, lists and the source's integers: `int` and `int64` with their
--               wrap-around, and a text as the list of its bytes.
--   Exec        A handler's run: a state and a result or a fault, which is a failed assertion
--               (aborted), std::out_of_range, std::bad_optional_access or the like. The state
--               stays as it was when the fault came.
--   Dict        std::unordered_map as an association list, with its operator[], at and erase.
--   FilePath    The parent and the name in a path, as std::filesystem gives them.
--   Directory   The bytes of a directory's content, which are its entries, each after a zero
--               byte: how one is entered (StateMachine.cpp, apply_(OpenAction&)) and cut out
--               (close_file_delete_ephermeral and apply_(DeleteAction&)).
--   Store       utils.h: FileMetaData and DataStore. A condition variable is the count of its
--               notifications: release_lock and the deletion of a file notify it, and Acquire
--               sleeps on it.
--   Session     Session.cpp: Entry and Db, method by method; Session/KaThread is class KAThread,
--               whose loop is one function for a round after its wait (wake), and whose methods
--               are what the other threads do to it between two rounds. Session/KaThread/Events
--               has the sequences of such steps.
--   Action      protos/raft.proto: the actions and replies.
--   Codegen     codegen.cpp: the kinds of fields and the statements of the generated readers and
--               writers, with their text; Codegen/Output has all the text that the program prints
--               (gen_code and main), Codegen/Meaning what the generated statements do, and
--               Codegen/Actions the structs and the dispatch that it makes of protos/raft.proto, as
--               Codegen/Replies has those of the replies.
--   StateMachine  StateMachine.cpp: State is what the handlers change; Open, Close, Locks and
--               Contents have one function for each apply_, with the helpers release_lock and
--               close_file_delete_ephermeral; StateMachine has the dispatch (apply), commit and
--               the run of a whole log. The other children hold the theorems on them: Files has
--               the framework for what every handler keeps of each file and of each session's
--               entry, and Sessions what it gives for the sessions and their handles. EndReply
--               has the buffer that apply_(EndSessionAction&) fills by hand, and the loop that
--               reads it (SkinnyImpl.cpp, EndSession).
--   Skinny      SkinnyImpl.cpp: what the remote calls share (parse_raft_result), and in its
--               children notify_events (Notify), the calls on files (Files), on sessions with
--               server.cpp's callbacks and GetLeader (Sessions) and on locks (Locks), with the wait
--               of Acquire as a loop over its wake-ups. Skinny/Mutexes has the mutexes of the
--               files: a step relation over the calls that hold one until the log answers and the
--               log's entries, which lock them as they are applied. The other children hold the
--               theorems.
--   Decimal     std::to_string and std::stoi, as the leader's number travels in a status.
--   Client      clientlib.cpp: the client's state, change_server, InvokeRpc, StartSessionOrDie
--               and GetLeader; Client/Calls has its calls and their cache, Client/KeepAlive what
--               it does with the answer to a keepalive call, and Client/Conversation its loop of
--               such calls against the thread of the session; Client/CacheView has what the
--               client's threads do to the cache, in any order. Client/Remote runs the calls against
--               the handlers of Skinny, and Client/Python is pyclientlib.cpp over it. The other
--               children hold the theorems.
--   Perf        perf/perf_client.cpp: what a thread of the measurement does, and how the nodes count
--               each other in a directory before they start.
--   Demo        demo/demo2.cpp and demo/demo3.cpp: a directory of members, and the election of a
--               primary; Demo/Elected lets the calls of several contenders interleave.
--   Server      server.cpp: the store that a server starts with; Server/Config has the table of the
--               servers (utils.h) and their addresses, Server/Cluster the loop of init_raft that
--               adds the other servers, and Server/Events its own copy of notify_events.
--   Tests       Runs of the state machine at fixed logs, and the theorems at concrete inputs.
--
-- Parameters and bounds. The generated code writes and reads with NuRaft's buffer_serializer,
-- which is a parameter with the hypothesis that each method reads what its counterpart wrote, in
-- as many bytes as its type has (Codegen.Meaning.IsSerializer). commit takes the coding of
-- actions and replies as a parameter, which Committing fills with the generated code. A remote
-- call runs on a record (Skinny, Server) of what is no code of the repository: NuRaft's answer to
-- an appended action, whether this server leads, and what the other threads do to the state while
-- a call waits. NuRaft's cluster is relied on to know a server still while others are added
-- (Server.Joined.IsRaft), and not to take every server that it is asked for. What the source leaves uninitialised (the number of a thread's first event) is an
-- argument. Every loop of the state machine goes over a list or counts handles, and the keepalive
-- thread's loop is cut into rounds, whose wake-ups and timeouts are inputs, so that its theorems
-- hold for every interleaving of rounds and calls. The client's repeated calls run over the list
-- of the answers that they get, so that a loop is a recursion on that list; in
-- Client/Conversation a call that the server's thread finishes reaches the client. A wait
-- runs over the list of its wake-ups (Acquire), or for a number of rounds (the loop that joins the
-- cluster), and comes out as the fault `waiting` where it has not ended by then. The digits of a
-- number run on fuel, which is one more than the number and so more than it has digits. The order
-- in which the source walks a std::unordered_set or std::unordered_map is that of the list that
-- stands for it.
--
-- Not modelled: the parsing of a protobuf file, which is protobuf's; the set-up of NuRaft and
-- gRPC, the mutexes that guard one object of the program for the length of a method (a method's body
-- is one step), the output, the clocks and the sleeps of the
-- demos and measurements.
mod Prelude
pub mod Exec
pub mod Decimal
pub mod Dict
pub mod FilePath
pub mod Directory
pub mod Store
pub mod Session
pub mod Action
pub mod StateMachine
pub mod Skinny
pub mod Client
pub mod Codegen
pub mod Perf
pub mod Demo
pub mod Server
mod Tests
