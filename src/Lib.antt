-- ===== src/Lib.antt =====
-- LegoStore: a multi-version transactional key-value store. This library models its lock manager, which
-- grants transactions locks on intervals of time of a key, its servers, and the clients that run
-- transactions on them.
--
-- The parts, and the files that model them:
--   Prelude             Boolean tests and `uint64_t` on the native numbers, `std::map` and `std::set`
--                       of numbers as sorted lists, and outcomes (a value, a fault, out of fuel).
--   LockNode            src/AVLTreeLockNode.{h,cc} and src/LockStatus.h. `Tree` is the AVL tree of
--                       nodes, with the cached heights. `updateHeight`, `swap`, `balance`, `find` and
--                       `insert` are `update_height`, `swap`, `rebalance`, `find` and `insert_at`. A
--                       pointer to a node is the number `addr`; `get` and `modify` read and write
--                       through it. The climb over the parent pointers is the return from the recursion.
--   LockNode/Descending The nodes as a list from the latest interval to the earliest.
--   LockNode/Balance    Heights and rotations.
--   LockNode/Height     The height of a balanced tree against its size.
--   LockNode/Find       The vector of `find` as a path to nodes.
--   LockNode/InsertBelow Insertion of a piece that ends where its node starts.
--   LockNode/Remove     `remove`, by the rightmost node of the left subtree; Shrunk, Dropped and Contract
--                       are about the heights and the order of the nodes after it.
--   LockManager         src/AVLTreeLockManager.{h,cc}. `KeyInfo`, `TransactionInfo` and `LockManager`
--                       are the structs and the class; `try_backward_lock`, `try_lock`, and, up to the
--                       last loop of `freeze` and of `unlock`, `freeze_intervals` and `unlock_intervals` are
--                       its operations, each composed from its parts: `prepare_walk`, `walk`, `visit`,
--                       `finish_walk`; `scan`, `claim_all`; `sweep`, `sweep_keys`.
--   LockManager/Valid   What is kept true of the tree of a key, and the state of each time.
--   LockManager/Split, Prepare, Backward, Granted, Times, BackwardLock
--                       The steps of `tryBackwardLock` on the tree of a key.
--   LockManager/Invariant, TryBackwardLock, Intervals, Recorded
--                       The operation on the manager, with its maps; Intervals and Recorded are about the
--                       intervals and the events that it notes.
--   LockManager/SplitBelow, Claim, LockRange, TryLock
--                       The steps of `tryLock` for an interval that lies in one node.
--   LockManager/Sweep, SweepTree, SweepTimes, SweepKeys, Woken, Release
--                       The steps of `freeze` and `unlock`, on a tree and on the manager; Woken has
--                       the events that they run.
--   LockManager/Ready, Safe, History
--                       The recorded intervals, and histories of calls. A manager is safe if its trees
--                       are valid and the intervals of each transaction start after 0, end below 2^64
--                       and stand one for each key, as they do at the start.
--   SafeQueue           src/SafeQueue.{h,cc}: `enqueue`, `dequeue` and `try_dequeue`, and `Steps`, the
--                       histories of the queue; an operation that has to wait has no step.
--   Request             src/Request.h; Request/Message has the messages of src/protos/MvtkvsService.proto.
--   GrpcClient          src/GRPCClient.{h,cc}: `sync_rpc`, `async_rpc` and `wait_async_reply`, with gRPC as
--                       the parameter `Network`. GrpcClient/Agree compares the two ways to call.
--   GrpcServer          src/GRPCServer.{h,cc}: the handlers and queues, `get_args`, `set_reply`,
--                       `process_completion`, `next_request`, `send_reply`, `delete_request` and the like.
--                       GrpcServer/RoundTrip follows a call from a client to a server and back, and
--                       GrpcServer/Lifecycle the status of a handler.
--   TServer             src/TServer.h and src/SimpleTServer.{h,cc}: `get`, `set`, `add`, `prepare` and
--                       `finalize`. TServer/Store says which value a key has at a time.
--   ServerEvent         src/ServerEvent.{h,cc}: `run` of the four kinds of events on a `World`, the server
--                       with its lock manager, events and sent replies. `freeze` and `unlock` of the lock
--                       manager, with the events that they run, stand there. ServerEvent/Read puts a read together
--                       with the lock manager; ServerEvent/Dispatch is `getEvent` of src/SimpleTServer.cc.
--                       ServerEvent/Keeps and Mutex are about the mutex that it may leave locked.
--   ResolutionClient    src/SimpleResolutionClient.{h,cc}: `request` of the four types, over an
--                       interface `RpcClient`; ResolutionClient/Read puts GrpcClient there.
--                       ResolutionClient/Addresses and Phases are about the phases of a commit.
--   Generator           src/SimpleTransactionIDGenerator.{h,cc} and src/SimpleKeyMapper.{h,cc}.
--   Coordinator         src/Coordinator.{h,cc}: `read`, `write`, `commit` and `abort` over a function `request`;
--                       Coordinator/Commit is about the participants, Coordinator/Transaction about whole
--                       transactions, and Coordinator/Network puts the resolution client there. The servers are the record `Answering`: a
--                       call is sent, and answered once under its tag.
--   Coordinator/Withdraw
--                       src/WithdrawCoordinator.{h,cc}: `run`, with `atoi` and `to_string` as parameters. An
--                       `int` is the number below 2^32 with its bits.
--   The modules Tests   Runs of src/LockManagerTest.cc and of the servers, and concrete instances.
--
-- A call is one step, because it holds the mutexes of what it reads and writes. Time is `uint64_t`: a
-- number with `inc64` and `dec64` written out. A pointer that leads nowhere, `back()` of an empty vector,
-- and a map entry that is missing where it is dereferenced are `fault`. The loop of `tryBackwardLock` has
-- fuel for one round more than the tree has nodes, and that of `freeze` and `unlock` for two more; the
-- number of rounds of the first loop of `tryLock` is an argument. An event is a number, and `freeze_intervals` and
-- `unlock_intervals` return the events that are to run. `run` of an event has a depth, for the events that run inside
-- of one another; the rounds of a commit at the resolution client have fuel. Memory that was never written
-- is a parameter, also where the pointer of a read leads that the resolution client never sets; a pointer that
-- leads nowhere, as a null pointer, is `none`, and to follow it is a fault.
--
-- Not modelled: what only prints, as `toString`; the release of memory and the destructors of the server
-- and the client; the notification of threads; the generator of timestamps and the main programs; the gRPC
-- library and the code that protoc generates. `tryLock` is modelled for all intervals, but the results
-- about it are on an interval that lies in one node: on a longer one it may pass over a lock, as a run in
-- LockManager/TryLockTests does.
pub mod Prelude
pub mod LockNode
pub mod LockManager
pub mod SafeQueue
pub mod Request
pub mod Generator
pub mod GrpcClient
pub mod GrpcServer
pub mod TServer
pub mod ServerEvent
pub mod ResolutionClient
pub mod Coordinator
