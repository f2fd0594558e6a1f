-- ===== src/GrpcServer.antt =====
-- src/GRPCServer.{h,cc} and src/RPCServer.h: the handlers of requests and the queues of the server. A
-- request ID is the address of a handler. What gRPC delivers is a list of completions; what is sent back
-- is a list of replies. `exit`, a failed `assert` and a bad pointer are faults.
pub mod Tests
pub mod Lifecycle
pub mod RoundTrip
use mvtx.Prelude.{
  ℕ, zero, suc, ◌+◌, Bool, true, false, Option, none, some, List, [], ◌∷◌, ◌++◌, if◌then◌else◌, leb,
}
use mvtx.Prelude.Map
use mvtx.Prelude.Map.{Map}
use mvtx.Prelude.Set
use mvtx.Prelude.Run.{Run, ok, fault, out_of_fuel, ◌>>=◌}
use mvtx.Request.{
  Request, tread, twrite, tp1c, tp2c, RpcReadArgs, RpcWriteArgs, RpcP1cArgs, RpcP2cArgs, RpcArgs,
}
use mvtx.Request.Message.{
  ReadRequest, WriteRequest, PhaseOneCommitRequest, PhaseTwoCommitRequest, Message, Reply,
}

pub data RequestStatus : Type 0 where
  create process finish : RequestStatus

-- The fields of the four classes of handlers: the request that gRPC fills, and the arguments.
pub data Body : Type 0 where
  read : ReadRequest → RpcReadArgs → Body
  write : WriteRequest → RpcWriteArgs → Body
  p1c : PhaseOneCommitRequest → RpcP1cArgs → Body
  p2c : PhaseTwoCommitRequest → RpcP2cArgs → Body

pub record Handler : Type 0 where
  pub status : RequestStatus
  pub body : Body

pub record GrpcServer : Type 0 where
  pub handlers : Map Handler
  pub request_queue : List ℕ
  pub reply_queue : List ℕ

-- What memory that was never written holds.
pub record Uninitialised : Type 0 where
  pub number : ℕ
  pub flag : Bool

-- The constructors of the handlers. An empty message stands in `_request` until gRPC fills it. The
-- pointer to the value of a read is not set.
abbrev pub new_read : Uninitialised → Body
new_read u =
    Body.read (record { tid = 0; start_ts = 0; key = 0 })
      (record {
        read_args = record { tid = u.number; start_ts = u.number; key = u.number };
        value = none;
        status = u.flag;
      })

abbrev pub new_write : Uninitialised → Body
new_write u =
    Body.write (record { tid = 0; key = 0; value = [] })
      (record {
        write_args = record { tid = u.number; key = u.number; value = [] };
        status = u.flag;
      })

abbrev pub new_p1c : Uninitialised → Body
new_p1c u =
    Body.p1c (record { tid = 0; start_ts = 0; commit_ts = 0; read_node = []; write_node = [] })
      (record {
        p1c_args = record {
          tid = u.number;
          start_ts = u.number;
          commit_ts = u.number;
          read_nodes = [];
          write_nodes = [];
        };
        nodes = [];
        vote = u.flag;
      })

abbrev pub new_p2c : Uninitialised → Body
new_p2c u =
    Body.p2c (record { tid = 0; vote = false })
      (record { p2c_args = record { tid = u.number; vote = u.flag }; nodes = [] })

unfoldable pub new_body : Uninitialised → Request → Body
new_body u tread = new_read u
new_body u twrite = new_write u
new_body u tp1c = new_p1c u
new_body u tp2c = new_p2c u

unfoldable pub new_handler : Uninitialised → Request → Handler
unfolding new_body
new_handler u request = record { status = process; body = new_body u request }

abbrev max : ℕ → ℕ → ℕ
max a b = if leb a b then b else a

max_key : Map Handler → ℕ
max_key [] = 0
max_key ((k, h) ∷ m) = max k (max_key m)

-- An address that `new` may return: no handler has it, and it is not 0.
unfoldable pub fresh : Map Handler → ℕ
unfolding max_key
fresh m = max_key m + 1

unfoldable pub prepare_next_request : Uninitialised → Request → GrpcServer → GrpcServer
unfolding new_handler fresh
prepare_next_request u request s = record s {
  handlers = Map.set (fresh s.handlers) (new_handler u request) s.handlers;
}

-- The constructor of the server: one handler waits for each type of request.
unfoldable pub new_server : Uninitialised → GrpcServer
unfolding prepare_next_request
new_server u = prepare_next_request u tp2c (
    prepare_next_request u tp1c (
      prepare_next_request u twrite (
        prepare_next_request u tread
          (record { handlers = []; request_queue = []; reply_queue = [] }))))

-- `getRequest` of the four classes.
abbrev pub type_of : Body → Request
type_of (Body.read q a) = tread
type_of (Body.write q a) = twrite
type_of (Body.p1c q a) = tp1c
type_of (Body.p2c q a) = tp2c

-- The test of the status that exits.
abbrev pub check_process : RequestStatus → Run (Unit {0})
check_process create = fault
check_process process = ok tt
check_process finish = fault

unfoldable pub get_request : Handler → Run Request
get_request h = do u ← check_process h.status; ok (type_of h.body)

-- `getArgs` of the four classes: the request is copied into the arguments.
abbrev pub fill_read : ReadRequest → RpcReadArgs → RpcReadArgs
fill_read q a = record a { read_args = record { tid = q.tid; start_ts = q.start_ts; key = q.key } }

abbrev pub fill_write : WriteRequest → RpcWriteArgs → RpcWriteArgs
fill_write q a = record a { write_args = record { tid = q.tid; key = q.key; value = q.value } }

abbrev pub fill_p1c : PhaseOneCommitRequest → RpcP1cArgs → RpcP1cArgs
fill_p1c q a = record a {
  p1c_args = record {
    tid = q.tid;
    start_ts = q.start_ts;
    commit_ts = q.commit_ts;
    read_nodes = Set.insert_all q.read_node a.p1c_args.read_nodes;
    write_nodes = Set.insert_all q.write_node a.p1c_args.write_nodes;
  };
}

abbrev pub fill_p2c : PhaseTwoCommitRequest → RpcP2cArgs → RpcP2cArgs
fill_p2c q a = record a { p2c_args = record { tid = q.tid; vote = q.vote } }

unfoldable pub fill_args : Body → Body
fill_args (Body.read q a) = Body.read q (fill_read q a)
fill_args (Body.write q a) = Body.write q (fill_write q a)
fill_args (Body.p1c q a) = Body.p1c q (fill_p1c q a)
fill_args (Body.p2c q a) = Body.p2c q (fill_p2c q a)

abbrev pub args_of : Body → RpcArgs
args_of (Body.read q a) = RpcArgs.read a
args_of (Body.write q a) = RpcArgs.write a
args_of (Body.p1c q a) = RpcArgs.p1c a
args_of (Body.p2c q a) = RpcArgs.p2c a

-- A write through the pointer to the arguments.
abbrev pub put_args : RpcArgs → Body → Body
put_args (RpcArgs.read a) (Body.read q b) = Body.read q a
put_args (RpcArgs.write a) (Body.write q b) = Body.write q a
put_args (RpcArgs.p1c a) (Body.p1c q b) = Body.p1c q a
put_args (RpcArgs.p2c a) (Body.p2c q b) = Body.p2c q a
put_args _ body = body

-- The arguments, and the handler that holds them.
unfoldable pub get_args : Handler → Run (RpcArgs × Handler)
unfolding fill_args
get_args h = do
  u ← check_process h.status
  let body = fill_args h.body
  ok (args_of body, record h { body = body })

-- The replies of `setReply`; that of a read copies the string that the pointer leads to.
abbrev pub reply_read : RpcReadArgs → Run Reply
reply_read a = elim a.value [
  | none ↦ fault
  | some value ↦ ok (Reply.read (record { value = value; status = a.status }))
]

abbrev pub reply_write : RpcWriteArgs → Run Reply
reply_write a = ok (Reply.write (record { status = a.status }))

abbrev pub reply_p1c : RpcP1cArgs → Run Reply
reply_p1c a = ok (Reply.p1c (record { node = a.nodes; vote = a.vote }))

abbrev pub reply_p2c : RpcP2cArgs → Run Reply
reply_p2c a = ok (Reply.p2c (record { node = a.nodes }))

unfoldable pub make_reply : Body → Run Reply
make_reply (Body.read q a) = reply_read a
make_reply (Body.write q a) = reply_write a
make_reply (Body.p1c q a) = reply_p1c a
make_reply (Body.p2c q a) = reply_p2c a

unfoldable pub set_reply : Handler → Run (Reply × Handler)
unfolding make_reply
set_reply h = do
  u ← check_process h.status
  reply ← make_reply h.body
  ok (reply, record h { status = finish })

-- What a completion queue delivers: a tag, `ok`, and the message if it is that of a new request.
pub record Completion : Type 0 where
  pub tag : ℕ
  pub delivered : Bool
  pub message : Option Message

-- gRPC writes the message into `_request` of the handler.
abbrev pub receive : Option Message → Body → Body
receive (some (Message.read q)) (Body.read p a) = Body.read q a
receive (some (Message.write q)) (Body.write p a) = Body.write q a
receive (some (Message.p1c q)) (Body.p1c p a) = Body.p1c q a
receive (some (Message.p2c q)) (Body.p2c p a) = Body.p2c q a
receive _ body = body

-- A completion, by the status of its handler.
unfoldable pub sort_completion :
    RequestStatus → Uninitialised → ℕ → Handler → GrpcServer → Run GrpcServer
unfolding prepare_next_request get_request
sort_completion create u tag h s = ok s
sort_completion process u tag h s = do
  request ← get_request h
  ok (prepare_next_request u request (record s { request_queue = s.request_queue ++ (tag ∷ []) }))
sort_completion finish u tag h s = ok (record s { reply_queue = s.reply_queue ++ (tag ∷ []) })

-- One completion is taken: `processSyncQueue`, and a round of `processAsyncQueue`.
unfoldable pub process_completion : Uninitialised → Completion → GrpcServer → Run GrpcServer
unfolding sort_completion
process_completion u c s = elim (Map.find c.tag s.handlers) [
  | none ↦ fault
  | some h ↦
      let h' = record h { body = receive c.message h.body } in
      let s' = record s { handlers = Map.set c.tag h' s.handlers } in
      if c.delivered then sort_completion h'.status u c.tag h' s' else fault
]

-- `processAsyncQueue`, when these completions are there.
unfoldable pub process_async_queue : Uninitialised → List Completion → GrpcServer → Run GrpcServer
unfolding process_completion
process_async_queue u [] s = ok s
process_async_queue u (c ∷ cs) s = do s' ← process_completion u c s; process_async_queue u cs s'

-- What is handed out for a request, and the server after it.
pub record NextRequest : Type 0 where
  pub rid : ℕ
  pub request : Request
  pub args : RpcArgs
  pub server : GrpcServer

-- The first request of the queue; `none` if there is none.
unfoldable pub pop_request : List ℕ → GrpcServer → Run (Option NextRequest)
unfolding get_request get_args
pop_request [] s = ok none
pop_request (rid ∷ queue) s = elim (Map.find rid s.handlers) [
  | none ↦ fault
  | some h ↦ do
    request ← get_request h
    (args, h') ← get_args h
    let s' = record s { handlers = Map.set rid h' s.handlers; request_queue = queue }
    ok (some (record { rid = rid; request = request; args = args; server = s' }))
]

-- `nextRequest` waits for completions until there is a request; when they run out, it is still waiting.
unfoldable pub next_request :
    Uninitialised → List Completion → GrpcServer → Run (NextRequest × List Completion)
unfolding process_completion pop_request
next_request u [] s = do
  next ← pop_request s.request_queue s
  elim next [ none ↦ out_of_fuel | some n ↦ ok (n, []) ]
next_request u (c ∷ cs) s = do
  next ← pop_request s.request_queue s
  elim next [
    | some n ↦ ok (n, c ∷ cs)
    | none ↦ do s' ← process_completion u c s; next_request u cs s'
  ]

unfoldable pub async_next_request :
    Uninitialised → List Completion → GrpcServer → Run (Option NextRequest × GrpcServer)
unfolding process_async_queue pop_request
async_next_request u cs s = do
  s' ← process_async_queue u cs s
  next ← pop_request s'.request_queue s'
  elim next [ none ↦ ok (none, s') | some n ↦ ok (some n, n.server) ]

unfoldable pub send_reply : ℕ → GrpcServer → Run (Reply × GrpcServer)
unfolding set_reply
send_reply rid s = elim (Map.find rid s.handlers) [
  | none ↦ fault
  | some h ↦ do
    (reply, h') ← set_reply h
    ok (reply, record s { handlers = Map.set rid h' s.handlers })
]

abbrev pub pop_reply : List ℕ → GrpcServer → Option (ℕ × GrpcServer)
pop_reply [] s = none
pop_reply (rid ∷ queue) s = some (rid, record s { reply_queue = queue })

-- `nextCompletedReply` takes one completion and then the front of the queue, which may be empty.
unfoldable pub next_completed_reply : Uninitialised → Completion → GrpcServer → Run (ℕ × GrpcServer)
unfolding process_completion
next_completed_reply u c s = do
  s' ← process_completion u c s
  elim (pop_reply s'.reply_queue s') [ none ↦ fault | some out ↦ ok out ]

unfoldable pub async_next_completed_reply :
    Uninitialised → List Completion → GrpcServer → Run (Option ℕ × GrpcServer)
unfolding process_async_queue
async_next_completed_reply u cs s = do
  s' ← process_async_queue u cs s
  ok (elim (pop_reply s'.reply_queue s') [ none ↦ (none, s') | some (rid, s'') ↦ (some rid, s'') ])

-- `deleteRequest`, with the destructor of the handler.
abbrev pub check_finish : RequestStatus → Run (Unit {0})
check_finish create = fault
check_finish process = fault
check_finish finish = ok tt

unfoldable pub delete_request : ℕ → GrpcServer → Run GrpcServer
delete_request rid s = elim (Map.find rid s.handlers) [
  | none ↦ fault
  | some h ↦ do u ← check_finish h.status; ok (record s { handlers = Map.erase rid s.handlers })
]

-- What the handler of a request does to its arguments between `getArgs` and the reply.
unfoldable pub set_args : ℕ → RpcArgs → GrpcServer → GrpcServer
set_args rid args s = elim (Map.find rid s.handlers) [
  | none ↦ s
  | some h ↦ record s {
    handlers = Map.set rid (record h { body = put_args args h.body }) s.handlers;
  }
]
