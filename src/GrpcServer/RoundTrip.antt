-- ===== src/GrpcServer/RoundTrip.antt =====
-- A remote call from src/GRPCClient.cc to src/GRPCServer.cc and back: the request that the client makes of
-- its arguments, and the reply that the server makes of its own.
use mvtx.Prelude.{
  ℕ, ◌≡◌, refl, ap, sym, ◌∙◌, Bool, Option, none, some, List, [], if◌then◌else◌, Bool-cases, inl,
  inr,
}
use mvtx.Prelude.Set
use mvtx.Prelude.Run.{ok}
use mvtx.Request.{
  Request, tread, twrite, tp1c, tp2c, ReadArgs, WriteArgs, P1cArgs, P2cArgs, RpcReadArgs, RpcArgs,
  Bytes,
}
use mvtx.Request.Message.{Message, Reply, ReadReply}
use mvtx.GrpcClient.{
  make_read_request, make_write_request, make_phase_one_commit_request,
  make_phase_two_commit_request, read_reply, write_reply, p1c_reply, p2c_reply,
}
use mvtx.GrpcServer.{
  Uninitialised, Handler, Body, process, finish, new_body, receive, get_args, get_request,
  set_reply, fill_args, args_of, make_reply, type_of,
}

-- The type of a request, and the message that the client makes of it.
abbrev pub kind : RpcArgs → Request
kind (RpcArgs.read a) = tread
kind (RpcArgs.write a) = twrite
kind (RpcArgs.p1c a) = tp1c
kind (RpcArgs.p2c a) = tp2c

unfoldable pub message : RpcArgs → Message
unfolding make_read_request make_write_request make_phase_one_commit_request
    make_phase_two_commit_request
message (RpcArgs.read a) = Message.read (make_read_request a.read_args)
message (RpcArgs.write a) = Message.write (make_write_request a.write_args)
message (RpcArgs.p1c a) = Message.p1c (make_phase_one_commit_request a.p1c_args)
message (RpcArgs.p2c a) = Message.p2c (make_phase_two_commit_request a.p2c_args)

-- What a client asks for.
pub data Payload : Type 0 where
  read : ReadArgs → Payload
  write : WriteArgs → Payload
  p1c : P1cArgs → Payload
  p2c : P2cArgs → Payload

abbrev pub payload : RpcArgs → Payload
payload (RpcArgs.read a) = Payload.read a.read_args
payload (RpcArgs.write a) = Payload.write a.write_args
payload (RpcArgs.p1c a) = Payload.p1c a.p1c_args
payload (RpcArgs.p2c a) = Payload.p2c a.p2c_args

-- The sets of a phase one commit are sets.
abbrev pub HasSets : RpcArgs → Type 0
HasSets (RpcArgs.p1c a) = Set.IsSorted a.p1c_args.read_nodes × Set.IsSorted a.p1c_args.write_nodes
HasSets _ = Unit {0}

-- The new handler that is given the message.
abbrev pub received : Uninitialised → RpcArgs → Handler
received u args = record {
  status = process;
  body = receive (some (message args)) (new_body u (kind args));
}

-- What a request comes to at the server.
pub record Arrived (u : Uninitialised) (args : RpcArgs) : Type 0 where
  pub server_args : RpcArgs
  pub handler : Handler
  pub request : get_request (received u args) ≡ ok (kind args)
  pub runs : get_args (received u args) ≡ ok (server_args, handler)
  pub same : payload server_args ≡ payload args

-- The message that the client makes of its arguments, with sets in order, received by a new handler of
-- its type: `getRequest` gives the type and `getArgs` the same request, whatever the memory of the
-- handler held.
pub request-Arrived : (u : Uninitialised) (args : RpcArgs) → HasSets args → Arrived u args
unfolding get_args get_request message new_body fill_args
request-Arrived u (RpcArgs.read a) h = record {
  server_args = _;
  handler = _;
  request = refl;
  runs = refl;
  same = refl;
}
request-Arrived u (RpcArgs.write a) h = record {
  server_args = _;
  handler = _;
  request = refl;
  runs = refl;
  same = refl;
}
request-Arrived u (RpcArgs.p1c a) h = record {
  server_args = _;
  handler = _;
  request = refl;
  runs = refl;
  same =
      rw
        (
          Set.insert_all-nil a.p1c_args.read_nodes h.0,
          Set.insert_all-nil a.p1c_args.write_nodes h.1,
        )
        refl;
}
request-Arrived u (RpcArgs.p2c a) h = record {
  server_args = _;
  handler = _;
  request = refl;
  runs = refl;
  same = refl;
}

-- The reply as the client takes it into arguments of its type.
unfoldable pub take_reply : Reply → RpcArgs → RpcArgs
unfolding read_reply write_reply p1c_reply p2c_reply
take_reply (Reply.read r) (RpcArgs.read a) = RpcArgs.read (read_reply r a)
take_reply (Reply.write r) (RpcArgs.write a) = RpcArgs.write (write_reply r a)
take_reply (Reply.p1c r) (RpcArgs.p1c a) = RpcArgs.p1c (p1c_reply r a)
take_reply (Reply.p2c r) (RpcArgs.p2c a) = RpcArgs.p2c (p2c_reply r a)
take_reply _ args = args

-- What a client learns: a value only counts if the status is true.
pub data Results : Type 0 where
  read : (status : Bool) → Option Bytes → Results
  write : (status : Bool) → Results
  p1c : (nodes : List ℕ) → (vote : Bool) → Results
  p2c : (nodes : List ℕ) → Results

abbrev pub results : RpcArgs → Results
results (RpcArgs.read a) = Results.read a.status (if a.status then a.value else none)
results (RpcArgs.write a) = Results.write a.status
results (RpcArgs.p1c a) = Results.p1c a.nodes a.vote
results (RpcArgs.p2c a) = Results.p2c a.nodes

-- The server has set the value of a read, and its nodes are a set.
abbrev pub IsAnswered : Body → Type 0
IsAnswered (Body.read q a) = (value : Bytes) × (a.value ≡ some value)
IsAnswered (Body.write q a) = Unit {0}
IsAnswered (Body.p1c q a) = Set.IsSorted a.nodes
IsAnswered (Body.p2c q a) = Set.IsSorted a.nodes

-- The client's set of nodes is empty before the call.
abbrev pub HasNoNodes : RpcArgs → Type 0
HasNoNodes (RpcArgs.p1c a) = a.nodes ≡ []
HasNoNodes (RpcArgs.p2c a) = a.nodes ≡ []
HasNoNodes _ = Unit {0}

-- What a reply comes to at the client.
pub record Replies (body : Body) (args : RpcArgs) : Type 0 where
  pub reply : Reply
  pub runs :
      set_reply (record { status = process; body = body })
      ≡ ok (reply, record { status = finish; body = body })
  pub same : results (take_reply reply args) ≡ results (args_of body)

read_results :
    (r : ReadReply) (a : RpcReadArgs)
    → results (RpcArgs.read (read_reply r a))
      ≡ Results.read r.status (if r.status then some r.value else none)
unfolding read_reply
read_results r a = elim (Bool-cases r.status) [ inl yes_ ↦ simp yes_ | inr no_ ↦ simp no_ ]

-- The reply of a handler that is being processed, has a value if it is a read, and a set of nodes in
-- order: taken by a client with arguments of the same type and no nodes, it gives the server's results,
-- where the value of a read counts only with a true status. The handler is finished.
pub reply-Replies :
    (body : Body) (args : RpcArgs)
    → kind args ≡ type_of body
    → IsAnswered body
    → HasNoNodes args
    → Replies body args
unfolding set_reply make_reply take_reply
reply-Replies (Body.read q b) (RpcArgs.read a) k (value, e) h = record {
  reply = Reply.read (record { value = value; status = b.status });
  runs = rw (e, make_reply) refl;
  same =
      read_results (record { value = value; status = b.status }) a
      ∙ ap (λ x. Results.read b.status (if b.status then x else none)) (sym e);
}
reply-Replies (Body.write q b) (RpcArgs.write a) k e h = record {
  reply = Reply.write (record { status = b.status });
  runs = refl;
  same = refl;
}
reply-Replies (Body.p1c q b) (RpcArgs.p1c a) k e h = record {
  reply = Reply.p1c (record { node = b.nodes; vote = b.vote });
  runs = refl;
  same =
      ap (λ x. Results.p1c x b.vote) (ap (Set.insert_all b.nodes) h ∙ Set.insert_all-nil b.nodes e);
}
reply-Replies (Body.p2c q b) (RpcArgs.p2c a) k e h = record {
  reply = Reply.p2c (record { node = b.nodes });
  runs = refl;
  same = ap (λ x. Results.p2c x) (ap (Set.insert_all b.nodes) h ∙ Set.insert_all-nil b.nodes e);
}
reply-Replies body args k e h = cc
