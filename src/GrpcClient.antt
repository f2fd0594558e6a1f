-- ===== src/GrpcClient.antt =====
-- src/GRPCClient.{h,cc} and src/RPCClient.h: remote calls to the servers. The gRPC library is the
-- parameter `net` with the state `N`. An address is a number that names a host and a port; the
-- strings of the source are only compared. A handler owns the arguments that its pointer leads to, and
-- `wait_async_reply` returns them.
pub mod Tests
pub mod Agree
use mvtx.Prelude.{
  ℕ, zero, suc, Bool, true, false, ◌&&◌, Option, none, some, List, [], ◌∷◌, if◌then◌else◌,
}
use mvtx.Prelude.Map
use mvtx.Prelude.Map.{Map}
use mvtx.Prelude.Set
use mvtx.Prelude.Run.{Run, ok, fault, ◌>>=◌}
use mvtx.Request.{
  ReadArgs, WriteArgs, P1cArgs, P2cArgs, RpcReadArgs, RpcWriteArgs, RpcP1cArgs, RpcP2cArgs, RpcArgs,
}
use mvtx.Request.Message.{
  ReadRequest, ReadReply, WriteRequest, WriteReply, PhaseOneCommitRequest, PhaseOneCommitReply,
  PhaseTwoCommitRequest, PhaseTwoCommitReply,
}

-- How a call of gRPC ends: `Status::ok()`, the reply, and the network after it.
pub record Called (R N : Type 0) : Type 0 where
  pub success : Bool
  pub reply : R
  pub net : N

-- What the completion queue of a handler gives: `ok`, and what gRPC wrote to `_status` and `_reply`.
pub record Finished (R N : Type 0) : Type 0 where
  pub delivered : Bool
  pub success : Bool
  pub reply : R
  pub net : N

-- A method of the service: the blocking call, and the start and the end of the asynchronous one.
pub record Method (Q R N : Type 0) : Type 0 where
  pub call : ℕ → Q → N → Called R N
  pub send : ℕ → Q → N → ℕ × N
  pub finish : ℕ → N → Finished R N

pub record Network (N : Type 0) : Type 0 where
  pub read : Method ReadRequest ReadReply N
  pub write : Method WriteRequest WriteReply N
  pub p1c : Method PhaseOneCommitRequest PhaseOneCommitReply N
  pub p2c : Method PhaseTwoCommitRequest PhaseTwoCommitReply N

-- A handler: its address, the call that gRPC runs for it, and the arguments.
pub record Handler : Type 0 where
  pub addr : ℕ
  pub call : ℕ
  pub args : RpcArgs

-- A tag may be mapped to a null pointer.
pub record GrpcClient : Type 0 where
  pub address_to_stub : List ℕ
  pub tag_to_handler : Map (Option Handler)

unfoldable pub make_stub : ℕ → GrpcClient → GrpcClient
make_stub addr c =
    if Set.contains addr c.address_to_stub
    then c
    else record c { address_to_stub = Set.insert addr c.address_to_stub }

-- Whether `getStub` gives a stub and not a null pointer.
unfoldable pub get_stub : ℕ → GrpcClient → Bool
get_stub addr c = Set.contains addr c.address_to_stub

unfoldable pub make_read_request : ReadArgs → ReadRequest
make_read_request a = record { tid = a.tid; start_ts = a.start_ts; key = a.key }

unfoldable pub make_write_request : WriteArgs → WriteRequest
make_write_request a = record { tid = a.tid; key = a.key; value = a.value }

-- `add_read_node` and `add_write_node` in the order of the sets.
unfoldable pub make_phase_one_commit_request : P1cArgs → PhaseOneCommitRequest
make_phase_one_commit_request a = record {
  tid = a.tid;
  start_ts = a.start_ts;
  commit_ts = a.commit_ts;
  read_node = a.read_nodes;
  write_node = a.write_nodes;
}

unfoldable pub make_phase_two_commit_request : P2cArgs → PhaseTwoCommitRequest
make_phase_two_commit_request a = record { tid = a.tid; vote = a.vote }

-- What `proceed` writes to the arguments when a reply has been delivered.
unfoldable pub read_reply : ReadReply → RpcReadArgs → RpcReadArgs
read_reply r a =
    if r.status
    then record a { status = r.status; value = some r.value }
    else record a { status = r.status }

unfoldable pub write_reply : WriteReply → RpcWriteArgs → RpcWriteArgs
write_reply r a = record a { status = r.status }

unfoldable pub p1c_reply : PhaseOneCommitReply → RpcP1cArgs → RpcP1cArgs
p1c_reply r a = record a { nodes = Set.insert_all r.node a.nodes; vote = r.vote }

unfoldable pub p2c_reply : PhaseTwoCommitReply → RpcP2cArgs → RpcP2cArgs
p2c_reply r a = record a { nodes = Set.insert_all r.node a.nodes }

-- `rpc_read_args->value->assign(...)`: the pointer has to lead to a string.
unfoldable pub assign_value : ReadReply → RpcReadArgs → Run RpcReadArgs
assign_value r a = elim a.value [ none ↦ fault | some old ↦ ok (record a { value = some r.value }) ]

-- The result of a remote call, the arguments after it, the client and the network.
pub record Replied (N : Type 0) : Type 0 where
  pub res : Bool
  pub args : RpcArgs
  pub client : GrpcClient
  pub net : N

module _ {N : Type 0} (net : Network N) where
  -- `syncRPC`. The mutex is held during the call.
  unfoldable pub sync_rpc : ℕ → RpcArgs → GrpcClient → N → Run (Replied N)
  unfolding make_stub make_read_request make_write_request make_phase_one_commit_request
      make_phase_two_commit_request p1c_reply p2c_reply assign_value
  sync_rpc addr (RpcArgs.read a) c n = do
    let c' = make_stub addr c
    let called = net.read.call addr (make_read_request a.read_args) n
    let status = called.success && called.reply.status
    let a1 : RpcReadArgs = record a { status = status }
    a2 ← if status then assign_value called.reply a1 else ok a1
    ok (record { res = called.success; args = RpcArgs.read a2; client = c'; net = called.net })
  sync_rpc addr (RpcArgs.write a) c n =
      let called = net.write.call addr (make_write_request a.write_args) n in
      let a1 : RpcWriteArgs = record a { status = called.success && called.reply.status } in
      ok (record {
        res = called.success;
        args = RpcArgs.write a1;
        client = make_stub addr c;
        net = called.net;
      })
  sync_rpc addr (RpcArgs.p1c a) c n =
      let called = net.p1c.call addr (make_phase_one_commit_request a.p1c_args) n in
      ok (record {
        res = called.success;
        args = RpcArgs.p1c (if called.success then p1c_reply called.reply a else a);
        client = make_stub addr c;
        net = called.net;
      })
  sync_rpc addr (RpcArgs.p2c a) c n =
      let called = net.p2c.call addr (make_phase_two_commit_request a.p2c_args) n in
      ok (record {
        res = called.success;
        args = RpcArgs.p2c (if called.success then p2c_reply called.reply a else a);
        client = make_stub addr c;
        net = called.net;
      })

  -- The constructors of the handlers start the call.
  unfoldable pub start : ℕ → RpcArgs → N → Handler × N
  unfolding make_read_request make_write_request make_phase_one_commit_request
      make_phase_two_commit_request
  start addr (RpcArgs.read a) n =
      let s = net.read.send addr (make_read_request a.read_args) n in
      (record { addr = addr; call = s.0; args = RpcArgs.read a }, s.1)
  start addr (RpcArgs.write a) n =
      let s = net.write.send addr (make_write_request a.write_args) n in
      (record { addr = addr; call = s.0; args = RpcArgs.write a }, s.1)
  start addr (RpcArgs.p1c a) n =
      let s = net.p1c.send addr (make_phase_one_commit_request a.p1c_args) n in
      (record { addr = addr; call = s.0; args = RpcArgs.p1c a }, s.1)
  start addr (RpcArgs.p2c a) n =
      let s = net.p2c.send addr (make_phase_two_commit_request a.p2c_args) n in
      (record { addr = addr; call = s.0; args = RpcArgs.p2c a }, s.1)

  unfoldable pub async_rpc : ℕ → ℕ → RpcArgs → GrpcClient → N → GrpcClient × N
  unfolding make_stub start
  async_rpc addr tag args c n =
      let c' = make_stub addr c in
      let s = start addr args n in
      (record c' { tag_to_handler = Map.set tag (some s.0) c'.tag_to_handler }, s.1)

  -- `proceed`: `Status::ok()` and the arguments after it.
  unfoldable pub proceed : ℕ → RpcArgs → N → Bool × RpcArgs × N
  unfolding read_reply write_reply p1c_reply p2c_reply
  proceed call (RpcArgs.read a) n =
      let f = net.read.finish call n in
      (f.success, RpcArgs.read (if f.delivered then read_reply f.reply a else a), f.net)
  proceed call (RpcArgs.write a) n =
      let f = net.write.finish call n in
      (f.success, RpcArgs.write (if f.delivered then write_reply f.reply a else a), f.net)
  proceed call (RpcArgs.p1c a) n =
      let f = net.p1c.finish call n in
      (f.success, RpcArgs.p1c (if f.delivered then p1c_reply f.reply a else a), f.net)
  proceed call (RpcArgs.p2c a) n =
      let f = net.p2c.finish call n in
      (f.success, RpcArgs.p2c (if f.delivered then p2c_reply f.reply a else a), f.net)

  -- `delete _tag_to_handler[tag]` after the erasure inserts the tag again, with a null pointer.
  unfoldable pub wait_async_reply : ℕ → GrpcClient → N → Run (Replied N)
  unfolding proceed
  wait_async_reply tag c n = elim (Map.find tag c.tag_to_handler) [
    | none ↦ fault
    | some none ↦ fault
    | some (some h) ↦
        let p = proceed h.call h.args n in
        let kept = Map.set tag (some (record h { args = p.1 })) c.tag_to_handler in
        let dropped = Map.set tag none (Map.erase tag c.tag_to_handler) in
        ok (record {
          res = p.0;
          args = p.1;
          client = record c { tag_to_handler = if p.0 then dropped else kept };
          net = p.2;
        })
  ]
