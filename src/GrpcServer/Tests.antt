-- ===== src/GrpcServer/Tests.antt =====
-- A phase one commit that goes through src/GRPCClient.cc and src/GRPCServer.cc.
use mvtx.Prelude.{refl, true, false, [], ◌∷◌, arith}
use mvtx.Prelude.Map
use mvtx.Request.{RpcP1cArgs, RpcArgs}
use mvtx.Request.Message.{Reply}
use mvtx.GrpcServer.{Uninitialised, GrpcServer, Body, process, make_reply}
use mvtx.GrpcServer.RoundTrip.{Arrived, Replies, request-Arrived, reply-Replies}
use mvtx.GrpcServer.Lifecycle.{Answered, send_reply-Answered}

abbrev junk : Uninitialised
junk = record { number = 77; flag = true }

abbrev commit_args : RpcP1cArgs
commit_args = record {
  p1c_args = record {
    tid = 5;
    start_ts = 10;
    commit_ts = 10;
    read_nodes = 0 ∷ 2 ∷ [];
    write_nodes = 1 ∷ [];
  };
  nodes = [];
  vote = false;
}

abbrev served_body : Body
served_body =
    Body.p1c
      (record {
        tid = 5;
        start_ts = 10;
        commit_ts = 10;
        read_node = 0 ∷ 2 ∷ [];
        write_node = 1 ∷ [];
      })
      (record commit_args { nodes = 0 ∷ 1 ∷ 2 ∷ []; vote = true })

abbrev busy_server : GrpcServer
busy_server = record {
  handlers = (9, record { status = process; body = served_body }) ∷ [];
  request_queue = [];
  reply_queue = [];
}

request-Arrived_example : Arrived junk (RpcArgs.p1c commit_args)
request-Arrived_example =
    request-Arrived junk (RpcArgs.p1c commit_args) ((omega arith, (tt, tt)), (tt, tt))

reply-Replies_example : Replies served_body (RpcArgs.p1c commit_args)
reply-Replies_example =
    reply-Replies served_body (RpcArgs.p1c commit_args) refl (omega arith, (omega arith, (tt, tt)))
      refl

send_reply-Answered_example :
    Answered 9 busy_server (Reply.p1c (record { node = 0 ∷ 1 ∷ 2 ∷ []; vote = true }))
unfolding Map.find make_reply
send_reply-Answered_example =
    send_reply-Answered 9 busy_server (record { status = process; body = served_body })
      (Reply.p1c (record { node = 0 ∷ 1 ∷ 2 ∷ []; vote = true })) refl refl refl
