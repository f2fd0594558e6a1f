-- ===== src/GrpcServer/Lifecycle.antt =====
-- The life of a request handler of src/GRPCServer.cc: one reply, then deletion.
use mvtx.Prelude.{ℕ, ◌≡◌, refl, ◌∙◌, false, some, ◌==◌}
use mvtx.Prelude.Map
use mvtx.Prelude.Map.{find-set, find-set_self}
use mvtx.Prelude.Run.{ok, fault}
use mvtx.Request.Message.{Reply}
use mvtx.GrpcServer.{
  GrpcServer, Handler, process, finish, make_reply, set_reply, send_reply, delete_request,
}

-- What `sendReply` does for a request that is being processed.
pub record Answered (rid : ℕ) (s : GrpcServer) (reply : Reply) : Type 0 where
  pub s' : GrpcServer
  pub runs : send_reply rid s ≡ ok (reply, s')
  pub once : send_reply rid s' ≡ fault
  pub kept : delete_request rid s ≡ fault
  pub deleted : delete_request rid s' ≡ ok (record s' { handlers = Map.erase rid s'.handlers })
  pub others : (k : ℕ) → (rid == k) ≡ false → Map.find k s'.handlers ≡ Map.find k s.handlers
  pub queues : (s'.request_queue ≡ s.request_queue) × (s'.reply_queue ≡ s.reply_queue)

-- For a handler in the status PROCESS with a reply to make, `sendReply` sends it; a second `sendReply`
-- exits, `deleteRequest` exits before the reply and deletes the handler after it, and the other handlers
-- and the queues stay.
pub send_reply-Answered :
    (rid : ℕ) (s : GrpcServer) (h : Handler) (reply : Reply)
    → Map.find rid s.handlers ≡ some h
    → h.status ≡ process
    → make_reply h.body ≡ ok reply
    → Answered rid s reply
unfolding send_reply set_reply delete_request
send_reply-Answered rid s h reply at open_ made =
    let h' : Handler = record h { status = finish } in
    let handlers = Map.set rid h' s.handlers in
    let found = find-set_self rid h' s.handlers in
    record {
      s' = record s { handlers = handlers };
      runs = rw (at, send_reply, open_, set_reply, made) refl;
      once = rw (found, send_reply) refl;
      kept = rw (at, delete_request, open_) refl;
      deleted = rw (found, delete_request) refl;
      others = λ k other. find-set rid k h' s.handlers ∙ rw other refl;
      queues = (refl, refl);
    }
