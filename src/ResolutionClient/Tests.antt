-- ===== src/ResolutionClient/Tests.antt =====
-- A read of src/SimpleResolutionClient.cc at a network that answers, and a phase one over servers that
-- own the nodes 2 and 4 and vote for a commit.
use mvtx.Prelude.{
  ℕ, ◌+◌, ◌<◌, ◌≡◌, refl, ◌∙◌, Bool, true, false, Option, none, some, [], ◌∷◌, arith,
}
use mvtx.Prelude.Map
use mvtx.Prelude.Set
use mvtx.Prelude.Map.{find-set, find-set_self, find-erase}
use mvtx.Prelude.Run.{Run, ok, fault, ◌>>=◌}
use mvtx.Request.{Bytes, RslReadArgs, RslP1cArgs, RpcArgs}
use mvtx.GrpcClient.{Method, Network, GrpcClient, sync_rpc}
use mvtx.ResolutionClient.{ResolutionClient, RpcClient, Uninitialised, take_read, request_read}
use mvtx.ResolutionClient.Phases.{Answering}
use mvtx.ResolutionClient.Read.{grpc, ReadAnswered, request_read-Answered}

abbrev answering : {Q R : Type 0} → R → Method Q R ℕ
answering r = record {
  call = λ addr q n. record { success = true; reply = r; net = n + 1 };
  send = λ addr q n. (n, n + 1);
  finish = λ call n. record { delivered = true; success = true; reply = r; net = n };
}

abbrev local_net : Network ℕ
local_net = record {
  read = answering (record { value = 48 ∷ []; status = true });
  write = answering (record { status = true });
  p1c = answering (record { node = []; vote = true });
  p2c = answering (record { node = [] });
}

abbrev client : ResolutionClient (GrpcClient × ℕ)
client = record {
  node_to_address = (0, 10000) ∷ [];
  tag = 135643;
  rpc_client = (record { address_to_stub = []; tag_to_handler = [] }, 0);
}

abbrev pub junk : Uninitialised
junk = record { flag = false; value = none }

abbrev args : RslReadArgs
args = record { read_args = record { tid = 1; start_ts = 5; key = 2 }; value = none }

request_read-Answered_example : ReadAnswered local_net junk 0 args client
unfolding Map.find
request_read-Answered_example = request_read-Answered local_net junk 0 args client

-- The value of the server is returned if the pointer happens to lead to a string.
lucky : Uninitialised
lucky = record { flag = false; value = some [] }

lucky_read : Run (Option Bytes)
lucky_read = do (a, c) ← request_read (grpc local_net) lucky (0 ∷ []) args client; ok a.value

read_tests :
    (request_read (grpc local_net) junk (0 ∷ []) args client ≡ fault)
    × (lucky_read ≡ ok (some (48 ∷ [])))
unfolding lucky_read lucky request_read grpc Map.find Set.insert sync_rpc take_read
read_tests = (refl, refl)

unfoldable pub served : ℕ → RpcArgs → RpcArgs
served addr (RpcArgs.p1c r) = RpcArgs.p1c (record r { nodes = 2 ∷ 4 ∷ []; vote = true })
served addr (RpcArgs.p2c r) = RpcArgs.p2c (record r { nodes = 2 ∷ 4 ∷ [] })
served addr args = args

-- The state holds the replies by tag.
pub take_reply : ℕ → Map.Map RpcArgs → Option RpcArgs → Run (Bool × RpcArgs × Map.Map RpcArgs)
take_reply tag c none = fault
take_reply tag c (some r) = ok (true, r, Map.erase tag c)

abbrev pub by_tag : RpcClient (Map.Map RpcArgs)
by_tag = record {
  sync_rpc = λ addr args c. ok (true, served addr args, c);
  async_rpc = λ addr tag args c. ok (Map.set tag (served addr args) c);
  wait_async_reply = λ tag c. take_reply tag c (Map.find tag c);
}

pub set_later :
    (tag t : ℕ) (new r : RpcArgs) (c : Map.Map RpcArgs)
    → t < tag
    → Map.find t c ≡ some r
    → Map.find t (Map.set tag new c) ≡ some r
set_later tag t new r c lt p = find-set tag t new c ∙ ground arith

pub erase_earlier :
    (tag t : ℕ) (r : RpcArgs) (c : Map.Map RpcArgs)
    → tag < t
    → Map.find t c ≡ some r
    → Map.find t (Map.erase tag c) ≡ some r
erase_earlier tag t r c lt q = find-erase tag t c ∙ ground arith

unfoldable pub by_tag-Answering : Answering by_tag
unfolding take_reply served
by_tag-Answering = record {
  reply = served;
  Pending = λ c tag r. Map.find tag c ≡ some r;
  sent = λ addr tag args c. (
    Map.set tag (served addr args) c,
    refl,
    find-set_self tag (served addr args) c,
    λ t r lt p. set_later tag t (served addr args) r c lt p,
  );
  answered = λ tag r c p.
      (Map.erase tag c, rw (p, take_reply) refl, λ t r' lt q. erase_earlier tag t r' c lt q);
}

abbrev p1c_args : RslP1cArgs
p1c_args = record {
  p1c_args = record {
    tid = 1;
    start_ts = 5;
    commit_ts = 9;
    read_nodes = 2 ∷ [];
    write_nodes = 4 ∷ [];
  };
  vote = false;
}

abbrev pub p1c_client : ResolutionClient (Map.Map RpcArgs)
p1c_client = record {
  node_to_address = (2, 10000) ∷ (4, 10001) ∷ [];
  tag = 135643;
  rpc_client = [];
}
