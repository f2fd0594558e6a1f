-- ===== src/GrpcClient/Tests.antt =====
-- A network of src/GRPCClient.cc that answers every call at once; its state is the number of calls.
use mvtx.Prelude.{ℕ, ◌+◌, refl, true, false, [], ◌∷◌}
use mvtx.Prelude.Set
use mvtx.Request.{RpcP1cArgs, RpcArgs}
use mvtx.GrpcClient.{Method, Network, GrpcClient, Replied, sync_rpc}
use mvtx.GrpcClient.Agree.{AllAwaited, Awaited, async_rpc-Awaited}

abbrev answering : {Q R : Type 0} → R → Method Q R ℕ
answering r = record {
  call = λ addr q n. record { success = true; reply = r; net = n + 1 };
  send = λ addr q n. (n, n + 1);
  finish = λ call n. record { delivered = true; success = true; reply = r; net = n };
}

abbrev local_net : Network ℕ
local_net = record {
  read = answering (record { value = 48 ∷ []; status = true });
  write = answering (record { status = true });
  p1c = answering (record { node = 4 ∷ 2 ∷ []; vote = true });
  p2c = answering (record { node = [] });
}

local_net-AllAwaited : AllAwaited local_net
local_net-AllAwaited = record {
  read = record { ends = λ addr q n. refl };
  write = record { ends = λ addr q n. refl };
  p1c = record { ends = λ addr q n. refl };
  p2c = record { ends = λ addr q n. refl };
}

abbrev commit_args : RpcP1cArgs
commit_args = record {
  p1c_args = record {
    tid = 5;
    start_ts = 10;
    commit_ts = 10;
    read_nodes = [];
    write_nodes = 2 ∷ 4 ∷ [];
  };
  nodes = [];
  vote = false;
}

abbrev new_client : GrpcClient
new_client = record { address_to_stub = []; tag_to_handler = [] }

abbrev voted : Replied ℕ
voted = record {
  res = true;
  args = RpcArgs.p1c (record commit_args { nodes = 2 ∷ 4 ∷ []; vote = true });
  client = record { address_to_stub = 10000 ∷ []; tag_to_handler = [] };
  net = 1;
}

async_rpc-Awaited_example :
    Awaited local_net local_net-AllAwaited 10000 135643 (RpcArgs.p1c commit_args) new_client 0 voted
unfolding sync_rpc Set.insert_all Set.contains Set.insert
async_rpc-Awaited_example =
    async_rpc-Awaited local_net local_net-AllAwaited 10000 135643 (RpcArgs.p1c commit_args)
      new_client 0 voted refl refl
