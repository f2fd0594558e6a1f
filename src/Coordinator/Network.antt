-- ===== src/Coordinator/Network.antt =====
-- The commit of src/Coordinator.cc over the resolution client of src/SimpleResolutionClient.cc.
use mvtx.Prelude.{Bool, []}
use mvtx.Prelude.Set
use mvtx.Request.{RslP1cArgs, RslP2cArgs}
use mvtx.ResolutionClient
use mvtx.ResolutionClient.{RpcClient, ResolutionClient, find_addresses}
use mvtx.ResolutionClient.Phases.{Answering, all_vote, p1c_call}
use mvtx.Coordinator
use mvtx.Coordinator.{Coordinator}

-- The arguments of the two phases.
abbrev pub p1c_of : {R : Type 0} → Bool → Coordinator R → RslP1cArgs
p1c_of flag c = record {
  p1c_args = record {
    tid = c.tid;
    start_ts = c.start_ts;
    commit_ts = c.start_ts;
    read_nodes = c.read_nodes;
    write_nodes = c.write_nodes;
  };
  vote = flag;
}

abbrev pub p2c_of : {R : Type 0} → Bool → Coordinator R → RslP2cArgs
p2c_of vote c = record { p2c_args = record { tid = c.tid; vote = vote } }

module _ {C : Type 0} (rpc : RpcClient C) (u : ResolutionClient.Uninitialised)
    (w : Coordinator.Uninitialised) (net : Answering rpc) where
  -- The votes of the servers at the addresses of the nodes with writes.
  abbrev pub votes : Coordinator (ResolutionClient C) → Bool
  votes c =
      all_vote rpc u net (p1c_call rpc u net (p1c_of w.flag c))
        (find_addresses c.write_nodes [] c.rsl_client.node_to_address).0
