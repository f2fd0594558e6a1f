-- ===== src/ServerEvent/Tests.antt =====
-- Requests to the server of src/SimpleTServer.cc, in src/ServerEvent.cc.
use mvtx.Prelude.{ℕ, ◌≡◌, refl, true, false, none, List, [], ◌∷◌, arith}
use mvtx.Prelude.Map
use mvtx.Prelude.Set
use mvtx.Prelude.Run.{Run, ok, fault, out_of_fuel, ◌>>=◌}
use mvtx.Request.{RpcReadArgs, RpcWriteArgs, RpcP1cArgs, RpcP2cArgs, RpcArgs}
use mvtx.LockNode.{fresh}
use mvtx.LockManager.{init, initial_root, try_lock, try_backward_lock, freeze_intervals}
use mvtx.LockManager.Invariant.{init-IsValidManager}
use mvtx.TServer.{new_tserver, add, get_keys, prepare, get}
use mvtx.ServerEvent.{World, run}
use mvtx.ServerEvent.Read.{ReadRuns, run_read-ReadRuns}
use mvtx.ServerEvent.Dispatch.{Served, serve}
use mvtx.ServerEvent.Mutex.{Stuck, serve-Stuck}

abbrev start : World
start = record { tserver = new_tserver; locks = init; events = []; replies = [] }

abbrev read_args : RpcReadArgs
read_args = record {
  read_args = record { tid = 2; start_ts = 12; key = 5 };
  value = none;
  status = true;
}

abbrev write_args : RpcWriteArgs
write_args = record { write_args = record { tid = 1; key = 5; value = 65 ∷ [] }; status = true }

abbrev p1c_args : RpcP1cArgs
p1c_args = record {
  p1c_args = record {
    tid = 1;
    start_ts = 10;
    commit_ts = 10;
    read_nodes = [];
    write_nodes = 0 ∷ [];
  };
  nodes = [];
  vote = false;
}

abbrev p2c_args : RpcP2cArgs
p2c_args = record { p2c_args = record { tid = 1; vote = true }; nodes = [] }

run_read-ReadRuns_example : ReadRuns 1 100 read_args start
run_read-ReadRuns_example =
    run_read-ReadRuns 1 100 read_args start init-IsValidManager (omega arith) (omega arith)

serve-Stuck_example : Stuck (λ key. 0) 7 p1c_args start
unfolding Map.find
serve-Stuck_example = serve-Stuck (λ key. 0) 7 p1c_args start refl refl

-- A request is served and its event is run.
request_runs : ℕ → RpcArgs → World → Run World
request_runs rid args w = elim (serve (λ key. 0) rid args w) [
  | Served.event e w' ↦ run 20 3 e w'
  | Served.answered w' ↦ ok w'
  | Served.hung ↦ out_of_fuel
]

abbrev locked_write : Run World
locked_write = do
  w1 ← request_runs 101 (RpcArgs.write write_args) start
  request_runs 102 (RpcArgs.p1c p1c_args) w1

-- The version that is committed is read.
commit_then_read : Run (List (ℕ × RpcArgs))
commit_then_read = do
  w1 ← locked_write
  w2 ← request_runs 103 (RpcArgs.p2c p2c_args) w1
  w3 ← request_runs 104 (RpcArgs.read read_args) w2
  ok w3.replies

-- A read that waits for the lock is run by `freeze`, before `finalize` has stored the version.
read_then_commit : Run World
read_then_commit = do
  w1 ← locked_write
  w2 ← request_runs 104 (RpcArgs.read read_args) w1
  request_runs 103 (RpcArgs.p2c p2c_args) w2

read_then_commit_lem : read_then_commit ≡ fault
unfolding read_then_commit request_runs serve run Set.contains Map.find Map.set add get_keys
    try_lock initial_root fresh prepare try_backward_lock freeze_intervals Set.insert Set.insert_all
    get
read_then_commit_lem = refl
