-- ===== src/Coordinator/Tests.antt =====
-- A transaction of src/Coordinator.cc with a resolution client that answers everything; its state counts.
use mvtx.Prelude.{ℕ, ◌+◌, ◌≡◌, refl, true, false, some, List, [], ◌∷◌}
use mvtx.Prelude.Map
use mvtx.Prelude.Set
use mvtx.Prelude.Run.{ok}
use mvtx.Request.{RslArgs, RpcArgs}
use mvtx.ResolutionClient.{ResolutionClient}
use mvtx.ResolutionClient.Tests.{p1c_client, junk as by_tag_junk}
use mvtx.Coordinator.{Coordinator, Requests, Uninitialised, new_coordinator, read, write, commit}
use mvtx.Coordinator.Commit.{IsCovered, Touched, read-Touched, write-Touched}
use mvtx.Coordinator.Transaction.{Operation, read_of, write_of, apply_all, Ended, transaction-Ended}

abbrev agree : RslArgs → RslArgs
agree (RslArgs.read a) = RslArgs.read (record a { value = some (48 ∷ []) })
agree (RslArgs.p1c a) = RslArgs.p1c (record a { vote = true })
agree args = args

abbrev answers : Requests ℕ
answers nodes args n = ok (agree args, n + 1)

abbrev node_of : ℕ → ℕ
node_of key = key + 1

abbrev start : Coordinator ℕ
start = record {
  tid = 6;
  start_ts = 20;
  read_nodes = [];
  write_nodes = [];
  pend_writes = [];
  rsl_client = 0;
}

start_lem : new_coordinator 6 20 0 ≡ start
unfolding new_coordinator
start_lem = refl

start-IsCovered : IsCovered answers node_of start
unfolding Map.find
start-IsCovered k v at = cc

abbrev after_read : Coordinator ℕ
after_read = record start { read_nodes = 4 ∷ []; rsl_client = 1 }

abbrev after_write : Coordinator ℕ
after_write = record start { write_nodes = 4 ∷ []; pend_writes = (3, 65 ∷ []) ∷ []; rsl_client = 1 }

read-Touched_example : Touched answers node_of 3 start after_read
unfolding read Set.insert Map.find
read-Touched_example =
    read-Touched answers node_of 3 start (some (48 ∷ []), after_read) start-IsCovered refl

write-Touched_example :
    Touched answers node_of 3 start after_write
    × (read answers node_of 3 after_write ≡ ok (some (65 ∷ []), after_write))
unfolding write Set.insert Map.set
write-Touched_example =
    write-Touched answers node_of 3 (65 ∷ []) start after_write start-IsCovered refl

abbrev junk : Uninitialised
junk = record { flag = false }

-- Keys 3 and 5 are read, and key 3 is written between and read back: at the commit node 4 has a write, and
-- the nodes 4 and 6 take part.
abbrev operations : List Operation
operations = read_of 3 ∷ write_of 3 (65 ∷ []) ∷ read_of 5 ∷ read_of 3 ∷ []

abbrev at_commit : Coordinator ℕ
at_commit = record {
  tid = 6;
  start_ts = 20;
  read_nodes = 4 ∷ 6 ∷ [];
  write_nodes = 4 ∷ [];
  pend_writes = (3, 65 ∷ []) ∷ [];
  rsl_client = 3;
}

transaction-Ended_example :
    Ended answers node_of junk 6 20 operations at_commit true (record at_commit { rsl_client = 5 })
unfolding apply_all new_coordinator read write commit Map.find Map.set Set.insert Set.insert_all
transaction-Ended_example =
    transaction-Ended answers node_of junk 6 20 0 operations at_commit true
      (record at_commit { rsl_client = 5 }) refl refl

-- A transaction that read at node 2 and wrote at the nodes 2 and 4, with two servers.
abbrev two_writes : Coordinator (ResolutionClient (Map.Map RpcArgs))
two_writes = record {
  tid = 6;
  start_ts = 20;
  read_nodes = 2 ∷ [];
  write_nodes = 2 ∷ 4 ∷ [];
  pend_writes = [];
  rsl_client = p1c_client;
}
