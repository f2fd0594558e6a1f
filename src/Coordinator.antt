-- ===== src/Coordinator.antt =====
-- src/Coordinator.{h,cc}: a transaction at a client. The resolution
-- client is the parameter `request` with the state `R`; the key mapper is the function `get_node`.
pub mod Commit
pub mod Transaction
pub mod Network
pub mod Tests
pub mod Withdraw
use mvtx.Prelude.{ℕ, Bool, true, false, Option, none, some, List, [], ◌∷◌, ◌≡◌}
use mvtx.Prelude.Map
use mvtx.Prelude.Map.{Map}
use mvtx.Prelude.Set
use mvtx.Prelude.Run.{Run, ok, fault, ◌>>=◌}
use mvtx.Request.{
  ReadArgs, WriteArgs, P1cArgs, P2cArgs, RslReadArgs, RslWriteArgs, RslP1cArgs, RslP2cArgs, RslArgs,
  Bytes,
}

pub record Coordinator (R : Type 0) : Type 0 where
  pub tid : ℕ
  pub start_ts : ℕ
  pub read_nodes : List ℕ
  pub write_nodes : List ℕ
  pub pend_writes : Map Bytes
  pub rsl_client : R

-- The constructor, with the transaction ID and the time that the generators give.
unfoldable pub new_coordinator : {R : Type 0} → (tid start_ts : ℕ) → R → Coordinator R
new_coordinator tid start_ts r = record {
  tid = tid;
  start_ts = start_ts;
  read_nodes = [];
  write_nodes = [];
  pend_writes = [];
  rsl_client = r;
}

-- `request` of a resolution client.
abbrev pub Requests : Type 0 → Type 0
Requests R = List ℕ → RslArgs → R → Run (RslArgs × R)

-- What a reply leaves in the arguments.
abbrev pub value_of : RslArgs → Option Bytes
value_of (RslArgs.read a) = a.value
value_of _ = none

abbrev pub vote_of : RslArgs → Bool
vote_of (RslArgs.p1c a) = a.vote
vote_of _ = false

-- What memory that was never written holds.
pub record Uninitialised : Type 0 where
  pub flag : Bool

module _ {R : Type 0} (request : Requests R) (get_node : ℕ → ℕ) where
  unfoldable pub read : ℕ → Coordinator R → Run (Option Bytes × Coordinator R)
  read key c = elim (Map.find key c.pend_writes) [
    | some value ↦ ok (some value, c)
    | none ↦ do
      let node = get_node key
      let a : ReadArgs = record { tid = c.tid; start_ts = c.start_ts; key = key }
      (args, r) ←
          request (Set.insert node []) (RslArgs.read (record { read_args = a; value = none }))
            c.rsl_client
      ok (value_of args, record c { read_nodes = Set.insert node c.read_nodes; rsl_client = r })
  ]

  unfoldable pub write : ℕ → Bytes → Coordinator R → Run (Coordinator R)
  write key value c = do
    let node = get_node key
    let a : WriteArgs = record { tid = c.tid; key = key; value = value }
    (args, r) ←
        request (Set.insert node []) (RslArgs.write (record { write_args = a })) c.rsl_client
    ok (record c {
      pend_writes = Map.set key value c.pend_writes;
      write_nodes = Set.insert node c.write_nodes;
      rsl_client = r;
    })

module _ {R : Type 0} (request : Requests R) (u : Uninitialised) where
  -- The phase one commit that `commit` and `abort` send to the nodes of the writes.
  unfoldable pub send_p1c : Coordinator R → Run (Bool × R)
  send_p1c c = do
    let a : P1cArgs = record {
      tid = c.tid;
      start_ts = c.start_ts;
      commit_ts = c.start_ts;
      read_nodes = c.read_nodes;
      write_nodes = c.write_nodes;
    }
    (args, r) ←
        request c.write_nodes (RslArgs.p1c (record { p1c_args = a; vote = u.flag })) c.rsl_client
    ok (vote_of args, r)

  -- The phase two commit to the nodes of the writes and of the reads.
  unfoldable pub send_p2c : Bool → Coordinator R → R → Run R
  send_p2c vote c r = do
    let nodes = Set.insert_all c.read_nodes c.write_nodes
    let a : P2cArgs = record { tid = c.tid; vote = vote }
    (args, r') ← request nodes (RslArgs.p2c (record { p2c_args = a })) r
    ok r'

  unfoldable pub commit : Coordinator R → Run (Bool × Coordinator R)
  unfolding send_p1c send_p2c
  commit c = do
    (vote, r) ← send_p1c c
    r' ← send_p2c vote c r
    ok (vote, record c { rsl_client = r' })

  unfoldable pub abort : Coordinator R → Run (Coordinator R)
  unfolding send_p1c send_p2c
  abort c = do (vote, r) ← send_p1c c; r' ← send_p2c false c r; ok (record c { rsl_client = r' })
