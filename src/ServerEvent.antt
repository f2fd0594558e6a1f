-- ===== src/ServerEvent.antt =====
-- src/ServerEvent.{h,cc}: the events of a server, with the lock manager and the store that they work on.
-- An event has an address, under which the lock manager keeps it. A reply is a request ID with the
-- arguments at the time of `sendReply`. `exit` and a null pointer are faults.
pub mod Read
pub mod Dispatch
pub mod Keeps
pub mod Mutex
pub mod Tests
use mvtx.Prelude.{
  ℕ, zero, suc, ◌+◌, Bool, true, false, Option, none, some, List, [], ◌∷◌, ◌++◌, if◌then◌else◌,
  dec64,
}
use mvtx.Prelude.Map
use mvtx.Prelude.Map.{Map}
use mvtx.Prelude.Set
use mvtx.Prelude.Run.{Run, ok, fault, out_of_fuel, ◌>>=◌}
use mvtx.Request.{ReadArgs, RpcReadArgs, RpcWriteArgs, RpcP1cArgs, RpcP2cArgs, RpcArgs}
use mvtx.LockManager.{
  LockManager, Locked, try_backward_lock, try_lock, freeze_intervals, unlock_intervals,
}
use mvtx.TServer.{TServer, get, add, get_keys, prepare, finalize}

-- The class of an event goes with the kind of its arguments.
pub record ServerEvent : Type 0 where
  pub rid : ℕ
  pub phase : ℕ
  pub args : RpcArgs

-- A server at work: its events by address, and the replies that it has sent.
pub record World : Type 0 where
  pub tserver : TServer
  pub locks : LockManager
  pub events : Map ServerEvent
  pub replies : List (ℕ × RpcArgs)

-- The write to the fields of an event, and `sendReply`.
abbrev pub save : ℕ → ℕ → ℕ → RpcArgs → World → World
save this rid phase args w = record w {
  events = Map.set this (record { rid = rid; phase = phase; args = args }) w.events;
}

abbrev pub reply : ℕ → RpcArgs → World → World
reply rid args w = record w { replies = w.replies ++ ((rid, args) ∷ []) }

-- Phase 1 of a read: the version just below `start_ts` is read and printed.
unfoldable pub read_value : ℕ → ℕ → RpcReadArgs → World → Run World
read_value this rid a w = elim (get a.read_args.key (dec64 a.read_args.start_ts) w.tserver) [
  | none ↦ fault
  | some value ↦
      let args = RpcArgs.read (record a { value = some value }) in
      ok (reply rid args (save this rid 2 args w))
]

-- `tryBackwardLock` writes to `start_ts` of the arguments.
abbrev pub moved : Option ℕ → RpcReadArgs → RpcReadArgs
moved none a = a
moved (some ts) a = record a { read_args = record a.read_args { start_ts = ts } }

-- Phase 0 of a read: lock from just below `start_ts` downwards, and go on if that succeeds.
unfoldable pub read_lock : ℕ → ℕ → RpcReadArgs → World → Run World
unfolding read_value
read_lock this rid a w = do
  let r = a.read_args
  out ← try_backward_lock r.key r.tid (dec64 r.start_ts) true this w.locks
  let a' = moved out.ts_start a
  let w' = record w { locks = out.manager }
  if out.res then read_value this rid a' w' else ok (save this rid 0 (RpcArgs.read a') w')

unfoldable pub run_read : ℕ → ℕ → ℕ → RpcReadArgs → World → Run World
unfolding read_lock read_value
run_read zero this rid a w = read_lock this rid a w
run_read (suc zero) this rid a w = read_value this rid a w
run_read (suc (suc n)) this rid a w = fault

unfoldable pub run_write : ℕ → ℕ → ℕ → RpcWriteArgs → World → Run World
run_write zero this rid a w =
    let args = RpcArgs.write a in
    let w' = save this rid 1 args w in
    ok (
      reply rid args (record w' {
        tserver = add a.write_args.tid a.write_args.key a.write_args.value w.tserver;
      }))
run_write (suc n) this rid a w = fault

-- The loop of `tryLock` over the keys, up to the first that fails.
unfoldable pub lock_keys : ℕ → ℕ → ℕ → ℕ → List ℕ → LockManager → Run (Bool × LockManager)
lock_keys fuel tid start_ts commit_ts [] m = ok (true, m)
lock_keys fuel tid start_ts commit_ts (key ∷ keys) m = do
  (res, m') ← try_lock fuel key tid start_ts commit_ts false m
  let rest = lock_keys fuel tid start_ts commit_ts keys m'
  if res then rest else ok (false, m')

unfoldable pub run_p1c : ℕ → ℕ → ℕ → ℕ → RpcP1cArgs → World → Run World
unfolding lock_keys
run_p1c fuel zero this rid a w = do
  let p = a.p1c_args
  (res, locks) ← lock_keys fuel p.tid p.start_ts p.commit_ts (get_keys p.tid w.tserver) w.locks
  let nodes = Set.insert_all p.write_nodes (Set.insert_all p.read_nodes a.nodes)
  let args = RpcArgs.p1c (record a { nodes = nodes; vote = res })
  let w' = record (save this rid 1 args w) {
    locks = locks;
    tserver = prepare p.tid p.commit_ts w.tserver;
  }
  ok (reply rid args w')
run_p1c fuel (suc n) this rid a w = fault

-- `freeze` and `unlock` of src/AVLTreeLockManager.cc, to the end: the events that are collected are run.
unfoldable pub freeze : (List ℕ → World → Run World) → ℕ → World → Run World
freeze run_all tid w = do
  (locks, events) ← freeze_intervals tid w.locks
  run_all events (record w { locks = locks })

unfoldable pub unlock : (List ℕ → World → Run World) → ℕ → World → Run World
unlock run_all tid w = do
  (locks, events) ← unlock_intervals tid w.locks
  run_all events (record w { locks = locks })

abbrev pub release : (List ℕ → World → Run World) → Bool → ℕ → World → Run World
release run_all true tid w = freeze run_all tid w
release run_all false tid w = unlock run_all tid w

-- Phase 1 of a P2C does nothing but exit; a later phase is ignored. The events that `freeze` or `unlock`
-- runs come before `finalize`.
unfoldable pub run_p2c : (List ℕ → World → Run World) → ℕ → ℕ → ℕ → RpcP2cArgs → World → Run World
unfolding freeze unlock
run_p2c run_all zero this rid a w = do
  let p = a.p2c_args
  let w1 = save this rid 1 (RpcArgs.p2c a) w
  w2 ← release run_all p.vote p.tid w1
  ok (reply rid (RpcArgs.p2c a) (record w2 { tserver = finalize p.tid p.vote w2.tserver }))
run_p2c run_all (suc zero) this rid a w = fault
run_p2c run_all (suc (suc n)) this rid a w = ok w

-- `run` of the four classes.
unfoldable pub run_args : (List ℕ → World → Run World) → ℕ → ℕ → ℕ → ℕ → RpcArgs → World → Run World
unfolding run_read run_write run_p1c run_p2c
run_args run_all fuel phase this rid (RpcArgs.read a) w = run_read phase this rid a w
run_args run_all fuel phase this rid (RpcArgs.write a) w = run_write phase this rid a w
run_args run_all fuel phase this rid (RpcArgs.p1c a) w = run_p1c fuel phase this rid a w
run_args run_all fuel phase this rid (RpcArgs.p2c a) w = run_p2c run_all phase this rid a w

-- Events run one after the other; `step` runs one of them.
unfoldable pub run_each : (ℕ → World → Run World) → List ℕ → World → Run World
run_each step [] w = ok w
run_each step (e ∷ es) w = do w' ← step e w; run_each step es w'

-- `run` of the event at an address. The depth bounds the events that run inside of one another, and
-- `fuel` the rounds of `tryLock`.
unfoldable pub run : ℕ → ℕ → ℕ → World → Run World
unfolding run_args run_each
run fuel zero this w = out_of_fuel
run fuel (suc depth) this w = elim (Map.find this w.events) [
  | none ↦ fault
  | some e ↦ run_args (run_each (run fuel depth)) fuel e.phase this e.rid e.args w
]
