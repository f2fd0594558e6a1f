-- ===== src/ServerEvent/Read.antt =====
-- A read of src/ServerEvent.cc from its start: the lock, and the version that is read.
use mvtx.Prelude.{
  ℕ, ◌+◌, ◌-◌, ◌^◌, ◌<◌, ◌≡◌, refl, ap, true, none, some, if◌then◌else◌, arith, dec64,
}
use mvtx.Prelude.Run.{Run, ok, fault}
use mvtx.Request.{RpcReadArgs, RpcArgs}
use mvtx.LockManager.{Locked, try_backward_lock}
use mvtx.LockManager.Invariant.{IsValidManager}
use mvtx.LockManager.TryBackwardLock.{Answer, try_backward_lock-Answer}
use mvtx.TServer.{get}
use mvtx.ServerEvent.{World, save, reply, read_value, read_lock, run_read}

-- The arguments after the lock has stopped at the time `r`.
abbrev pub stopped_at : ℕ → RpcReadArgs → RpcReadArgs
stopped_at r a = record a { read_args = record a.read_args { start_ts = r + 1 } }

-- A reply with the version of time `r`; there has to be one.
abbrev pub served : ℕ → ℕ → ℕ → RpcReadArgs → World → Run World
served this rid r a w = elim (get a.read_args.key r w.tserver) [
  | none ↦ fault
  | some value ↦
      let args = RpcArgs.read (record (stopped_at r a) { value = some value }) in
      ok (reply rid args (save this rid 2 args w))
]

-- The first run of a read, from what `tryBackwardLock` does below its start.
pub record ReadRuns (this rid : ℕ) (a : RpcReadArgs) (w : World) : Type 0 where
  pub answer : Answer a.read_args.key a.read_args.tid (a.read_args.start_ts - 1) true w.locks (
      try_backward_lock a.read_args.key a.read_args.tid
        (a.read_args.start_ts - 1)
        true
        this
        w.locks)
  pub outcome :
      let r = answer.on_tree.r in
      let w' : World = record w { locks = answer.locked.manager } in
      run_read 0 this rid a w ≡ (
        if answer.locked.res
        then served this rid r a w'
        else ok (save this rid 0 (RpcArgs.read (stopped_at r a)) w'))

read_value-served :
    (this rid r : ℕ) (a : RpcReadArgs) (w : World)
    → dec64 (r + 1) ≡ r
    → read_value this rid (stopped_at r a) w ≡ served this rid r a w
unfolding read_value
read_value-served this rid r a w back = rw (back, read_value) refl

read_lock-served :
    (this rid r ts : ℕ) (a : RpcReadArgs) (w : World) (out : Locked)
    → dec64 a.read_args.start_ts ≡ ts
    → try_backward_lock a.read_args.key a.read_args.tid ts true this w.locks ≡ ok out
    → out.ts_start ≡ some (r + 1)
    → dec64 (r + 1) ≡ r
    → let w' : World = record w { locks = out.manager } in
      read_lock this rid a w ≡ (
        if out.res
        then served this rid r a w'
        else ok (save this rid 0 (RpcArgs.read (stopped_at r a)) w'))
unfolding read_lock
read_lock-served this rid r ts a w out below runs start back =
    let w' : World = record w { locks = out.manager } in
    simp (below, runs, start)
      (ap
        (λ (x : Run World).
          if out.res then x else ok (save this rid 0 (RpcArgs.read (stopped_at r a)) w'))
        (read_value-served this rid r a w' back))

-- The first run of a read with a start from 1 to 2^64 - 1, in a world whose trees are valid, does to the
-- locks what `Answer` says of `tryBackwardLock` from one below the start. If the lock succeeds the
-- version of the time `r` where it stopped is replied, and without such a version the run faults; else
-- the event stays in phase 0, with a start one above `r`.
pub run_read-ReadRuns :
    (this rid : ℕ) (a : RpcReadArgs) (w : World)
    → IsValidManager w.locks
    → 0 < a.read_args.start_ts
    → a.read_args.start_ts < 2 ^ 64
    → ReadRuns this rid a w
unfolding run_read read_lock read_value
run_read-ReadRuns this rid a w v pos small =
    let q = a.read_args in
    let below : dec64 q.start_ts ≡ q.start_ts - 1 = omega arith in
    let answer =
      try_backward_lock-Answer q.key q.tid (q.start_ts - 1) true this w.locks v (omega arith) in
    let r = answer.on_tree.r in
    let back : dec64 (r + 1) ≡ r = omega (arith, answer.on_tree.bounded) in
    record {
      answer = answer;
      outcome =
          read_lock-served this rid r (q.start_ts - 1) a w answer.locked below answer.runs
            answer.ts_start back;
    }
