-- ===== src/LockManager/HistoryTests.antt =====
-- A call of `tryBackwardLock` and then `freeze` or `unlock` of src/AVLTreeLockManager.cc.
use mvtx.Prelude.{ℕ, List, suc, ◌≡◌, refl, sym, subst, true, false, some, [], ◌∷◌, arith}
use mvtx.Prelude.Map
use mvtx.Prelude.Set
use mvtx.Prelude.Run.{Run, ok, fault, out_of_fuel}
use mvtx.LockNode.{freeze_write_lock, find, size, modify, fresh}
use mvtx.LockManager.Valid.{State, state_at}
use mvtx.LockManager.{
  TransactionInfo, LockManager, init, initial_root, Locked, try_backward_lock, freeze_lock,
  freeze_intervals, unlock_intervals, sweep, root_of,
}
use mvtx.LockManager.Invariant.{initial_root-IsValid}
use mvtx.LockManager.SweepTimes.{TreeSwept, sweep-TreeSwept}
use mvtx.LockManager.Ready.{IsReady, init-IsReadyManager}
use mvtx.LockManager.TryBackwardLock.{Answer, try_backward_lock-Answer}
use mvtx.LockManager.Recorded.{Noted, try_backward_lock-Noted}
use mvtx.LockManager.Woken.{freeze_wakes, unlock_wakes}
use mvtx.LockManager.Release.{
  Released, freeze_state, unlock_state, freeze_intervals-Released, unlock_intervals-Released,
}
use mvtx.LockManager.Safe.{IsSafe, init-IsSafe, Returns, freeze_intervals-Returns}
use mvtx.LockManager.History.{Steps, here, next, freeze_step, Steps-frozen}

abbrev manager_of : Run Locked → LockManager
manager_of (ok locked) = locked.manager
manager_of fault = init
manager_of out_of_fuel = init

-- The manager after transaction 0 locked the times from 1 to 3 of key 5 for writing.
used : LockManager
used = manager_of (try_backward_lock 5 0 3 false 1 init)

abbrev used_info : TransactionInfo
used_info = record { intervals = (5, record { first = 1; second = 3 }) ∷ [] }

used_info_lem : Map.find 0 used.transaction_map ≡ some used_info
unfolding used try_backward_lock Map.find Map.set initial_root modify fresh
used_info_lem = refl

used-IsSafe : IsSafe used
unfolding used
used-IsSafe =
    let a = try_backward_lock-Answer 5 0 3 false 1 init init-IsSafe.valid (omega arith) in
    subst (λ r. IsSafe (manager_of r)) (sym a.runs)
      (record { valid = a.valid; ready = a.ready init-IsReadyManager })

used-IsReady : IsReady used_info.intervals
used-IsReady = ((omega arith, tt), (tt, tt))

freeze_intervals-Released_example :
    Released freeze_wakes freeze_state 0 used_info used (freeze_intervals 0 used)
freeze_intervals-Released_example =
    freeze_intervals-Released 0 used used_info used-IsSafe.valid used_info_lem used-IsReady

unlock_intervals-Released_example :
    Released unlock_wakes unlock_state 0 used_info used (unlock_intervals 0 used)
unlock_intervals-Released_example =
    unlock_intervals-Released 0 used used_info used-IsSafe.valid used_info_lem used-IsReady

sweep-TreeSwept_example :
    TreeSwept
      (λ n. freeze_lock n.status 0 n)
      1
      3
      []
      initial_root
      []
      (sweep
        (λ n. freeze_lock n.status 0 n)
        (suc (suc (size initial_root)))
        1
        3
        []
        initial_root
        (find initial_root 3 [])
        [])
sweep-TreeSwept_example =
    sweep-TreeSwept (λ n. freeze_lock n.status 0 n) 1 3 [] initial_root [] initial_root-IsValid
      (omega arith) (omega arith)

used-Returns : Returns used (freeze_intervals 0 used)
used-Returns = freeze_intervals-Returns 0 used used-IsSafe

-- Transaction 0 is frozen; time 0 is frozen from the start.
used-Steps : Steps used used-Returns.manager
used-Steps = next here (freeze_step 0 used-Returns.events used-Returns.runs)

frozen_zero : State
frozen_zero = record { status = freeze_write_lock; tids = [] }

used_zero : state_at 0 (root_of 5 used) ≡ some frozen_zero
unfolding frozen_zero used try_backward_lock root_of Map.find Map.set initial_root modify fresh
used_zero = refl

Steps-frozen_example :
    IsSafe used-Returns.manager × (state_at 0 (root_of 5 used-Returns.manager) ≡ some frozen_zero)
unfolding frozen_zero
Steps-frozen_example =
    Steps-frozen 5 0 frozen_zero used-Steps used-IsSafe (omega arith) used_zero refl

-- Transaction 1 wants to read from time 9 down, and its event 2 waits at the end of the lock of transaction 0.
try_backward_lock-Noted_example :
    (a : Answer 5 1 9 true used (try_backward_lock 5 1 9 true 2 used)) × Noted 5 1 9 2 a.on_tree.r
      a.on_tree.waits_for used a.locked.manager
try_backward_lock-Noted_example =
    try_backward_lock-Noted 5 1 9 true 2 used used-IsSafe.valid (omega arith)

-- Then `freeze` of transaction 0 has event 2 to run, and `unlock` too.
abbrev events_of_run : Run (LockManager × List ℕ) → List ℕ
events_of_run (ok out) = out.1
events_of_run _ = []

waiting : LockManager
waiting = manager_of (try_backward_lock 5 1 9 true 2 used)

waiting_lem :
    (events_of_run (freeze_intervals 0 waiting) ≡ 2 ∷ [])
    × (events_of_run (unlock_intervals 0 waiting) ≡ 2 ∷ [])
unfolding waiting used try_backward_lock freeze_intervals unlock_intervals Map.find Map.set
    initial_root modify fresh Set.insert Set.contains Set.insert_all
waiting_lem = (refl, refl)
