-- ===== src/LockManager/TryLockTests.antt =====
-- Calls of `tryLock` of src/AVLTreeLockManager.cc.
use mvtx.Prelude.{ℕ, ◌≡◌, refl, false, Option, none, some, List, [], ◌∷◌, arith, uint64_max}
use mvtx.Prelude.Map
use mvtx.Prelude.Set
use mvtx.Prelude.Run.{Run, ok, ◌>>=◌}
use mvtx.LockNode.{
  LockStatus, free, write_lock, freeze_write_lock, Tree, node, nil, leaf, Lock, insert, climb,
  rebalance, swap, child_height, update_height, new_lock, fresh,
}
use mvtx.LockManager.{create_key_info, init, initial_root, lock_range, try_lock, root_of}
use mvtx.LockManager.Valid.{State, state_at}
use mvtx.LockManager.Invariant.{init-IsValidManager, initial_root-IsValid}
use mvtx.LockManager.LockRange.{Ranged, lock_range-Ranged}
use mvtx.LockManager.TryLock.{TryLocked, try_lock-TryLocked}

abbrev free_lock : Lock
free_lock = record { addr = 1; status = free; start = 1; end = uint64_max; tids = [] }

lock_range-Ranged_example :
    Ranged initial_root false 7 4 9 free_lock (lock_range 1 7 4 9 false initial_root)
unfolding initial_root insert climb rebalance swap child_height update_height new_lock
lock_range-Ranged_example =
    lock_range-Ranged 0 initial_root false 7 4 9 free_lock initial_root-IsValid refl (omega arith)
      (omega arith) (omega arith) (omega arith)

try_lock-TryLocked_example : TryLocked 5 7 4 9 false init free_lock (try_lock 1 5 7 4 9 false init)
unfolding initial_root insert climb rebalance swap child_height update_height new_lock Map.find
    root_of create_key_info Map.set
try_lock-TryLocked_example =
    try_lock-TryLocked 0 5 7 4 9 false init free_lock init-IsValidManager refl (omega arith)
      (omega arith) (omega arith) (omega arith)

-- A tree in which the node from 4 to 5 is write locked by transaction 1 and all others after 0 are free.
abbrev piece_of : ℕ → LockStatus → ℕ → ℕ → List ℕ → Lock
piece_of a st first last tids = record {
  addr = a;
  status = st;
  start = first;
  end = last;
  tids = tids;
}

abbrev middle_locked : Tree
middle_locked =
    node (piece_of 4 free 8 9 []) 3 2
      (node (piece_of 2 write_lock 4 5 (1 ∷ [])) 2 1
        (node (piece_of 0 freeze_write_lock 0 0 []) 0 1 nil (leaf (piece_of 1 free 1 3 [])))
        (leaf (piece_of 3 free 6 7 [])))
      (node (piece_of 5 free 10 19 []) 0 1 nil (leaf (piece_of 6 free 20 uint64_max [])))

-- Transaction 2 asks to write from 2 to 9.
over_middle : ℕ → Run (Option State)
over_middle t = do
  out ← lock_range 9 2 2 9 false middle_locked
  ok (elim out [ none ↦ none | some root ↦ state_at t root ])

-- It gets the lock, over the one of transaction 1 between, which stays.
over_middle_lem :
    (over_middle 9 ≡ ok (some (record { status = write_lock; tids = 2 ∷ [] })))
    × (over_middle 5 ≡ ok (some (record { status = write_lock; tids = 1 ∷ [] })))
    × (over_middle 2 ≡ ok (some (record { status = write_lock; tids = 2 ∷ [] })))
unfolding over_middle lock_range fresh Set.insert
over_middle_lem = (refl, refl, refl)
