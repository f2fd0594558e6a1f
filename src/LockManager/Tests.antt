-- ===== src/LockManager/Tests.antt =====
-- The calls of src/LockManagerTest.cc, and the results at the tree of a new key.
use mvtx.Prelude.{
  ℕ, ◌^◌, ◌≡◌, refl, Bool, true, false, inl, inr, Option, some, [], ◌∷◌, arith, uint64_max,
}
use mvtx.Prelude.Map
use mvtx.Prelude.Run.{Run, ok, ◌>>=◌}
use mvtx.LockNode.{
  free, freeze_write_lock, Lock, get, insert, climb, rebalance, swap, child_height, update_height,
  new_lock, modify, fresh,
}
use mvtx.LockNode.Descending.{has_addr}
use mvtx.LockNode.Find.{bottom, entry}
use mvtx.LockManager.{
  init, initial_root, lock_backward, prepare_walk, walk, split_above, try_backward_lock,
}
use mvtx.LockManager.Split.{Cut, split_above-Cut}
use mvtx.LockManager.Backward.{Walked, walk-Walked}
use mvtx.LockManager.Prepare.{Prepared, prepare_walk-Prepared}
use mvtx.LockManager.BackwardLock.{BackwardLocked, lock_backward-BackwardLocked}
use mvtx.LockManager.Invariant.{init-IsValidManager, initial_root-IsValid}
use mvtx.LockManager.TryBackwardLock.{Answer, try_backward_lock-Answer}

abbrev zero_lock : Lock
zero_lock = record { addr = 0; status = freeze_write_lock; start = 0; end = 0; tids = [] }

abbrev free_lock : Lock
free_lock = record { addr = 1; status = free; start = 1; end = uint64_max; tids = [] }

try_backward_lock-Answer_example : Answer 5 0 3 false init (try_backward_lock 5 0 3 false 1 init)
try_backward_lock-Answer_example =
    try_backward_lock-Answer 5 0 3 false 1 init init-IsValidManager (omega arith)

lock_backward-BackwardLocked_example :
    BackwardLocked initial_root true 8 3 (lock_backward true 8 3 initial_root)
lock_backward-BackwardLocked_example =
    lock_backward-BackwardLocked initial_root true 8 3 initial_root-IsValid (omega arith)

prepare_walk-Prepared_example : Prepared initial_root true 3 (prepare_walk true 3 initial_root)
prepare_walk-Prepared_example =
    prepare_walk-Prepared initial_root true 3 initial_root-IsValid (omega arith)

split_above-Cut_example :
    Cut initial_root (split_above 1 free_lock 3 initial_root) [] (zero_lock ∷ []) free_lock 3
unfolding initial_root insert climb rebalance swap child_height update_height new_lock
split_above-Cut_example =
    split_above-Cut initial_root [] (zero_lock ∷ []) free_lock 3 initial_root-IsValid refl
      (omega arith) (omega arith) (omega arith)

walk-Walked_example :
    Walked initial_root []
      (free_lock ∷ zero_lock ∷ [])
      true
      8
      uint64_max
      (walk 2 true 8 initial_root (1 ∷ 0 ∷ []) uint64_max)
unfolding initial_root insert climb rebalance swap child_height update_height new_lock has_addr get
walk-Walked_example =
    walk-Walked 2 true 8 uint64_max (2 ^ 64) initial_root (1 ∷ 0 ∷ []) []
      (free_lock ∷ zero_lock ∷ []) (entry refl refl tt refl (entry refl refl tt refl bottom)) refl
      (refl, (refl, tt)) (refl, omega arith, (refl, omega arith, refl))
      (inl (omega arith), (inr (refl, refl), tt)) (omega arith, omega arith) (omega arith)
      (omega arith)

-- The result and `*ts_start` of the first two calls of the test: the code writes 1 and 4.
first_calls : Run (Bool × Option ℕ × Bool × Option ℕ)
first_calls = do
  a ← try_backward_lock 0 0 3 false 1 init
  b ← try_backward_lock 0 1 4 true 2 a.manager
  ok (a.res, a.ts_start, b.res, b.ts_start)

first_calls_lem : first_calls ≡ ok (true, some 1, false, some 4)
unfolding first_calls try_backward_lock Map.find Map.set initial_root modify fresh
first_calls_lem = refl
