-- ===== src/LockNode/Tests.antt =====
-- Runs of src/AVLTreeLockNode.cc on small trees.
use mvtx.Prelude.{◌+◌, ◌≤◌, ◌^◌, ◌≡◌, refl, true, [], ◌∷◌, arith}
use mvtx.LockNode.{
  free, freeze_write_lock, Lock, Tree, node, leaf, insert, insert_at, find, get, climb, rebalance,
  child_height, swap, update_height, size,
}
use mvtx.LockNode.Descending.{
  descending, insert_by_start, insert_above, has_addr, descending-insert, descending-insert_at,
}
use mvtx.LockNode.Balance.{IsBalanced, height, insert_at-IsBalanced}
use mvtx.LockNode.Height.{find-le-size}
use mvtx.LockNode.Find.{Found, bottom, find-Found}

abbrev zero_lock : Lock
zero_lock = record { addr = 0; status = freeze_write_lock; start = 0; end = 0; tids = [] }

abbrev low_lock : Lock
low_lock = record { addr = 1; status = free; start = 1; end = 4; tids = 7 ∷ [] }

abbrev high_lock : Lock
high_lock = record { addr = 2; status = free; start = 5; end = 9; tids = [] }

abbrev new_piece : Lock
new_piece = record { addr = 3; status = free; start = 3; end = 4; tids = [] }

-- Three nodes in a chain to the right are balanced by the insertion of the third.
abbrev three : Tree
three = node low_lock 1 1 (leaf zero_lock) (leaf high_lock)

insert_rotates : (insert high_lock (insert low_lock (leaf zero_lock)).0).0 ≡ three
unfolding insert climb rebalance child_height swap update_height
insert_rotates = refl

find_below : find three 0 [] ≡ 0 ∷ []
unfolding find
find_below = refl

find_above : find three 6 [] ≡ 2 ∷ 1 ∷ []
unfolding find
find_above = refl

insert_at-IsBalanced_example :
    IsBalanced (insert_at 1 new_piece three).0
    × ((insert_at 1 new_piece three).1 ≡ true)
    × (height three ≤ height (insert_at 1 new_piece three).0)
    × (height (insert_at 1 new_piece three).0 ≤ height three + 1)
insert_at-IsBalanced_example = insert_at-IsBalanced 1 new_piece three (
  refl,
  refl,
  omega arith,
  omega arith,
  (refl, refl, omega arith, omega arith, tt, tt),
  (refl, refl, omega arith, omega arith, tt, tt),
)

descending-insert_example :
    descending (insert new_piece three).0 ≡ insert_by_start new_piece (descending three)
descending-insert_example =
    descending-insert new_piece three
      ((omega arith, (omega arith, tt)), ((omega arith, tt), (tt, tt)))

descending-insert_at_example :
    descending (insert_at 1 new_piece three).0 ≡ insert_above 1 new_piece (descending three)
unfolding has_addr
descending-insert_at_example =
    descending-insert_at 1 new_piece three (refl, (refl, (refl, tt))) refl
      (omega arith, omega arith)

find-Found_example : Found three three 0 10 3 [] []
unfolding get
find-Found_example =
    find-Found three three 0 10 3 [] [] (refl, (refl, tt, tt), (refl, tt, tt))
      (refl, omega arith, (refl, omega arith, (refl, omega arith, refl))) (omega arith)
      (omega arith) bottom

find-le-size_example : 2 ^ 1 ≤ size three + 1
find-le-size_example =
    find-le-size 1 6 three
      (
        refl,
        refl,
        omega arith,
        omega arith,
        (refl, refl, omega arith, omega arith, tt, tt),
        (refl, refl, omega arith, omega arith, tt, tt),
      )
      (rw find_above (omega arith))
