-- ===== src/LockNode/Remove/Tests.antt =====
-- Runs of `remove` of src/AVLTreeLockNode.cc on a small tree.
use mvtx.Prelude.{ℕ, ◌≡◌, refl, [], arith}
use mvtx.Prelude.Run.{ok, fault}
use mvtx.LockNode.{free, Lock, Tree, nil, node, leaf, has}
use mvtx.LockNode.Descending.{has_addr}
use mvtx.LockNode.Remove.{remove}
use mvtx.LockNode.Remove.Contract.{Removed, remove-Removed}

abbrev at : ℕ → Lock
at x = record { addr = x; status = free; start = x; end = x; tids = [] }

abbrev low_tree : Tree
low_tree = node (at 4) 2 1 (node (at 2) 0 1 nil (leaf (at 3))) (leaf (at 5))

abbrev high_tree : Tree
high_tree = node (at 12) 0 1 nil (leaf (at 13))

abbrev tall : Tree
tall = node (at 9) 3 2 low_tree high_tree

-- The node 3 takes the place of the node 4.
removed_deep :
    remove 4 tall ≡ ok (node (at 9) 2 2 (node (at 3) 1 1 (leaf (at 2)) (leaf (at 5))) high_tree)
unfolding remove
removed_deep = refl

remove-Removed_example : Removed 4 tall (remove 4 tall)
unfolding has_addr has
remove-Removed_example =
    remove-Removed 4 tall
      (
        refl,
        refl,
        omega arith,
        omega arith,
        (
          refl,
          refl,
          omega arith,
          omega arith,
          (
            refl,
            refl,
            omega arith,
            omega arith,
            tt,
            (refl, refl, omega arith, omega arith, tt, tt),
          ),
          (refl, refl, omega arith, omega arith, tt, tt),
        ),
        (refl, refl, omega arith, omega arith, tt, (refl, refl, omega arith, omega arith, tt, tt)),
      )
      (refl, (refl, (refl, (refl, (refl, (refl, (refl, tt))))))) refl refl

-- At the root `_parent` is null: the three branches that use it fault, and the fourth
-- returns the node itself, without the node that was to take its place.
root_tests :
    (remove 12 (leaf (at 12)) ≡ fault)
    × (remove 12 (node (at 12) 0 1 nil (leaf (at 13))) ≡ fault)
    × (remove 12 (node (at 12) 1 1 (leaf (at 11)) (leaf (at 13))) ≡ fault)
    × (remove 4 low_tree ≡ ok (node (at 4) 1 1 (leaf (at 2)) (leaf (at 5))))
unfolding remove
root_tests = (refl, refl, refl, refl)
