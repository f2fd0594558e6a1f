-- ===== src/LockNode/Remove.antt =====
-- `remove` of src/AVLTreeLockNode.cc: a node is taken out of the tree of a key. The lock manager does not
-- call it.
pub mod Shrunk
pub mod Dropped
pub mod Contract
pub mod Tests
use mvtx.Prelude.{ℕ, Bool, true, false, Option, none, some, ◌==◌, if◌then◌else◌}
use mvtx.Prelude.Run.{Run, ok, fault}
use mvtx.LockNode.{Lock, Tree, nil, node, rebalance, climb, has, get, modify}

-- The rightmost node below a node: `while (new_lock->_right != nullptr)`.
unfoldable pub latest : Tree → Option Lock
latest nil = none
latest (node n lh rh l nil) = some n
latest (node n lh rh l (node m mlh mrh ml mr)) = latest (node m mlh mrh ml mr)

-- That node is cut out, its left child takes its place, and its parent calls `balance`.
unfoldable pub drop_latest : Tree → Tree × Bool
unfolding climb
drop_latest nil = (nil, true)
drop_latest (node n lh rh l nil) = (l, true)
drop_latest (node n lh rh l (node m mlh mrh ml mr)) =
    let right = drop_latest (node m mlh mrh ml mr) in climb right.1 (node n lh rh l right.0)

-- What stands where the node stood, before the parent calls `balance`. With a left child that has a right
-- child itself, the node is still there while the tree is balanced.
unfoldable pub remove_here : Tree → Tree × Bool
unfolding drop_latest climb rebalance
remove_here nil = (nil, true)
remove_here (node n lh rh nil r) = (r, true)
remove_here (node n lh rh (node c clh crh cl nil) r) = rebalance (node c clh crh cl r)
remove_here (node n lh rh (node c clh crh cl (node e elh erh el er)) r) =
    let left = drop_latest (node c clh crh cl (node e elh erh el er)) in
    climb left.1 (node n lh rh left.0 r)

-- The node that takes the place of the removed one after that.
unfoldable pub stand_in : Tree → Option Lock
unfolding latest
stand_in (node n lh rh (node c clh crh cl (node e elh erh el er)) r) = latest (node e elh erh el er)
stand_in _ = none

-- The climb to the root from the node with an address.
unfoldable pub remove_below : ℕ → Tree → Tree × Bool
unfolding remove_here climb has
remove_below a nil = (nil, true)
remove_below a (node n lh rh l r) =
    let left = remove_below a l in
    let right = remove_below a r in
    if n.addr == a
    then remove_here (node n lh rh l r)
    else if has a l
    then climb left.1 (node n lh rh left.0 r)
    else climb right.1 (node n lh rh l right.0)

-- `_parent == nullptr`
abbrev pub is_root : ℕ → Tree → Bool
is_root a nil = false
is_root a (node n lh rh l r) = n.addr == a

-- A use of `_parent`, which is null at the root.
abbrev pub use_parent : Bool → Tree → Run Tree
use_parent at_root t = if at_root then fault else ok t

-- What is left to do with the tree `t` after the unlinking and the balancing, by the branch that the node takes:
-- it has no child, and `_parent->balance()` is called; it has a right child alone, and the same call
-- stands there; its left child takes its place, and `_parent->_left` is read; or a node further below
-- does, and the parent is tested first. In the last case a node that is the root after the balancing
-- is not unlinked, and is what `getRoot` returns. A node that is found is not `nil`.
abbrev pub finish_remove : ℕ → Tree → Bool → Tree → Run Tree
finish_remove a nil at_root t = fault
finish_remove a (node n lh rh nil nil) at_root t = use_parent at_root t
finish_remove a (node n lh rh nil (node c clh crh cl cr)) at_root t = use_parent at_root t
finish_remove a (node n lh rh (node c clh crh cl nil) r) at_root t = use_parent at_root t
finish_remove a (node n lh rh (node c clh crh cl (node e elh erh el er)) r) at_root t =
    elim (latest (node e elh erh el er)) [
      | none ↦ fault
      | some m ↦ ok (if is_root a t then t else modify a (λ n. m) t)
    ]

-- `p->remove()` for a node `p` of the tree; the result is the root that it returns.
unfoldable pub remove : ℕ → Tree → Run Tree
unfolding get latest remove_below modify
remove a root = elim (get a root) [
  | none ↦ fault
  | some t ↦ finish_remove a t (is_root a root) (remove_below a root).0
]
