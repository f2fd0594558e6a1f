-- ===== src/LockNode/Height.antt =====
-- The height of the AVL tree of src/AVLTreeLockNode.cc, and the length of the vector of `find`.
use Prim.Native.Nat.{◌*◌}
use mvtx.Prelude.{ℕ, zero, suc, ◌+◌, ◌≤◌, ◌^◌, List, [], ◌∷◌, arith, length}
use mvtx.LockNode.{Tree, nil, node, find, size}
use mvtx.LockNode.Balance.{IsBalanced, height}

-- A balanced tree of height 2 k or more has 2^k - 1 nodes or more.
pow-le-size : (k : ℕ) (t : Tree) → IsBalanced t → 2 * k ≤ height t → 2 ^ k ≤ size t + 1
unfolding size
pow-le-size zero t b h = omega arith
pow-le-size (suc k) nil b h = absurd (omega arith)
pow-le-size (suc k) (node n lh rh l r) b h =
    let left = pow-le-size k l b.4 (ground arith) in
    let right = pow-le-size k r b.5 (ground arith) in omega arith

length-find :
    (t : Tree) (ts : ℕ) (locks : List ℕ) → length (find t ts locks) ≤ length locks + height t
unfolding find
length-find nil ts locks = omega arith
length-find (node n lh rh l r) ts locks =
    ground (arith, length-find l ts locks, length-find r ts (n.addr ∷ locks))

-- The vector that `find` fills from the root of a balanced tree is short: 2 k entries or more take a
-- tree of 2^k - 1 nodes or more.
pub find-le-size :
    (k ts : ℕ) (t : Tree) → IsBalanced t → 2 * k ≤ length (find t ts []) → 2 ^ k ≤ size t + 1
find-le-size k ts t b h = pow-le-size k t b (omega (arith, length-find t ts []))
