-- ===== src/LockNode.antt =====
-- src/LockStatus.h and src/AVLTreeLockNode.{h,cc}: the AVL tree of the time intervals of one key.
-- A tree owns its nodes, so the parent pointers are the inverse of the child pointers: the climb of
-- `balance` and `insert` to the root is the way back along the path to a node. A pointer to a node
-- is the number in its field `addr`; `get` and `modify` read and write through such a pointer.
pub mod Descending
pub mod Balance
pub mod Find
pub mod Height
pub mod InsertBelow
pub mod Remove
pub mod Tests
use mvtx.Prelude.{
  ℕ, zero, suc, ◌+◌, ◌-◌, ◌^◌, Bool, true, false, ◌||◌, Option, none, some, List, [], ◌∷◌, ltb, leb,
  ◌==◌, if◌then◌else◌, uint64_max,
}

pub data LockStatus : Type 0 where
  free read_lock write_lock freeze_read_lock freeze_write_lock : LockStatus

-- The fields of a node that the lock manager reads and writes.
pub record Lock : Type 0 where
  pub addr : ℕ
  pub status : LockStatus
  pub start : ℕ
  pub end : ℕ
  pub tids : List ℕ

-- `nil` is the null pointer. A node carries the cached heights of its subtrees.
pub data Tree : Type 0 where
  nil : Tree
  node : Lock → (left_height right_height : ℕ) → (left right : Tree) → Tree

-- The default constructor: the interval of all times.
unfoldable pub new_lock : ℕ → Lock
new_lock addr = record { addr = addr; status = free; start = 0; end = uint64_max; tids = [] }

-- The copying constructor: a node of its own with the other's status, interval and transactions.
unfoldable pub copy_lock : ℕ → Lock → Lock
copy_lock addr lock = record lock { addr = addr }

-- A node with no children.
abbrev pub leaf : Lock → Tree
leaf lock = node lock 0 0 nil nil

abbrev pub left_height : Tree → ℕ
left_height nil = 0
left_height (node n lh rh l r) = lh

abbrev pub right_height : Tree → ℕ
right_height nil = 0
right_height (node n lh rh l r) = rh

abbrev pub is_nil : Tree → Bool
is_nil nil = true
is_nil (node n lh rh l r) = false

-- The height of a child, from the heights that it has cached.
unfoldable pub child_height : Tree → ℕ
child_height nil = 0
child_height (node n lh rh l r) = if leb rh lh then lh + 1 else rh + 1

unfoldable pub update_height : Tree → Tree
update_height nil = nil
update_height (node n lh rh l r) = node n (child_height l) (child_height r) l r

-- Exchanges a node with its left or right child. Without that child the source reports an error and
-- changes nothing.
unfoldable pub swap : Bool → Tree → Tree
unfolding update_height
swap true (node n lh rh (node c clh crh cl cr) r) =
    update_height (node c clh crh cl (update_height (node n lh rh cr r)))
swap false (node n lh rh l (node c clh crh cl cr)) =
    update_height (node c clh crh (update_height (node n lh rh l cl)) cr)
swap _ t = t

-- The part of `balance` at one node, before the call for the parent. The flag says whether that call
-- is made: an unexpected balance factor of a child is reported and ends the climb.
unfoldable pub rebalance : Tree → Tree × Bool
unfolding child_height swap
rebalance nil = (nil, true)
rebalance (node n lh rh l r) =
    let lh' = child_height l in
    let rh' = child_height r in
    let t = node n lh' rh' l r in
    if ltb (rh' + 1) lh'
    then (if right_height l == left_height l + 1
        then (swap true (node n lh' rh' (swap false l) r), true)
        else if ltb (right_height l + 1) (left_height l)
        then (t, false)
        else (swap true t, true))
    else if ltb (lh' + 1) rh'
    then (if left_height r == right_height r + 1
        then (swap false (node n lh' rh' l (swap true r)), true)
        else if ltb (left_height r + 1) (right_height r)
        then (t, false)
        else (swap false t, true))
    else (t, true)

-- The climb of `balance` arrives at the parent of a subtree that was rebuilt.
unfoldable pub climb : Bool → Tree → Tree × Bool
climb true t = rebalance t
climb false t = (t, false)

-- `insert` below a node, or at a null child, whose parent then calls `balance`.
unfoldable pub insert : Lock → Tree → Tree × Bool
unfolding climb rebalance
insert new nil = (leaf new, true)
insert new (node n lh rh l r) =
    let left = insert new l in
    let right = insert new r in
    if ltb new.start n.start
    then climb left.1 (node n lh rh left.0 r)
    else climb right.1 (node n lh rh l right.0)

-- Whether a pointer leads into a tree.
unfoldable pub has : ℕ → Tree → Bool
has a nil = false
has a (node n lh rh l r) = n.addr == a || has a l || has a r

-- `p->insert(new)` for a node `p` of the tree; the result is the root that it returns.
unfoldable pub insert_at : ℕ → Lock → Tree → Tree × Bool
unfolding insert climb rebalance has
insert_at a new nil = (nil, true)
insert_at a new (node n lh rh l r) =
    let left = insert_at a new l in
    let right = insert_at a new r in
    if n.addr == a
    then insert new (node n lh rh l r)
    else if has a l
    then climb left.1 (node n lh rh left.0 r)
    else climb right.1 (node n lh rh l right.0)

-- `find`: the vector's back is the head of the list.
unfoldable pub find : Tree → ℕ → List ℕ → List ℕ
find nil ts locks = locks
find (node n lh rh l r) ts locks =
    let below = find l ts locks in
    let above = find r ts (n.addr ∷ locks) in
    if ltb ts n.start
    then below
    else if ltb n.end ts
    then (if is_nil r then locks else above)
    else n.addr ∷ locks

-- The node that a pointer leads to, with the subtrees below it.
unfoldable pub get : ℕ → Tree → Option Tree
get a nil = none
get a (node n lh rh l r) =
    let below = get a l in
    let above = get a r in
    if n.addr == a then some (node n lh rh l r) else elim below [ some t ↦ some t | none ↦ above ]

-- A write through a pointer.
unfoldable pub modify : ℕ → (Lock → Lock) → Tree → Tree
modify a f nil = nil
modify a f (node n lh rh l r) =
    node (if n.addr == a then f n else n) lh rh (modify a f l) (modify a f r)

abbrev max : ℕ → ℕ → ℕ
max a b = if leb a b then b else a

max_addr : Tree → ℕ
max_addr nil = 0
max_addr (node n lh rh l r) = max n.addr (max (max_addr l) (max_addr r))

-- An address that `new` may return: no node of the tree has it.
unfoldable pub fresh : Tree → ℕ
unfolding max_addr
fresh t = max_addr t + 1

unfoldable pub size : Tree → ℕ
size nil = 0
size (node n lh rh l r) = suc (size l + size r)
