-- ===== src/LockManager/Valid.antt =====
-- What the lock manager of src/AVLTreeLockManager.cc keeps true of the tree of a key, and the state
-- of each time.
use mvtx.Prelude.{
  ℕ, ◌<◌, ◌≤◌, ◌^◌, ◌≡◌, refl, ◌⊎◌, Option, none, some, List, [], ◌∷◌, ◌++◌, arith, if◌then◌else◌,
  leb, All,
}
use mvtx.LockNode.{LockStatus, freeze_write_lock, Lock, Tree}
use mvtx.LockNode.Balance.{IsBalanced}
use mvtx.LockNode.Descending.{descending, Distinct}
use mvtx.LockNode.Find.{Covers, Covers-le}

-- The interval that starts at 0 is the frozen version 0, alone.
abbrev pub IsGrounded : Lock → Type 0
IsGrounded n = (0 < n.start) ⊎ ((n.status ≡ freeze_write_lock) × (n.end ≡ 0))

-- The intervals fill the times of `uint64_t`, the nodes have addresses of their own, time 0 is frozen,
-- and the tree is balanced.
pub record IsValid (root : Tree) : Type 0 where
  pub covers : Covers 0 (2 ^ 64) (descending root)
  pub distinct : Distinct (descending root)
  pub grounded : All IsGrounded (descending root)
  pub balanced : IsBalanced root

-- The lock that holds a time: the first that starts at or before it.
abbrev pub holder : ℕ → List Lock → Option Lock
holder ts [] = none
holder ts (n ∷ ls) = if leb n.start ts then some n else holder ts ls

-- What a time is locked for, and by whom.
pub record State : Type 0 where
  pub status : LockStatus
  pub tids : List ℕ

abbrev pub state_of : Option Lock → Option State
state_of none = none
state_of (some n) = some (record { status = n.status; tids = n.tids })

abbrev pub state_at : ℕ → Tree → Option State
state_at ts root = state_of (holder ts (descending root))

pub holder-above :
    (ts mid hi : ℕ) (xs ys : List Lock)
    → Covers mid hi xs
    → ts < mid
    → holder ts (xs ++ ys) ≡ holder ts ys
holder-above ts mid hi [] ys c p = refl
holder-above ts mid hi (x ∷ xs) ys c p =
    ground (arith, holder-above ts mid x.start xs ys c.2, Covers-le mid x.start xs c.2)

pub holder-below :
    (ts mid hi : ℕ) (xs ys : List Lock)
    → Covers mid hi xs
    → mid ≤ ts
    → ts < hi
    → holder ts (xs ++ ys) ≡ holder ts xs
holder-below ts mid hi [] ys c p q = absurd (omega arith)
holder-below ts mid hi (x ∷ xs) ys c p q = ground (arith, holder-below ts mid x.start xs ys c.2)

pub end-lt : (lo hi : ℕ) (xs ys : List Lock) (n : Lock) → Covers lo hi (xs ++ (n ∷ ys)) → n.end < hi
end-lt lo hi [] ys n c = omega arith
end-lt lo hi (x ∷ xs) ys n c = omega (arith, end-lt lo x.start xs ys n c.2)

-- The intervals of a list are disjoint: the lock whose interval has a time is its holder.
pub holder-eq :
    (ts lo hi : ℕ) (xs ys : List Lock) (n : Lock)
    → Covers lo hi (xs ++ (n ∷ ys))
    → n.start ≤ ts
    → ts ≤ n.end
    → holder ts (xs ++ (n ∷ ys)) ≡ some n
holder-eq ts lo hi [] ys n c p q = ground arith
holder-eq ts lo hi (x ∷ xs) ys n c p q =
    ground (arith, holder-eq ts lo x.start xs ys n c.2, end-lt lo x.start xs ys n c.2)
