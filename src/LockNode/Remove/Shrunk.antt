-- ===== src/LockNode/Remove/Shrunk.antt =====
-- The balance of the tree of src/AVLTreeLockNode.cc while `remove` climbs, and the root that it returns.

use mvtx.Prelude.{
  ℕ, suc, ◌+◌, ◌≤◌, ◌≡◌, refl, Bool, true, false, inl, inr, arith, ◌==◌, Bool-cases, ltb,
}
use mvtx.LockNode.{Lock, Tree, nil, node, rebalance, climb, has, child_height}
use mvtx.LockNode.Balance.{IsBalanced, height, rebalance-Rebalanced}
use mvtx.LockNode.Remove.{drop_latest, remove_here, remove_below, is_root}

-- The outcome of a removal from a tree.
pub record Shrunk (t : Tree) (out : Tree × Bool) : Type 0 where
  pub balanced : IsBalanced out.0
  pub goes_on : out.1 ≡ true
  pub lower : height t ≤ suc (height out.0)
  pub upper : height out.0 ≤ height t

Shrunk-climb :
    (n : Lock) (lh rh : ℕ) (l r l' r' : Tree) (go : Bool)
    → IsBalanced (node n lh rh l r)
    → go ≡ true
    → IsBalanced l'
    → IsBalanced r'
    → height l' ≤ height l
    → height r' ≤ height r
    → height l + height r ≤ height l' + height r' + 1
    → Shrunk (node n lh rh l r) (climb go (node n lh rh l' r'))
unfolding climb
Shrunk-climb n lh rh l r l' r' go b e bl br pl pr p =
    let x = rebalance-Rebalanced n lh rh l' r' bl br (omega arith) (omega arith) in
    rw e (record {
      balanced = x.balanced;
      goes_on = x.goes_on;
      lower = grind (arith, x.lower, x.exact);
      upper = omega (arith, x.upper);
    })

drop_latest-Shrunk : (t : Tree) → IsBalanced t → Shrunk t (drop_latest t)
unfolding drop_latest
drop_latest-Shrunk nil b = record {
  balanced = tt;
  goes_on = refl;
  lower = omega arith;
  upper = omega arith;
}
drop_latest-Shrunk (node n lh rh l nil) b = record {
  balanced = b.4;
  goes_on = refl;
  lower = omega arith;
  upper = omega arith;
}
drop_latest-Shrunk (node n lh rh l (node m mlh mrh ml mr)) b =
    let r = node m mlh mrh ml mr in
    let s = drop_latest-Shrunk (node m mlh mrh ml mr) b.5 in
    let right = drop_latest r in
    Shrunk-climb n lh rh l r l right.0 right.1 b s.goes_on b.4 s.balanced (omega arith) s.upper
      (omega (arith, s.lower))

remove_here-Shrunk :
    (n : Lock) (lh rh : ℕ) (l r : Tree)
    → IsBalanced (node n lh rh l r)
    → Shrunk (node n lh rh l r) (remove_here (node n lh rh l r))
unfolding remove_here
remove_here-Shrunk n lh rh nil r b = record {
  balanced = b.5;
  goes_on = refl;
  lower = omega arith;
  upper = omega arith;
}
remove_here-Shrunk n lh rh (node c clh crh cl nil) r b =
    let x = rebalance-Rebalanced c clh crh cl r b.4.4 b.5 (omega arith) (omega arith) in
    record {
      balanced = x.balanced;
      goes_on = x.goes_on;
      lower = grind (arith, x.lower, x.exact);
      upper = omega (arith, x.upper);
    }
remove_here-Shrunk n lh rh (node c clh crh cl (node e elh erh el er)) r b =
    let l = node c clh crh cl (node e elh erh el er) in
    let s = drop_latest-Shrunk l b.4 in
    let left = drop_latest l in
    Shrunk-climb n lh rh l r left.0 r left.1 b s.goes_on s.balanced b.5 s.upper (omega arith)
      (omega (arith, s.lower))

pub remove_below-Shrunk : (a : ℕ) (t : Tree) → IsBalanced t → Shrunk t (remove_below a t)
unfolding remove_below
remove_below-Shrunk a nil b = record {
  balanced = tt;
  goes_on = refl;
  lower = omega arith;
  upper = omega arith;
}
remove_below-Shrunk a (node n lh rh l r) b = elim (Bool-cases (n.addr == a)) [
  | inl here ↦ rw here (remove_here-Shrunk n lh rh l r b)
  | inr other ↦ elim (Bool-cases (has a l)) [
    | inl below ↦
        let s = remove_below-Shrunk a l b.4 in
        let left = remove_below a l in
        rw (other, below)
          (Shrunk-climb n lh rh l r left.0 r left.1 b s.goes_on s.balanced b.5 s.upper (omega arith)
            (omega (arith, s.lower)))
    | inr above ↦
        let s = remove_below-Shrunk a r b.5 in
        let right = remove_below a r in
        rw (other, above)
          (Shrunk-climb n lh rh l r l right.0 right.1 b s.goes_on b.4 s.balanced (omega arith)
            s.upper (omega (arith, s.lower)))
  ]
]

-- A rotation at a node with a subtree that is not the higher one by two does not lift that subtree.
module _ (a : ℕ) (n : Lock) (lh rh : ℕ) (here : (n.addr == a) ≡ false) where
  pub root_left_child :
      (l : Tree) (c : Lock) (clh crh : ℕ) (cl cr : Tree)
      → let r = node c clh crh cl cr in
        ltb (child_height r + 1) (child_height l) ≡ false
        → (c.addr == a) ≡ false
        → is_root a cl ≡ false
        → is_root a (rebalance (node n lh rh l r)).0 ≡ false
  unfolding rebalance
  root_left_child l c clh crh nil cr low hc he =
      let r = node c clh crh nil cr in
      elim (Bool-cases (ltb (child_height l + 1) (child_height r))) [
        | inr level ↦ rw (low, level) here
        | inl deep ↦ elim (Bool-cases (clh == crh + 1)) [
          | inl q ↦ rw (low, deep, q) hc
          | inr q ↦ elim (Bool-cases (ltb (clh + 1) crh)) [
            | inl bad ↦ rw (low, deep, q, bad) here
            | inr good ↦ rw (low, deep, q, good) hc
          ]
        ]
      ]
  root_left_child l c clh crh (node e elh erh el er) cr low hc he =
      let r = node c clh crh (node e elh erh el er) cr in
      elim (Bool-cases (ltb (child_height l + 1) (child_height r))) [
        | inr level ↦ rw (low, level) here
        | inl deep ↦ elim (Bool-cases (clh == crh + 1)) [
          | inl q ↦ rw (low, deep, q) he
          | inr q ↦ elim (Bool-cases (ltb (clh + 1) crh)) [
            | inl bad ↦ rw (low, deep, q, bad) here
            | inr good ↦ rw (low, deep, q, good) hc
          ]
        ]
      ]

  pub root_right_child :
      (c : Lock) (clh crh : ℕ) (cl cr r : Tree)
      → let l = node c clh crh cl cr in
        ltb (child_height l + 1) (child_height r) ≡ false
        → (c.addr == a) ≡ false
        → is_root a cr ≡ false
        → is_root a (rebalance (node n lh rh l r)).0 ≡ false
  unfolding rebalance
  root_right_child c clh crh cl nil r low hc he =
      let l = node c clh crh cl nil in
      elim (Bool-cases (ltb (child_height r + 1) (child_height l))) [
        | inr level ↦ rw (level, low) here
        | inl deep ↦ elim (Bool-cases (crh == clh + 1)) [
          | inl q ↦ rw (deep, q) hc
          | inr q ↦ elim (Bool-cases (ltb (crh + 1) clh)) [
            | inl bad ↦ rw (deep, q, bad) here
            | inr good ↦ rw (deep, q, good) hc
          ]
        ]
      ]
  root_right_child c clh crh cl (node e elh erh el er) r low hc he =
      let l = node c clh crh cl (node e elh erh el er) in
      elim (Bool-cases (ltb (child_height r + 1) (child_height l))) [
        | inr level ↦ rw (level, low) here
        | inl deep ↦ elim (Bool-cases (crh == clh + 1)) [
          | inl q ↦ rw (deep, q) he
          | inr q ↦ elim (Bool-cases (ltb (crh + 1) clh)) [
            | inl bad ↦ rw (deep, q, bad) here
            | inr good ↦ rw (deep, q, good) hc
          ]
        ]
      ]

  pub root_level :
      (l r : Tree)
      → ltb (child_height r + 1) (child_height l) ≡ false
      → ltb (child_height l + 1) (child_height r) ≡ false
      → is_root a (rebalance (node n lh rh l r)).0 ≡ false
  unfolding rebalance
  root_level l r p q = rw (p, q) here
