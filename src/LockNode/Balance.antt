-- ===== src/LockNode/Balance.antt =====
-- The balance of the AVL tree of src/AVLTreeLockNode.cc: `updateHeight`, `swap`, `balance` and
-- `insert` against the true heights.
use Prim.Native.Nat.{max}
use native.Mathlib.Decide.{dec_le}
use mvtx.Prelude.{
  ℕ, suc, ◌+◌, ◌≤◌, ◌≡◌, refl, Bool, true, false, inl, inr, arith, ◌==◌, Bool-cases, ltb, le→ltb,
  lt→ltb,
}
use mvtx.LockNode.{
  Lock, Tree, nil, node, child_height, rebalance, climb, insert, insert_at, modify, has,
}

abbrev pub height : Tree → ℕ
height nil = 0
height (node n lh rh l r) = suc (max (height l) (height r))

-- The cached heights are the true ones, and differ by one at most, at every node.
abbrev pub IsBalanced : Tree → Type 0
IsBalanced nil = Unit {0}
IsBalanced (node n lh rh l r) =
    (lh ≡ height l)
    × (rh ≡ height r)
    × (height l ≤ height r + 1)
    × (height r ≤ height l + 1)
    × IsBalanced l
    × IsBalanced r

pub child_height-eq : (t : Tree) → IsBalanced t → child_height t ≡ height t
unfolding child_height
child_height-eq nil b = refl
child_height-eq (node n lh rh l r) b = ground arith

-- What `balance` owes at one node: balance, the call for the parent, and the height.
pub record Rebalanced (l r : Tree) (out : Tree × Bool) : Type 0 where
  pub balanced : IsBalanced out.0
  pub goes_on : out.1 ≡ true
  pub lower : max (height l) (height r) ≤ height out.0
  pub upper : height out.0 ≤ suc (max (height l) (height r))
  pub exact :
      height l ≤ height r + 1
      → height r ≤ height l + 1
      → height out.0 ≡ suc (max (height l) (height r))

module _ (n : Lock) (lh rh : ℕ) where
  rebalance-level :
      (l r : Tree)
      → IsBalanced l
      → IsBalanced r
      → height l ≤ height r + 1
      → height r ≤ height l + 1
      → Rebalanced l r (rebalance (node n lh rh l r))
  unfolding rebalance
  rebalance-level l r bl br p q =
      rw
        (
          child_height-eq l bl,
          child_height-eq r br,
          le→ltb (height r + 1) (height l) p,
          le→ltb (height l + 1) (height r) q,
        )
        (record {
          balanced = (refl, refl, p, q, bl, br);
          goes_on = refl;
          lower = omega arith;
          upper = omega arith;
          exact = λ _ _. refl;
        })

-- A node over two balanced subtrees of nearly equal heights, with heights cached anew.
Built : Tree → Tree → Lock → Tree
Built l r n = node n (child_height l) (child_height r) l r

record BuiltBalanced (l r : Tree) (n : Lock) : Type 0 where
  balanced : IsBalanced (Built l r n)
  tall : height (Built l r n) ≡ suc (max (height l) (height r))
  cached : child_height (Built l r n) ≡ suc (max (height l) (height r))

build :
    (l r : Tree) (n : Lock)
    → IsBalanced l
    → IsBalanced r
    → height l ≤ height r + 1
    → height r ≤ height l + 1
    → BuiltBalanced l r n
unfolding Built
build l r n bl br p q = record {
  balanced = b;
  tall = refl;
  cached = child_height-eq (Built l r n) b;
}
  where
    b : IsBalanced (Built l r n)
    b = (child_height-eq l bl, child_height-eq r br, p, q, bl, br)

module _ (n c : Lock) (lh rh clh crh : ℕ) where
  single_right :
      (cl cr r : Tree)
      → let l = node c clh crh cl cr in
        ltb (child_height r + 1) (child_height l) ≡ true
        → (crh == clh + 1) ≡ false
        → ltb (crh + 1) clh ≡ false
        → rebalance (node n lh rh l r) ≡ (Built cl (Built cr r n) c, true)
  unfolding rebalance Built
  single_right cl cr r p q s = rw (p, q, s)

  single_left :
      (l cl cr : Tree)
      → let r = node c clh crh cl cr in
        ltb (child_height r + 1) (child_height l) ≡ false
        → ltb (child_height l + 1) (child_height r) ≡ true
        → (clh == crh + 1) ≡ false
        → ltb (clh + 1) crh ≡ false
        → rebalance (node n lh rh l r) ≡ (Built (Built l cl n) cr c, true)
  unfolding rebalance Built
  single_left l cl cr o p q s = rw (o, p, q, s)

  module _ (e : Lock) (elh erh : ℕ) (el er : Tree) where
    double_right :
        (cl r : Tree)
        → let l = node c clh crh cl (node e elh erh el er) in
          ltb (child_height r + 1) (child_height l) ≡ true
          → (crh == clh + 1) ≡ true
          → rebalance (node n lh rh l r) ≡ (Built (Built cl el c) (Built er r n) e, true)
    unfolding rebalance Built
    double_right cl r p q = rw (p, q)

    double_left :
        (l cr : Tree)
        → let r = node c clh crh (node e elh erh el er) cr in
          ltb (child_height r + 1) (child_height l) ≡ false
          → ltb (child_height l + 1) (child_height r) ≡ true
          → (clh == crh + 1) ≡ true
          → rebalance (node n lh rh l r) ≡ (Built (Built l el n) (Built er cr c) e, true)
    unfolding rebalance Built
    double_left l cr o p q = rw (o, p, q)

-- A left subtree that is two higher.
module _ (n c : Lock) (lh rh clh crh : ℕ) where
  fix_left_single :
      (cl cr r : Tree)
      → IsBalanced (node c clh crh cl cr)
      → IsBalanced r
      → height (node c clh crh cl cr) ≡ height r + 2
      → (crh == clh + 1) ≡ false
      → Rebalanced (node c clh crh cl cr) r (rebalance (node n lh rh (node c clh crh cl cr) r))
  unfolding Built
  fix_left_single cl cr r bl br h q =
      let hl = child_height-eq (node c clh crh cl cr) bl in
      let hr = child_height-eq r br in
      let lower : height cr ≤ height cl = ground arith in
      let inner = build cr r n bl.5 br (omega arith) (omega arith) in
      let outer =
        build cl (Built cr r n) c bl.4 inner.balanced (omega (arith, inner.tall))
          (omega (arith, inner.tall)) in
      rw
        (single_right n c lh rh clh crh cl cr r (lt→ltb _ _ (omega arith)) q
          (le→ltb _ _ (omega arith)))
        (record {
          balanced = outer.balanced;
          goes_on = refl;
          lower = omega arith;
          upper = omega arith;
          exact = λ a b. absurd (omega arith);
        })

  fix_right_single :
      (l cl cr : Tree)
      → IsBalanced l
      → IsBalanced (node c clh crh cl cr)
      → height (node c clh crh cl cr) ≡ height l + 2
      → (clh == crh + 1) ≡ false
      → Rebalanced l (node c clh crh cl cr) (rebalance (node n lh rh l (node c clh crh cl cr)))
  unfolding Built
  fix_right_single l cl cr bl br h q =
      let hr = child_height-eq (node c clh crh cl cr) br in
      let hl = child_height-eq l bl in
      let lower : height cl ≤ height cr = ground arith in
      let inner = build l cl n bl br.4 (omega arith) (omega arith) in
      let outer =
        build (Built l cl n) cr c inner.balanced br.5 (omega (arith, inner.tall))
          (omega (arith, inner.tall)) in
      rw
        (single_left n c lh rh clh crh l cl cr (le→ltb _ _ (omega arith)) (lt→ltb _ _ (omega arith))
          q (le→ltb _ _ (omega arith)))
        (record {
          balanced = outer.balanced;
          goes_on = refl;
          lower = omega arith;
          upper = omega arith;
          exact = λ a b. absurd (omega arith);
        })

  module _ (e : Lock) (elh erh : ℕ) (el er : Tree) where
    fix_left_double :
        (cl r : Tree)
        → let l = node c clh crh cl (node e elh erh el er) in
          IsBalanced l
          → IsBalanced r
          → height l ≡ height r + 2
          → (crh == clh + 1) ≡ true
          → Rebalanced l r (rebalance (node n lh rh l r))
    unfolding Built
    fix_left_double cl r bl br h q =
        let hl = child_height-eq (node c clh crh cl (node e elh erh el er)) bl in
        let hr = child_height-eq r br in
        let mid : height (node e elh erh el er) ≡ height cl + 1 = ground arith in
        let low = build cl el c bl.4 bl.5.4 (omega arith) (omega arith) in
        let high = build er r n bl.5.5 br (omega arith) (omega arith) in
        let outer =
          build (Built cl el c) (Built er r n) e low.balanced high.balanced
            (omega (arith, low.tall, high.tall)) (omega (arith, low.tall, high.tall)) in
        rw (double_right n c lh rh clh crh e elh erh el er cl r (lt→ltb _ _ (omega arith)) q)
          (record {
            balanced = outer.balanced;
            goes_on = refl;
            lower = omega arith;
            upper = omega arith;
            exact = λ a b. absurd (omega arith);
          })

    fix_right_double :
        (l cr : Tree)
        → let r = node c clh crh (node e elh erh el er) cr in
          IsBalanced l
          → IsBalanced r
          → height r ≡ height l + 2
          → (clh == crh + 1) ≡ true
          → Rebalanced l r (rebalance (node n lh rh l r))
    unfolding Built
    fix_right_double l cr bl br h q =
        let hr = child_height-eq (node c clh crh (node e elh erh el er) cr) br in
        let hl = child_height-eq l bl in
        let mid : height (node e elh erh el er) ≡ height cr + 1 = ground arith in
        let low = build l el n bl br.4.4 (omega arith) (omega arith) in
        let high = build er cr c br.4.5 br.5 (omega arith) (omega arith) in
        let outer =
          build (Built l el n) (Built er cr c) e low.balanced high.balanced
            (omega (arith, low.tall, high.tall)) (omega (arith, low.tall, high.tall)) in
        rw
          (double_left n c lh rh clh crh e elh erh el er l cr (le→ltb _ _ (omega arith))
            (lt→ltb _ _ (omega arith)) q)
          (record {
            balanced = outer.balanced;
            goes_on = refl;
            lower = omega arith;
            upper = omega arith;
            exact = λ a b. absurd (omega arith);
          })

module _ (n : Lock) (lh rh : ℕ) where
  fix_left :
      (l r : Tree)
      → IsBalanced l
      → IsBalanced r
      → height l ≡ height r + 2
      → Rebalanced l r (rebalance (node n lh rh l r))
  fix_left nil r bl br h = absurd (omega arith)
  fix_left (node c clh crh cl nil) r bl br h =
      fix_left_single n c lh rh clh crh cl nil r bl br h (ground arith)
  fix_left (node c clh crh cl (node e elh erh el er)) r bl br h =
      elim (Bool-cases (crh == clh + 1)) [
        | inl deep ↦ fix_left_double n c lh rh clh crh e elh erh el er cl r bl br h deep
        | inr flat ↦ fix_left_single n c lh rh clh crh cl (node e elh erh el er) r bl br h flat
      ]

  fix_right :
      (l r : Tree)
      → IsBalanced l
      → IsBalanced r
      → height r ≡ height l + 2
      → Rebalanced l r (rebalance (node n lh rh l r))
  fix_right l nil bl br h = absurd (omega arith)
  fix_right l (node c clh crh nil cr) bl br h =
      fix_right_single n c lh rh clh crh l nil cr bl br h (ground arith)
  fix_right l (node c clh crh (node e elh erh el er) cr) bl br h =
      elim (Bool-cases (clh == crh + 1)) [
        | inl deep ↦ fix_right_double n c lh rh clh crh e elh erh el er l cr bl br h deep
        | inr flat ↦ fix_right_single n c lh rh clh crh l (node e elh erh el er) cr bl br h flat
      ]

  -- One node of the climb: heights that differ by two at most are put right.
  pub rebalance-Rebalanced :
      (l r : Tree)
      → IsBalanced l
      → IsBalanced r
      → height l ≤ height r + 2
      → height r ≤ height l + 2
      → Rebalanced l r (rebalance (node n lh rh l r))
  rebalance-Rebalanced l r bl br p q = elim (dec_le (height l) (height r + 1)) [
    | yes level ↦ elim (dec_le (height r) (height l + 1)) [
      | yes even ↦ rebalance-level n lh rh l r bl br level even
      | no deep ↦ fix_right l r bl br (omega arith)
    ]
    | no deep ↦ fix_left l r bl br (omega arith)
  ]

-- The outcome of an insertion into a tree.
record Grown (t : Tree) (out : Tree × Bool) : Type 0 where
  balanced : IsBalanced out.0
  goes_on : out.1 ≡ true
  lower : height t ≤ height out.0
  upper : height out.0 ≤ suc (height t)

Grown-climb :
    (n : Lock) (lh rh : ℕ) (l r l' r' : Tree) (go : Bool)
    → IsBalanced (node n lh rh l r)
    → go ≡ true
    → IsBalanced l'
    → IsBalanced r'
    → height l ≤ height l'
    → height r ≤ height r'
    → height l' + height r' ≤ height l + height r + 1
    → Grown (node n lh rh l r) (climb go (node n lh rh l' r'))
unfolding climb
Grown-climb n lh rh l r l' r' go b e bl br pl pr p =
    let x = rebalance-Rebalanced n lh rh l' r' bl br (omega arith) (omega arith) in
    rw e (record {
      balanced = x.balanced;
      goes_on = x.goes_on;
      lower = grind (arith, x.lower, x.exact);
      upper = omega (arith, x.upper);
    })

insert-Grown : (new : Lock) (t : Tree) → IsBalanced t → Grown t (insert new t)
unfolding insert
insert-Grown new nil b = record {
  balanced = (refl, refl, omega arith, omega arith, tt, tt);
  goes_on = refl;
  lower = omega arith;
  upper = omega arith;
}
insert-Grown new (node n lh rh l r) b = elim (Bool-cases (ltb new.start n.start)) [
  | inl below ↦
      let g = insert-Grown new l b.4 in
      rw below (
        Grown-climb n lh rh l r (insert new l).0 r (insert new l).1 b g.goes_on g.balanced b.5
          g.lower (omega arith) (omega (arith, g.upper)))
  | inr above ↦
      let g = insert-Grown new r b.5 in
      rw above (
        Grown-climb n lh rh l r l (insert new r).0 (insert new r).1 b g.goes_on b.4 g.balanced
          (omega arith) g.lower (omega (arith, g.upper)))
]

insert_at-Grown : (a : ℕ) (new : Lock) (t : Tree) → IsBalanced t → Grown t (insert_at a new t)
unfolding insert_at
insert_at-Grown a new nil b = record {
  balanced = tt;
  goes_on = refl;
  lower = omega arith;
  upper = omega arith;
}
insert_at-Grown a new (node n lh rh l r) b = elim (Bool-cases (n.addr == a)) [
  | inl here ↦ rw here (insert-Grown new (node n lh rh l r) b)
  | inr other ↦ elim (Bool-cases (has a l)) [
    | inl below ↦
        let g = insert_at-Grown a new l b.4 in
        rw (other, below)
          (Grown-climb n lh rh l r (insert_at a new l).0 r (insert_at a new l).1 b g.goes_on
            g.balanced b.5 g.lower (omega arith) (omega (arith, g.upper)))
    | inr above ↦
        let g = insert_at-Grown a new r b.5 in
        rw (other, above)
          (Grown-climb n lh rh l r l (insert_at a new r).0 (insert_at a new r).1 b g.goes_on b.4
            g.balanced (omega arith) g.lower (omega (arith, g.upper)))
  ]
]

-- Calling `insert` on any node of a balanced tree gives a balanced tree, without a report of a bad
-- balance factor; the height does not fall, and grows by one at most.
pub insert_at-IsBalanced :
    (a : ℕ) (new : Lock) (t : Tree)
    → IsBalanced t
    → IsBalanced (insert_at a new t).0
      × ((insert_at a new t).1 ≡ true)
      × (height t ≤ height (insert_at a new t).0)
      × (height (insert_at a new t).0 ≤ height t + 1)
insert_at-IsBalanced a new t b =
    let g = insert_at-Grown a new t b in (g.balanced, g.goes_on, g.lower, omega (arith, g.upper))

pub height-modify : (a : ℕ) (f : Lock → Lock) (t : Tree) → height (modify a f t) ≡ height t
unfolding modify
height-modify a f nil = refl
height-modify a f (node n lh rh l r) = rw (height-modify a f l, height-modify a f r)

-- A write to a node leaves the balance alone.
pub modify-IsBalanced :
    (a : ℕ) (f : Lock → Lock) (t : Tree) → IsBalanced t → IsBalanced (modify a f t)
unfolding modify
modify-IsBalanced a f nil b = tt
modify-IsBalanced a f (node n lh rh l r) b =
    rw (height-modify a f l, height-modify a f r)
      (b.0, b.1, b.2, b.3, modify-IsBalanced a f l b.4, modify-IsBalanced a f r b.5)
