-- ===== src/LockNode/Remove/Contract.antt =====
-- What `remove` of src/AVLTreeLockNode.cc owes, at a node below the root.
use mvtx.Prelude.{
  ℕ, ◌+◌, ◌≤◌, ◌≡◌, refl, ap, sym, ◌∙◌, true, false, inl, inr, Option, none, some, ◌∷◌, arith, ◌==◌,
  Bool-cases, Option-cases, le→ltb, if◌then◌else◌,
}
use mvtx.Prelude.Run.{Run, ok}
use mvtx.LockNode.{Lock, Tree, nil, node, climb, has, get, modify, is_nil}
use mvtx.LockNode.Descending.{descending, has-descending, Distinct, Distinct-apart}
use mvtx.LockNode.Find.{descending-modify}
use mvtx.LockNode.Balance.{IsBalanced, height, child_height-eq, height-modify, modify-IsBalanced}
use mvtx.LockNode.Remove.{remove, remove_below, latest, stand_in, is_root, finish_remove}
use mvtx.LockNode.Remove.Shrunk.{remove_below-Shrunk, root_left_child, root_right_child, root_level}
use mvtx.LockNode.Remove.Dropped.{drop_addr, put, get-has, remove_below-list, present_below}

is_root-absent : (a : ℕ) (t : Tree) → has a t ≡ false → is_root a t ≡ false
unfolding has
is_root-absent a nil h = refl
is_root-absent a (node n lh rh l r) h = ground arith

children_absent :
    (a : ℕ) (n : Lock) (lh rh : ℕ) (l r : Tree)
    → has a (node n lh rh l r) ≡ false
    → ((n.addr == a) ≡ false) × (has a l ≡ false) × (has a r ≡ false)
unfolding has
children_absent a n lh rh l r h = (ground arith, ground arith, ground arith)

-- The climb at the root, after a removal below it.
module _ (a : ℕ) (n : Lock) (lh rh : ℕ) (here : (n.addr == a) ≡ false) where
  root_after_left :
      (l' r : Tree)
      → IsBalanced l'
      → IsBalanced r
      → height l' ≤ height r + 1
      → has a r ≡ false
      → is_root a (climb true (node n lh rh l' r)).0 ≡ false
  unfolding climb
  root_after_left l' nil bl br p out =
      let e = child_height-eq l' bl in
      root_level a n lh rh here l' nil (rw (e, child_height-eq nil br) (le→ltb _ _ p))
        (rw (e, child_height-eq nil br) (le→ltb _ _ (omega arith)))
  root_after_left l' (node c clh crh cl cr) bl br p out =
      let r = node c clh crh cl cr in
      let k = children_absent a c clh crh cl cr out in
      root_left_child a n lh rh here l' c clh crh cl cr
        (rw (child_height-eq l' bl, child_height-eq r br) (le→ltb _ _ p)) k.0
        (is_root-absent a cl k.1)

  root_after_right :
      (l r' : Tree)
      → IsBalanced l
      → IsBalanced r'
      → height r' ≤ height l + 1
      → has a l ≡ false
      → is_root a (climb true (node n lh rh l r')).0 ≡ false
  unfolding climb
  root_after_right nil r' bl br p out =
      let e = child_height-eq r' br in
      root_level a n lh rh here nil r' (rw (e, child_height-eq nil bl) (le→ltb _ _ (omega arith)))
        (rw (e, child_height-eq nil bl) (le→ltb _ _ p))
  root_after_right (node c clh crh cl cr) r' bl br p out =
      let l = node c clh crh cl cr in
      let k = children_absent a c clh crh cl cr out in
      root_right_child a n lh rh here c clh crh cl cr r'
        (rw (child_height-eq r' br, child_height-eq l bl) (le→ltb _ _ p)) k.0
        (is_root-absent a cr k.2)

-- A node below the root does not become the root.
remove_below-root :
    (a : ℕ) (t : Tree)
    → IsBalanced t
    → Distinct (descending t)
    → is_root a t ≡ false
    → is_root a (remove_below a t).0 ≡ false
unfolding remove_below
remove_below-root a nil b d h = refl
remove_below-root a (node n lh rh l r) b d h =
    let left = remove_below-Shrunk a l b.4 in
    let right = remove_below-Shrunk a r b.5 in
    elim (Bool-cases (has a l)) [
      | inl below ↦
          let out : has a r ≡ false =
            has-descending a r
            ∙ Distinct-apart a (descending r) (n ∷ descending l) d
                (present_below a n (descending l) (sym (has-descending a l) ∙ below)) in
          rw (h, below, left.goes_on)
            (root_after_left a n lh rh h (remove_below a l).0 r left.balanced b.5
              (omega (arith, left.upper)) out)
      | inr above ↦
          rw (h, above, right.goes_on)
            (root_after_right a n lh rh h l (remove_below a r).0 b.4 right.balanced
              (omega (arith, right.upper)) above)
    ]

pub record Removed (a : ℕ) (t : Tree) (out : Run Tree) : Type 0 where
  pub root : Tree
  pub runs : out ≡ ok root
  pub nodes : descending root ≡ drop_addr a (descending t)
  pub balanced : IsBalanced root
  pub lower : height t ≤ height root + 1
  pub upper : height root ≤ height t

-- A pointer that is found leads to a node.
get-is_nil : (a : ℕ) (t sub : Tree) → get a t ≡ some sub → is_nil sub ≡ false
unfolding get
get-is_nil a nil sub e = cc
get-is_nil a (node n lh rh l r) sub e = ground (arith, get-is_nil a l sub, get-is_nil a r sub)

latest-some :
    (n : Lock) (lh rh : ℕ) (l r : Tree) → (m : Lock) × (latest (node n lh rh l r) ≡ some m)
unfolding latest
latest-some n lh rh l nil = (n, refl)
latest-some n lh rh l (node m mlh mrh ml mr) = latest-some m mlh mrh ml mr

-- The end of a removal below the root.
finish-stand_in :
    (a : ℕ) (sub t : Tree)
    → is_nil sub ≡ false
    → finish_remove a sub false t ≡ (elim (stand_in sub) [
      | none ↦ ok t
      | some m ↦ ok (if is_root a t then t else modify a (λ n. m) t)
    ])
unfolding stand_in
finish-stand_in a nil t h = cc
finish-stand_in a (node n lh rh nil nil) t h = refl
finish-stand_in a (node n lh rh nil (node c clh crh cl cr)) t h = refl
finish-stand_in a (node n lh rh (node c clh crh cl nil) r) t h = refl
finish-stand_in a (node n lh rh (node c clh crh cl (node e elh erh el er)) r) t h =
    let m = latest-some e elh erh el er in rw (m.1, finish_remove) refl

finish-Removed :
    (a : ℕ) (t sub : Tree) (s : Option Lock)
    → IsBalanced t
    → Distinct (descending t)
    → is_root a t ≡ false
    → get a t ≡ some sub
    → stand_in sub ≡ s
    → Removed a t (finish_remove a sub (is_root a t) (remove_below a t).0)
finish-Removed a t sub none b d h found e =
    let k = remove_below-Shrunk a t b in
    let out = (remove_below a t).0 in
    record {
      root = out;
      runs = rw h (finish-stand_in a sub out (get-is_nil a t sub found) ∙ rw e refl);
      nodes =
          ap (λ s. put s a (descending (remove_below a t).0)) (sym e)
          ∙ remove_below-list a t sub d found;
      balanced = k.balanced;
      lower = omega (arith, k.lower);
      upper = k.upper;
    }
finish-Removed a t sub (some m) b d h found e =
    let k = remove_below-Shrunk a t b in
    let out = (remove_below a t).0 in
    let f : Lock → Lock = λ n. m in
    record {
      root = modify a f out;
      runs = rw h (
          finish-stand_in a sub out (get-is_nil a t sub found)
          ∙ rw (e, remove_below-root a t b d h) refl);
      nodes =
          descending-modify a f out
          ∙ ap (λ s. put s a (descending out)) (sym e)
          ∙ remove_below-list a t sub d found;
      balanced = modify-IsBalanced a f out k.balanced;
      lower = rw (height-modify a f out) (omega (arith, k.lower));
      upper = rw (height-modify a f out) k.upper;
    }

-- `remove` called on a node of a balanced tree with distinct addresses that is not the root returns the root of a
-- balanced tree, at most one lower, with the other nodes in the order in which they were.
pub remove-Removed :
    (a : ℕ) (t : Tree)
    → IsBalanced t
    → Distinct (descending t)
    → has a t ≡ true
    → is_root a t ≡ false
    → Removed a t (remove a t)
unfolding remove
remove-Removed a t b d inside below = elim (Option-cases (get a t)) [
  | inl absent ↦ let e = get-has a t in absurd (ground arith)
  | inr (sub, found) ↦
      rw (found, remove) (finish-Removed a t sub (stand_in sub) b d below found refl)
]
