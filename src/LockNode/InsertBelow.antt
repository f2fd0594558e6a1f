-- ===== src/LockNode/InsertBelow.antt =====
-- `insert` of src/AVLTreeLockNode.cc called on a node with a lock that starts before it: the case of
-- `tryLock`, which cuts off the part of a node below an interval.
use mvtx.Prelude.{
  ℕ, ◌<◌, ◌≡◌, refl, ap, sym, ◌∙◌, true, false, inl, inr, List, [], ◌∷◌, ◌++◌, arith, All-left,
  All-right, lt→ltb, le→ltb, ◌==◌, if◌then◌else◌, Bool-cases,
}
use mvtx.LockNode.{Lock, Tree, nil, node, insert, insert_at}
use mvtx.LockNode.Descending.{
  descending, descending-climb, StartBelow, has_addr, has_addr-append, has-descending, Distinct,
  Distinct-left, Distinct-right, Distinct-apart,
}

-- A lock put directly below the lock with an address.
abbrev pub insert_below : ℕ → Lock → List Lock → List Lock
insert_below a new [] = []
insert_below a new (n ∷ ls) = if n.addr == a then n ∷ new ∷ ls else n ∷ insert_below a new ls

-- A starting point lies between the lock with an address and the next one below it.
abbrev pub FitsBelow : ℕ → ℕ → List Lock → Type 0
FitsBelow a s [] = Unit {0}
FitsBelow a s (n ∷ ls) = if n.addr == a then ((s < n.start) × StartBelow s ls) else FitsBelow a s ls

FitsBelow-right :
    (a s : ℕ) (xs ys : List Lock)
    → has_addr a xs ≡ false
    → FitsBelow a s (xs ++ ys)
    → FitsBelow a s ys
unfolding has_addr
FitsBelow-right a s [] ys h f = f
FitsBelow-right a s (x ∷ xs) ys h f =
    let other : (x.addr == a) ≡ false = ground arith in
    FitsBelow-right a s xs ys (ground arith) (rw other at f)

FitsBelow-left : (a s : ℕ) (xs ys : List Lock) → FitsBelow a s (xs ++ ys) → FitsBelow a s xs
FitsBelow-left a s [] ys f = tt
FitsBelow-left a s (x ∷ xs) ys f = elim (Bool-cases (x.addr == a)) [
  | inl here ↦ let g = rw here at f in rw here (g.0, All-left (λ n. n.start < s) xs ys g.1)
  | inr other ↦ rw other (FitsBelow-left a s xs ys (rw other at f))
]

insert_below-append :
    (a : ℕ) (new : Lock) (xs ys : List Lock)
    → insert_below a new (xs ++ ys)
      ≡ (if has_addr a xs then insert_below a new xs ++ ys else xs ++ insert_below a new ys)
unfolding has_addr
insert_below-append a new [] ys = refl
insert_below-append a new (x ∷ xs) ys = ground (arith, insert_below-append a new xs ys)

-- Insertion at the top of a subtree whose locks all start earlier.
descending-insert_latest :
    (new : Lock) (t : Tree)
    → StartBelow new.start (descending t)
    → descending (insert new t).0 ≡ new ∷ descending t
unfolding insert
descending-insert_latest new nil h = refl
descending-insert_latest new (node n lh rh l r) h =
    let right = insert new r in
    let low = All-right (λ (m : Lock). m.start < new.start) (descending r) (n ∷ descending l) h in
    let high = All-left (λ (m : Lock). m.start < new.start) (descending r) (n ∷ descending l) h in
    rw (le→ltb new.start n.start (omega arith), descending-climb right.1 (node n lh rh l right.0))
      (ap (λ x. x ++ (n ∷ descending l)) (descending-insert_latest new r high))

descending-insert_lower :
    (new n : Lock) (lh rh : ℕ) (l r : Tree)
    → new.start < n.start
    → StartBelow new.start (descending l)
    → descending (insert new (node n lh rh l r)).0 ≡ descending r ++ (n ∷ new ∷ descending l)
unfolding insert
descending-insert_lower new n lh rh l r lt h =
    let left = insert new l in
    rw (lt→ltb new.start n.start lt, descending-climb left.1 (node n lh rh left.0 r))
      (ap (λ x. descending r ++ (n ∷ x)) (descending-insert_latest new l h))

-- `insert` called on a node of a tree with distinct addresses, with a lock that starts before that node
-- and after all nodes below it, puts the new lock directly below that node.
pub descending-insert_at_below :
    (a : ℕ) (new : Lock) (t : Tree)
    → Distinct (descending t)
    → has_addr a (descending t) ≡ true
    → FitsBelow a new.start (descending t)
    → descending (insert_at a new t).0 ≡ insert_below a new (descending t)
unfolding insert_at
descending-insert_at_below a new nil d h f = refl
descending-insert_at_below a new (node n lh rh l r) d h f =
    let xs = descending r in
    let ys = descending l in
    let left = insert_at a new l in
    let right = insert_at a new r in
    elim (Bool-cases (n.addr == a)) [
      | inl here ↦
          let out = Distinct-apart a xs (n ∷ ys) d (unfold has_addr in rw here refl) in
          let g = rw here at (FitsBelow-right a new.start xs (n ∷ ys) out f) in
          rw here (
            descending-insert_lower new n lh rh l r g.0 g.1
            ∙ sym (insert_below-append a new xs (n ∷ ys) ∙ rw (out, here)))
      | inr other ↦ elim (Bool-cases (has_addr a ys)) [
        | inl below ↦
            let here : has_addr a (n ∷ ys) ≡ true = (unfold has_addr in rw (other, below)) in
            let out = Distinct-apart a xs (n ∷ ys) d here in
            let g = rw other at (FitsBelow-right a new.start xs (n ∷ ys) out f) in
            rw (other, has-descending a l, below, descending-climb left.1 (node n lh rh left.0 r))
              (ground (
                arith,
                descending-insert_at_below a new l (Distinct-right xs (n ∷ ys) d).1 below g,
                insert_below-append a new xs (n ∷ ys),
              ))
        | inr not_below ↦
            let above : has_addr a xs ≡ true =
              (unfold has_addr in ground (arith, has_addr-append a xs (n ∷ ys))) in
            rw
              (
                other,
                has-descending a l,
                not_below,
                descending-climb right.1 (node n lh rh l right.0),
              )
              (ground (
                arith,
                descending-insert_at_below a new r (Distinct-left xs (n ∷ ys) d) above
                    (FitsBelow-left a new.start xs (n ∷ ys) f),
                insert_below-append a new xs (n ∷ ys),
              ))
      ]
    ]
