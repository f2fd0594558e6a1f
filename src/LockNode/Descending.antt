-- ===== src/LockNode/Descending.antt =====
-- The nodes of a tree from the latest interval to the earliest, which is the order of the walks of
-- the lock manager, and what the operations of src/AVLTreeLockNode.cc do to that list.

use mvtx.Prelude.{
  ℕ, ◌<◌, ◌≤◌, ◌≡◌, refl, ◌∙◌, sym, Bool, true, false, ◌||◌, inl, inr, List, [], ◌∷◌, ◌++◌,
  append_assoc, arith, All, lt→ltb, le→ltb, All-left, All-right, ◌==◌, if◌then◌else◌, Bool-cases,
  ltb,
}
use mvtx.LockNode.{
  Lock, child_height, Tree, nil, node, swap, rebalance, climb, insert, insert_at, has,
}

abbrev pub descending : Tree → List Lock
descending nil = []
descending (node n lh rh l r) = descending r ++ (n ∷ descending l)

descending-swap : (b : Bool) (t : Tree) → descending (swap b t) ≡ descending t
unfolding swap
descending-swap true nil = refl
descending-swap true (node n lh rh nil r) = refl
descending-swap true (node n lh rh (node c clh crh cl cr) r) =
    append_assoc (descending r) (n ∷ descending cr) (c ∷ descending cl)
descending-swap false nil = refl
descending-swap false (node n lh rh l nil) = refl
descending-swap false (node n lh rh l (node c clh crh cl cr)) =
    sym (append_assoc (descending cr) (c ∷ descending cl) (n ∷ descending l))

-- The branches of `rebalance`, as lists.
pub descending-rebalance : (t : Tree) → descending (rebalance t).0 ≡ descending t
unfolding rebalance
descending-rebalance nil = refl
descending-rebalance (node n lh rh l r) =
    let lh' = child_height l in
    let rh' = child_height r in
    ground (
      arith,
      descending-swap true (node n lh' rh' (swap false l) r),
      descending-swap false l,
      descending-swap true (node n lh' rh' l r),
      descending-swap false (node n lh' rh' l (swap true r)),
      descending-swap true r,
      descending-swap false (node n lh' rh' l r),
    )

pub descending-climb : (go : Bool) (t : Tree) → descending (climb go t).0 ≡ descending t
unfolding climb
descending-climb true t = descending-rebalance t
descending-climb false t = refl

-- Insertion into a list in the order of the starting points.
abbrev pub insert_by_start : Lock → List Lock → List Lock
insert_by_start new [] = new ∷ []
insert_by_start new (n ∷ ls) =
    if ltb new.start n.start then n ∷ insert_by_start new ls else new ∷ n ∷ ls

-- All locks of the list start above, or at most at, a time.
abbrev pub StartAbove : ℕ → List Lock → Type 0
StartAbove s = All (λ n. s < n.start)

abbrev pub StartBelow : ℕ → List Lock → Type 0
StartBelow s = All (λ n. n.start < s)

-- Each lock starts before the locks that stand above it.
abbrev pub IsDescending : List Lock → Type 0
IsDescending [] = Unit {0}
IsDescending (n ∷ ls) = StartBelow n.start ls × IsDescending ls

insert_by_start-append :
    (new n : Lock) (xs ys : List Lock)
    → IsDescending (xs ++ n ∷ ys)
    → insert_by_start new (xs ++ n ∷ ys) ≡ (
        if ltb new.start n.start
        then xs ++ (n ∷ insert_by_start new ys)
        else insert_by_start new xs ++ (n ∷ ys))
insert_by_start-append new n [] ys s = ground arith
insert_by_start-append new n (x ∷ xs) ys s =
    let below : n.start < x.start = (All-right (λ m. m.start < x.start) xs (n ∷ ys) s.0).0 in
    ground (arith, insert_by_start-append new n xs ys s.1, below)

pub IsDescending-right : (xs ys : List Lock) → IsDescending (xs ++ ys) → IsDescending ys
IsDescending-right [] ys s = s
IsDescending-right (x ∷ xs) ys s = IsDescending-right xs ys s.1

pub IsDescending-left : (xs ys : List Lock) → IsDescending (xs ++ ys) → IsDescending xs
IsDescending-left [] ys s = tt
IsDescending-left (x ∷ xs) ys s = (All-left _ xs ys s.0, IsDescending-left xs ys s.1)

-- `insert` at the root of a search tree with distinct starts is insertion in a list sorted by the
-- starts, whatever the rotations.
pub descending-insert :
    (new : Lock) (t : Tree)
    → IsDescending (descending t)
    → descending (insert new t).0 ≡ insert_by_start new (descending t)
unfolding insert
descending-insert new nil s = refl
descending-insert new (node n lh rh l r) s =
    let left = insert new l in
    let right = insert new r in
    ground (
      arith,
      insert_by_start-append new n (descending r) (descending l) s,
      descending-climb left.1 (node n lh rh left.0 r),
      descending-climb right.1 (node n lh rh l right.0),
      descending-insert new l (IsDescending-right (descending r) (n ∷ descending l) s).1,
      descending-insert new r (IsDescending-left (descending r) (n ∷ descending l) s),
    )

-- Whether a list holds a lock with an address.
unfoldable pub has_addr : ℕ → List Lock → Bool
has_addr a [] = false
has_addr a (n ∷ ls) = n.addr == a || has_addr a ls

pub has_addr-append :
    (a : ℕ) (xs ys : List Lock) → has_addr a (xs ++ ys) ≡ (has_addr a xs || has_addr a ys)
unfolding has_addr
has_addr-append a [] ys = refl
has_addr-append a (x ∷ xs) ys = rw (has_addr-append a xs ys) (ground arith)

pub has-descending : (a : ℕ) (t : Tree) → has a t ≡ has_addr a (descending t)
unfolding has has_addr
has-descending a nil = refl
has-descending a (node n lh rh l r) =
    rw (has_addr-append a (descending r) (n ∷ descending l), has-descending a l, has-descending a r)
      (ground arith)

-- The addresses of a list are different.
abbrev pub Distinct : List Lock → Type 0
Distinct [] = Unit {0}
Distinct (n ∷ ls) = (has_addr n.addr ls ≡ false) × Distinct ls

pub Distinct-left : (xs ys : List Lock) → Distinct (xs ++ ys) → Distinct xs
Distinct-left [] ys d = tt
Distinct-left (x ∷ xs) ys d =
    (ground (arith, has_addr-append x.addr xs ys), Distinct-left xs ys d.1)

pub Distinct-right : (xs ys : List Lock) → Distinct (xs ++ ys) → Distinct ys
Distinct-right [] ys d = d
Distinct-right (x ∷ xs) ys d = Distinct-right xs ys d.1

-- What the second part of such a list holds, the first part does not.
pub Distinct-apart :
    (a : ℕ) (xs ys : List Lock) → Distinct (xs ++ ys) → has_addr a ys ≡ true → has_addr a xs ≡ false
unfolding has_addr
Distinct-apart a [] ys d h = refl
Distinct-apart a (x ∷ xs) ys d h =
    ground (arith, Distinct-apart a xs ys d.1 h, has_addr-append x.addr xs ys)

-- A lock put directly above the lock with an address.
abbrev pub insert_above : ℕ → Lock → List Lock → List Lock
insert_above a new [] = []
insert_above a new (n ∷ ls) = if n.addr == a then new ∷ n ∷ ls else n ∷ insert_above a new ls

-- A starting point lies between the lock with an address and the next one above it.
abbrev pub Fits : ℕ → ℕ → List Lock → Type 0
Fits a s [] = Unit {0}
Fits a s (n ∷ ls) = if n.addr == a then n.start ≤ s else ((s < n.start) × Fits a s ls)

Fits-above :
    (a s : ℕ) (xs ys : List Lock)
    → has_addr a xs ≡ false
    → Fits a s (xs ++ ys)
    → StartAbove s xs × Fits a s ys
unfolding has_addr
Fits-above a s [] ys h f = (tt, f)
Fits-above a s (x ∷ xs) ys h f = elim (Bool-cases (x.addr == a)) [
  | inl same ↦ ground arith
  | inr other ↦
      let g = rw other at f in
      let rest = Fits-above a s xs ys (ground arith) g.1 in ((g.0, rest.0), rest.1)
]

insert_above-append :
    (a : ℕ) (new : Lock) (xs ys : List Lock)
    → insert_above a new (xs ++ ys)
      ≡ (if has_addr a xs then insert_above a new xs ++ ys else xs ++ insert_above a new ys)
unfolding has_addr
insert_above-append a new [] ys = refl
insert_above-append a new (x ∷ xs) ys = ground (arith, insert_above-append a new xs ys)

Fits-left : (a s : ℕ) (xs ys : List Lock) → has_addr a xs ≡ true → Fits a s (xs ++ ys) → Fits a s xs
unfolding has_addr
Fits-left a s [] ys h f = tt
Fits-left a s (x ∷ xs) ys h f = elim (Bool-cases (x.addr == a)) [
  | inl same ↦ rw same (rw same at f)
  | inr other ↦ let g = rw other at f in rw other (g.0, Fits-left a s xs ys (ground arith) g.1)
]

-- Insertion at the bottom of a subtree whose locks all start later.
descending-insert_earliest :
    (new : Lock) (t : Tree)
    → StartAbove new.start (descending t)
    → descending (insert new t).0 ≡ descending t ++ (new ∷ [])
unfolding insert
descending-insert_earliest new nil h = refl
descending-insert_earliest new (node n lh rh l r) h =
    let left = insert new l in
    let above = All-right (λ (m : Lock). new.start < m.start) (descending r) (n ∷ descending l) h in
    rw (lt→ltb new.start n.start above.0, descending-climb left.1 (node n lh rh left.0 r))
      (ground (
        arith,
        descending-insert_earliest new l above.1,
        append_assoc (descending r) (n ∷ descending l) (new ∷ []),
      ))

-- `insert` called on a node that starts at or before the new lock, with later ones above it.
descending-insert_here :
    (new n : Lock) (lh rh : ℕ) (l r : Tree)
    → StartAbove new.start (descending r)
    → n.start ≤ new.start
    → descending (insert new (node n lh rh l r)).0 ≡ descending r ++ (new ∷ n ∷ descending l)
unfolding insert
descending-insert_here new n lh rh l r h le =
    let right = insert new r in
    rw (le→ltb new.start n.start le, descending-climb right.1 (node n lh rh l right.0))
      (ground (
        arith,
        descending-insert_earliest new r h,
        append_assoc (descending r) (new ∷ []) (n ∷ descending l),
      ))

-- `insert` called on a node of a tree with distinct addresses, with a lock that starts at or after that
-- node and before the next one, puts the new lock directly above that node.
pub descending-insert_at :
    (a : ℕ) (new : Lock) (t : Tree)
    → Distinct (descending t)
    → has_addr a (descending t) ≡ true
    → Fits a new.start (descending t)
    → descending (insert_at a new t).0 ≡ insert_above a new (descending t)
unfolding insert_at
descending-insert_at a new nil d h f = refl
descending-insert_at a new (node n lh rh l r) d h f =
    let xs = descending r in
    let ys = descending l in
    let left = insert_at a new l in
    let right = insert_at a new r in
    elim (Bool-cases (n.addr == a)) [
      | inl here ↦
          let out = Distinct-apart a xs (n ∷ ys) d (unfold has_addr in rw here refl) in
          let fits = Fits-above a new.start xs (n ∷ ys) out f in
          rw here (
            descending-insert_here new n lh rh l r fits.0 (rw here at fits.1)
            ∙ sym (insert_above-append a new xs (n ∷ ys) ∙ rw (out, here)))
      | inr other ↦ elim (Bool-cases (has_addr a ys)) [
        | inl below ↦
            let here : has_addr a (n ∷ ys) ≡ true = (unfold has_addr in rw (other, below)) in
            let out = Distinct-apart a xs (n ∷ ys) d here in
            let fits = Fits-above a new.start xs (n ∷ ys) out f in
            rw (other, has-descending a l, below, descending-climb left.1 (node n lh rh left.0 r))
              (ground (
                arith,
                descending-insert_at a new l (Distinct-right xs (n ∷ ys) d).1 below
                    (rw other at fits.1).1,
                insert_above-append a new xs (n ∷ ys),
              ))
        | inr not_below ↦
            let above : has_addr a xs ≡ true =
              (unfold has_addr in ground (arith, has_addr-append a xs (n ∷ ys))) in
            rw
              (
                other,
                has-descending a l,
                not_below,
                descending-climb right.1 (node n lh rh l right.0),
              )
              (ground (
                arith,
                descending-insert_at a new r (Distinct-left xs (n ∷ ys) d) above
                    (Fits-left a new.start xs (n ∷ ys) above f),
                insert_above-append a new xs (n ∷ ys),
              ))
      ]
    ]
