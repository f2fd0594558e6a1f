-- ===== src/LockNode/Remove/Dropped.antt =====
-- `remove` of src/AVLTreeLockNode.cc on the list of the nodes, and the balance after it.

use mvtx.Prelude.{
  ℕ, ◌≡◌, refl, ap, sym, ◌∙◌, true, false, inl, inr, Option, none, some, List, [], ◌∷◌, ◌++◌,
  append-nil, arith, ◌==◌, ==_iff, if◌then◌else◌, Bool-cases, Option-cases, none-some,
}
use mvtx.LockNode.{Lock, Tree, nil, node, climb, has, get}
use mvtx.LockNode.Descending.{
  descending, descending-rebalance, descending-climb, has_addr, has-descending, Distinct,
  Distinct-left, Distinct-right, Distinct-apart,
}
use mvtx.LockNode.Find.{write_at, write_at-append, write_at-absent}
use mvtx.LockNode.Remove.{latest, drop_latest, remove_here, stand_in, remove_below}

-- The list without the node with an address.
abbrev pub drop_addr : ℕ → List Lock → List Lock
drop_addr a [] = []
drop_addr a (n ∷ ls) = if n.addr == a then ls else n ∷ drop_addr a ls

drop_addr-left :
    (a : ℕ) (xs ys : List Lock)
    → has_addr a xs ≡ true
    → drop_addr a (xs ++ ys) ≡ drop_addr a xs ++ ys
unfolding has_addr
drop_addr-left a [] ys h = cc
drop_addr-left a (x ∷ xs) ys h = ground (arith, drop_addr-left a xs ys)

drop_addr-right :
    (a : ℕ) (xs ys : List Lock)
    → has_addr a xs ≡ false
    → drop_addr a (xs ++ ys) ≡ xs ++ drop_addr a ys
unfolding has_addr
drop_addr-right a [] ys h = refl
drop_addr-right a (x ∷ xs) ys h = ground (arith, drop_addr-right a xs ys)

-- The stand-in is put where the removed node is.
abbrev pub put : Option Lock → ℕ → List Lock → List Lock
put none a ls = ls
put (some m) a ls = write_at a (λ n. m) ls

put-left :
    (s : Option Lock) (a : ℕ) (xs ys : List Lock)
    → has_addr a ys ≡ false
    → put s a (xs ++ ys) ≡ put s a xs ++ ys
put-left none a xs ys h = refl
put-left (some m) a xs ys h =
    write_at-append a (λ n. m) xs ys
    ∙ ap (λ z. write_at a (λ n. m) xs ++ z) (write_at-absent a (λ n. m) ys h)

put-right :
    (s : Option Lock) (a : ℕ) (xs ys : List Lock)
    → has_addr a xs ≡ false
    → put s a (xs ++ ys) ≡ xs ++ put s a ys
put-right none a xs ys h = refl
put-right (some m) a xs ys h =
    write_at-append a (λ n. m) xs ys
    ∙ ap (λ z. z ++ write_at a (λ n. m) ys) (write_at-absent a (λ n. m) xs h)

-- The first node of the list, which is the rightmost of the tree.
record Latest (t : Tree) : Type 0 where
  lock : Lock
  found : latest t ≡ some lock
  split : descending t ≡ lock ∷ descending (drop_latest t).0

latest_lem : (n : Lock) (lh rh : ℕ) (l r : Tree) → Latest (node n lh rh l r)
unfolding latest drop_latest
latest_lem n lh rh l nil = record { lock = n; found = refl; split = refl }
latest_lem n lh rh l (node m mlh mrh ml mr) =
    let below = latest_lem m mlh mrh ml mr in
    let right = drop_latest (node m mlh mrh ml mr) in
    record {
      lock = below.lock;
      found = below.found;
      split =
          ap (λ x. x ++ (n ∷ descending l)) below.split
          ∙ ap (λ x. below.lock ∷ x) (sym (descending-climb right.1 (node n lh rh l right.0)));
    }

put-here :
    (m n : Lock) (ys : List Lock)
    → has_addr n.addr ys ≡ false
    → put (some m) n.addr (n ∷ ys) ≡ m ∷ ys
put-here m n ys h =
    rw ((==_iff n.addr n.addr).1 refl) (ap (λ x. m ∷ x) (write_at-absent n.addr (λ x. m) ys h))

absent-tail :
    (a : ℕ) (n : Lock) (ls : List Lock) → has_addr a (n ∷ ls) ≡ false → has_addr a ls ≡ false
unfolding has_addr
absent-tail a n ls h = ground arith

has_addr_self : (n : Lock) (ls : List Lock) → has_addr n.addr (n ∷ ls) ≡ true
unfolding has_addr
has_addr_self n ls = ground arith

remove_here-list :
    (n : Lock) (lh rh : ℕ) (l r : Tree)
    → Distinct (descending (node n lh rh l r))
    → put (stand_in (node n lh rh l r)) n.addr (descending (remove_here (node n lh rh l r)).0)
      ≡ descending r ++ descending l
unfolding remove_here stand_in
remove_here-list n lh rh nil r d = sym (append-nil (descending r))
remove_here-list n lh rh (node c clh crh cl nil) r d = descending-rebalance (node c clh crh cl r)
remove_here-list n lh rh (node c clh crh cl (node e elh erh el er)) r d =
    let l = node c clh crh cl (node e elh erh el er) in
    let left = drop_latest l in
    let top = latest_lem c clh crh cl (node e elh erh el er) in
    let own = Distinct-right (descending r) (n ∷ descending l) d in
    let out =
      Distinct-apart n.addr (descending r) (n ∷ descending l) d (has_addr_self n (descending l)) in
    let rest : has_addr n.addr (descending left.0) ≡ false =
      absent-tail n.addr top.lock (descending left.0)
        (ap (has_addr n.addr) (sym top.split) ∙ own.0) in
    ap (λ s. put s n.addr (descending (climb left.1 (node n lh rh left.0 r)).0)) top.found
    ∙ ap (put (some top.lock) n.addr) (descending-climb left.1 (node n lh rh left.0 r))
    ∙ put-right (some top.lock) n.addr (descending r) (n ∷ descending left.0) out
    ∙ ap (λ x. descending r ++ x) (put-here top.lock n (descending left.0) rest ∙ sym top.split)

present : (a : ℕ) (n : Lock) (ls : List Lock) → (n.addr == a) ≡ true → has_addr a (n ∷ ls) ≡ true
unfolding has_addr
present a n ls h = rw h refl

pub present_below :
    (a : ℕ) (n : Lock) (ls : List Lock) → has_addr a ls ≡ true → has_addr a (n ∷ ls) ≡ true
unfolding has_addr
present_below a n ls h = ground arith

absent_here :
    (a : ℕ) (n : Lock) (ls : List Lock)
    → (n.addr == a) ≡ false
    → has_addr a ls ≡ false
    → has_addr a (n ∷ ls) ≡ false
unfolding has_addr
absent_here a n ls h k = ground arith

only : (a : ℕ) (n : Lock) → (n.addr == a) ≡ false → has_addr a (n ∷ []) ≡ false
unfolding has_addr
only a n h = rw h refl

-- Whether `get` finds a node.
pub get-has : (a : ℕ) (t : Tree) → has a t ≡ (elim (get a t) [ none ↦ false | some s ↦ true ])
unfolding get has
get-has a nil = refl
get-has a (node n lh rh l r) = ground (arith, get-has a l, get-has a r)

pub remove_below-list :
    (a : ℕ) (t sub : Tree)
    → Distinct (descending t)
    → get a t ≡ some sub
    → put (stand_in sub) a (descending (remove_below a t).0) ≡ drop_addr a (descending t)
unfolding remove_below get
remove_below-list a nil sub d e = absurd (none-some sub e)
remove_below-list a (node n lh rh l r) sub d e =
    let t = node n lh rh l r in
    let xs = descending r in
    let ys = descending l in
    let left = remove_below a l in
    let right = remove_below a r in
    elim (Bool-cases (n.addr == a)) [
      | inl here ↦
          let eq : n.addr ≡ a = (==_iff n.addr a).0 here in
          let same : t ≡ sub = (let e' = rw here at e in cc) in
          let out = Distinct-apart a xs (n ∷ ys) d (present a n ys here) in
          rw here (
            ap (λ z. put (stand_in z) a (descending (remove_here t).0)) (sym same)
            ∙ ap (λ b. put (stand_in t) b (descending (remove_here t).0)) (sym eq)
            ∙ remove_here-list n lh rh l r d
            ∙ sym (drop_addr-right a xs (n ∷ ys) out ∙ rw here refl))
      | inr other ↦ elim (Option-cases (get a l)) [
        | inr (s, found) ↦
            let same : s ≡ sub = (let e' = rw (other, found) at e in cc) in
            let has_l : has a l ≡ true = get-has a l ∙ rw found refl in
            let below = sym (has-descending a l) ∙ has_l in
            let out = Distinct-apart a xs (n ∷ ys) d (present_below a n ys below) in
            let ih =
              remove_below-list a l sub (Distinct-right xs (n ∷ ys) d).1 (found ∙ ap some same) in
            rw (other, has_l)
              (ap (put (stand_in sub) a) (descending-climb left.1 (node n lh rh left.0 r))
                ∙ put-right (stand_in sub) a xs (n ∷ descending left.0) out
                ∙ ap (λ z. xs ++ z)
                    (put-right (stand_in sub) a (n ∷ []) (descending left.0) (only a n other)
                      ∙ ap (λ z. n ∷ z) ih)
                ∙ sym (drop_addr-right a xs (n ∷ ys) out ∙ rw other refl))
        | inl absent ↦
            let has_l : has a l ≡ false = get-has a l ∙ rw absent refl in
            let below = sym (has-descending a l) ∙ has_l in
            let found : get a r ≡ some sub = rw (other, absent) at e in
            let above : has_addr a xs ≡ true =
              sym (has-descending a r) ∙ get-has a r ∙ rw found refl in
            let ih = remove_below-list a r sub (Distinct-left xs (n ∷ ys) d) found in
            rw (other, has_l)
              (ap (put (stand_in sub) a) (descending-climb right.1 (node n lh rh l right.0))
                ∙ put-left (stand_in sub) a (descending right.0) (n ∷ ys)
                    (absent_here a n ys other below)
                ∙ ap (λ z. z ++ (n ∷ ys)) ih
                ∙ sym (drop_addr-left a xs (n ∷ ys) above))
      ]
    ]
