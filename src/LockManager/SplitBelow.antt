-- ===== src/LockManager/SplitBelow.antt =====
-- Cutting off the part of a node below an interval, as `tryLock` of src/AVLTreeLockManager.cc does.
use mvtx.Prelude.{
  ℕ, ◌+◌, ◌<◌, ◌≤◌, ◌^◌, ◌≡◌, refl, ap, ◌∙◌, subst, true, false, inl, List, [], ◌∷◌, ◌++◌,
  append_assoc, arith, All, All-append, All-left, All-right, dec64, ◌==◌, ==_iff, sym,
}
use mvtx.LockNode.{Lock, Tree, insert_at, modify, fresh}
use mvtx.LockNode.Balance.{modify-IsBalanced, insert_at-IsBalanced}
use mvtx.LockNode.Descending.{descending, has_addr, Distinct, StartBelow}
use mvtx.LockNode.InsertBelow.{insert_below, FitsBelow, descending-insert_at_below}
use mvtx.LockNode.Find.{Covers, has_addr-fresh}
use mvtx.LockManager.Valid.{IsGrounded, IsValid, holder, state_of, state_at, end-lt}
use mvtx.LockManager.{with_interval, piece, split_below}
use mvtx.LockManager.Backward.{descending-modify_one, modify_one-Distinct}
use mvtx.LockManager.Split.{has_addr-middle, Distinct-insert, Distinct-front, has_addr-here}

insert_below-here :
    (new m : Lock) (a : ℕ) (xs ys : List Lock)
    → (m.addr == a) ≡ true
    → has_addr a xs ≡ false
    → insert_below a new (xs ++ (m ∷ ys)) ≡ xs ++ (m ∷ new ∷ ys)
unfolding has_addr
insert_below-here new m a [] ys e h = rw e refl
insert_below-here new m a (x ∷ xs) ys e h = ground (arith, insert_below-here new m a xs ys e)

StartBelow-weaken : (s s' : ℕ) (ls : List Lock) → s ≤ s' → StartBelow s ls → StartBelow s' ls
StartBelow-weaken s s' [] le h = tt
StartBelow-weaken s s' (m ∷ ls) le h = (omega arith, StartBelow-weaken s s' ls le h.1)

Covers-StartBelow : (lo hi : ℕ) (ls : List Lock) → Covers lo hi ls → StartBelow hi ls
Covers-StartBelow lo hi [] c = tt
Covers-StartBelow lo hi (n ∷ ls) c = (
  omega arith,
  StartBelow-weaken n.start hi ls (omega arith) (Covers-StartBelow lo n.start ls c.2),
)

FitsBelow-here :
    (n m : Lock) (lo hi : ℕ) (xs ys : List Lock)
    → Covers lo hi (xs ++ (n ∷ ys))
    → n.start < m.start
    → (m.addr == n.addr) ≡ true
    → has_addr n.addr xs ≡ false
    → FitsBelow n.addr n.start (xs ++ (m ∷ ys))
unfolding has_addr
FitsBelow-here n m lo hi [] ys c p e h = rw e (p, Covers-StartBelow lo n.start ys c.2)
FitsBelow-here n m lo hi (x ∷ xs) ys c p e h =
    let other : (x.addr == n.addr) ≡ false = ground arith in
    rw other (FitsBelow-here n m lo x.start xs ys c.2 p e (ground arith))

module _ (n new : Lock) (ts : ℕ) (low : n.start < ts) (high : ts ≤ n.end)
    (start : new.start ≡ n.start) (end : new.end + 1 ≡ ts) where
  Covers-cut_below :
      (lo hi : ℕ) (xs ys : List Lock)
      → Covers lo hi (xs ++ (n ∷ ys))
      → Covers lo hi (xs ++ (with_interval ts n.end n ∷ new ∷ ys))
  Covers-cut_below lo hi [] ys c =
      (c.0, high, (end, omega arith, subst (λ s. Covers lo s ys) (sym start) c.2))
  Covers-cut_below lo hi (x ∷ xs) ys c = (c.0, c.1, Covers-cut_below lo x.start xs ys c.2)

  state_of-cut_below :
      (t : ℕ) (xs ys : List Lock)
      → new.status ≡ n.status
      → new.tids ≡ n.tids
      → state_of (holder t (xs ++ (with_interval ts n.end n ∷ new ∷ ys)))
        ≡ state_of (holder t (xs ++ (n ∷ ys)))
  state_of-cut_below t [] ys e f = ground arith
  state_of-cut_below t (x ∷ xs) ys e f = ground (arith, state_of-cut_below t xs ys e f)

Distinct-below :
    (new m : Lock) (xs ys : List Lock)
    → has_addr new.addr (xs ++ (m ∷ ys)) ≡ false
    → Distinct (xs ++ (m ∷ ys))
    → Distinct (xs ++ (m ∷ new ∷ ys))
Distinct-below new m xs ys h d =
    let e = append_assoc xs (m ∷ []) ys in
    let e' = append_assoc xs (m ∷ []) (new ∷ ys) in
    subst Distinct e' (
      Distinct-insert new (xs ++ (m ∷ [])) ys (ap (has_addr new.addr) e ∙ h)
        (subst Distinct (sym e) d))

-- The outcome of a cut below `ts` of the node `n`.
pub record CutBelow (root root' : Tree) (upper lower : List Lock) (n : Lock) (ts : ℕ) : Type 0 where
  pub new : Lock
  pub nodes : descending root' ≡ upper ++ (with_interval ts n.end n ∷ new ∷ lower)
  pub valid : IsValid root'
  pub same : (t : ℕ) → state_at t root' ≡ state_at t root

-- A node `n` of a valid tree that holds `ts` and times below it, and not time 0, is cut below `ts` into two
-- neighbours; the tree stays valid and every time keeps its status and transactions.
pub split_below-CutBelow :
    (root : Tree) (upper lower : List Lock) (n : Lock) (ts : ℕ)
    → IsValid root
    → descending root ≡ upper ++ (n ∷ lower)
    → n.start < ts
    → ts ≤ n.end
    → 0 < n.start
    → CutBelow root (split_below n.addr n ts root) upper lower n ts
unfolding split_below
split_below-CutBelow root upper lower n ts v s low high pos =
    let f = with_interval ts n.end in
    let c = subst (Covers 0 (2 ^ 64)) s v.covers in
    let d = subst Distinct s v.distinct in
    let g = subst (All IsGrounded) s v.grounded in
    let small = end-lt 0 (2 ^ 64) upper lower n c in
    let dec : dec64 ts + 1 ≡ ts = omega arith in
    let new = piece root n n.start (dec64 ts) in
    let root1 = modify n.addr f root in
    let nodes1 = descending-modify_one f root upper lower n s d in
    let d1 = modify_one-Distinct f upper lower n (λ m. refl) d in
    let front = Distinct-front n.addr upper lower n refl d in
    let here = (==_iff n.addr n.addr).1 refl in
    let fits : FitsBelow n.addr new.start (descending root1) =
      rw nodes1 (FitsBelow-here n (f n) 0 (2 ^ 64) upper lower c low here front) in
    let inserted =
      descending-insert_at_below n.addr new root1 (rw nodes1 d1)
        (rw nodes1 (has_addr-here upper lower (f n) n refl)) fits in
    let nodes : descending (insert_at n.addr new root1).0 ≡ upper ++ (f n ∷ new ∷ lower) =
      inserted
      ∙ ap (insert_below n.addr new) nodes1
      ∙ insert_below-here new (f n) n.addr upper lower here front in
    let unused =
      has_addr-middle (fresh root) upper lower (f n) n refl
      ∙ subst (λ x. has_addr (fresh root) x ≡ false) s (has_addr-fresh root) in
    let above = All-left IsGrounded upper (n ∷ lower) g in
    let below = All-right IsGrounded upper (n ∷ lower) g in
    record {
      new = new;
      nodes = nodes;
      valid = record {
        covers = rw nodes (Covers-cut_below n new ts low high refl dec 0 (2 ^ 64) upper lower c);
        distinct = rw nodes (Distinct-below new (f n) upper lower unused d1);
        grounded = rw nodes (
            All-append IsGrounded upper (f n ∷ new ∷ lower) above
              (inl (omega arith), (inl pos, below.1)));
        balanced =
            (insert_at-IsBalanced n.addr new root1 (modify-IsBalanced n.addr f root v.balanced)).0;
      };
      same = λ t.
          rw (nodes, s) (state_of-cut_below n new ts low high refl dec t upper lower refl refl);
    }
