-- ===== src/LockManager/Split.antt =====
-- Cutting a node in two, as `tryBackwardLock` and `tryLock` of src/AVLTreeLockManager.cc do.
use mvtx.Prelude.{
  ℕ, ◌+◌, ◌<◌, ◌≤◌, ◌^◌, ◌≡◌, refl, ap, ◌∙◌, subst, true, false, inl, List, [], ◌∷◌, ◌++◌, arith,
  All, All-append, All-left, All-right, inc64, ◌==◌, ==_iff,
}
use mvtx.LockNode.{Lock, Tree, insert_at, modify, fresh}
use mvtx.LockNode.Balance.{modify-IsBalanced, insert_at-IsBalanced}
use mvtx.LockNode.Descending.{
  descending, has_addr, has_addr-append, Distinct, Distinct-apart, insert_above, Fits,
  descending-insert_at,
}
use mvtx.LockNode.Find.{Covers, has_addr-fresh}
use mvtx.LockManager.Valid.{IsGrounded, IsValid, holder, state_of, state_at, end-lt}
use mvtx.LockManager.{with_interval, piece, split_above}
use mvtx.LockManager.Backward.{descending-modify_one, modify_one-Distinct}

insert_above-here :
    (new n : Lock) (xs ys : List Lock)
    → has_addr n.addr xs ≡ false
    → insert_above n.addr new (xs ++ (n ∷ ys)) ≡ xs ++ (new ∷ n ∷ ys)
unfolding has_addr
insert_above-here new n [] ys h = ground arith
insert_above-here new n (x ∷ xs) ys h = ground (arith, insert_above-here new n xs ys)

Fits-here :
    (n m : Lock) (s lo hi : ℕ) (xs ys : List Lock)
    → Covers lo hi (xs ++ (n ∷ ys))
    → n.start ≤ s
    → s ≤ n.end
    → m.addr ≡ n.addr
    → m.start ≡ n.start
    → has_addr n.addr xs ≡ false
    → Fits n.addr s (xs ++ (m ∷ ys))
unfolding has_addr
Fits-here n m s lo hi [] ys c p q e f h = rw (e, (==_iff n.addr n.addr).1 refl) (omega arith)
Fits-here n m s lo hi (x ∷ xs) ys c p q e f h =
    let other : (x.addr == n.addr) ≡ false = ground arith in
    let rest : has_addr n.addr xs ≡ false = ground arith in
    let lt = end-lt lo x.start xs ys n c.2 in
    rw other (omega arith, Fits-here n m s lo x.start xs ys c.2 p q e f rest)

module _ (n new : Lock) (ts : ℕ) (low : n.start ≤ ts) (high : ts < n.end)
    (start : new.start ≡ ts + 1) (end : new.end ≡ n.end) where
  Covers-cut :
      (lo hi : ℕ) (xs ys : List Lock)
      → Covers lo hi (xs ++ (n ∷ ys))
      → Covers lo hi (xs ++ (new ∷ with_interval n.start ts n ∷ ys))
  Covers-cut lo hi [] ys c = (omega arith, omega arith, (omega arith, low, c.2))
  Covers-cut lo hi (x ∷ xs) ys c = (c.0, c.1, Covers-cut lo x.start xs ys c.2)

  state_of-cut :
      (lo hi t : ℕ) (xs ys : List Lock)
      → new.status ≡ n.status
      → new.tids ≡ n.tids
      → state_of (holder t (xs ++ (new ∷ with_interval n.start ts n ∷ ys)))
        ≡ state_of (holder t (xs ++ (n ∷ ys)))
  state_of-cut lo hi t [] ys e f = ground arith
  state_of-cut lo hi t (x ∷ xs) ys e f = ground (arith, state_of-cut lo hi t xs ys e f)

pub Distinct-insert :
    (new : Lock) (xs ys : List Lock)
    → has_addr new.addr (xs ++ ys) ≡ false
    → Distinct (xs ++ ys)
    → Distinct (xs ++ (new ∷ ys))
unfolding has_addr
Distinct-insert new [] ys h d = (h, d)
Distinct-insert new (x ∷ xs) ys h d = (
  ground (arith, has_addr-append x.addr xs (new ∷ ys), has_addr-append x.addr xs ys),
  Distinct-insert new xs ys (ground arith) d.1,
)

pub Distinct-front :
    (a : ℕ) (xs ys : List Lock) (n : Lock)
    → a ≡ n.addr
    → Distinct (xs ++ (n ∷ ys))
    → has_addr a xs ≡ false
unfolding has_addr
Distinct-front a xs ys n e d = Distinct-apart a xs (n ∷ ys) d (ground arith)

pub has_addr-middle :
    (a : ℕ) (xs ys : List Lock) (m n : Lock)
    → m.addr ≡ n.addr
    → has_addr a (xs ++ (m ∷ ys)) ≡ has_addr a (xs ++ (n ∷ ys))
unfolding has_addr
has_addr-middle a [] ys m n e = ground arith
has_addr-middle a (x ∷ xs) ys m n e = ground (arith, has_addr-middle a xs ys m n e)

pub has_addr-here :
    (xs ys : List Lock) (m n : Lock) → m.addr ≡ n.addr → has_addr n.addr (xs ++ (m ∷ ys)) ≡ true
unfolding has_addr
has_addr-here [] ys m n e = ground arith
has_addr-here (x ∷ xs) ys m n e = ground (arith, has_addr-here xs ys m n e)

-- The outcome of a cut at `ts` of the node `n`.
pub record Cut (root root' : Tree) (upper lower : List Lock) (n : Lock) (ts : ℕ) : Type 0 where
  pub new : Lock
  pub nodes : descending root' ≡ upper ++ (new ∷ with_interval n.start ts n ∷ lower)
  pub valid : IsValid root'
  pub same : (t : ℕ) → state_at t root' ≡ state_at t root

-- A node `n` of a valid tree that holds `ts` and times above it, and not time 0, is cut at `ts` into two
-- neighbours; the tree stays valid and every time keeps its status and transactions.
pub split_above-Cut :
    (root : Tree) (upper lower : List Lock) (n : Lock) (ts : ℕ)
    → IsValid root
    → descending root ≡ upper ++ (n ∷ lower)
    → n.start ≤ ts
    → ts < n.end
    → 0 < n.start
    → Cut root (split_above n.addr n ts root) upper lower n ts
unfolding split_above
split_above-Cut root upper lower n ts v s low high pos =
    let f = with_interval n.start ts in
    let c = subst (Covers 0 (2 ^ 64)) s v.covers in
    let d = subst Distinct s v.distinct in
    let g = subst (All IsGrounded) s v.grounded in
    let small = end-lt 0 (2 ^ 64) upper lower n c in
    let inc : inc64 ts ≡ ts + 1 = omega arith in
    let new = piece root n (inc64 ts) n.end in
    let root1 = modify n.addr f root in
    let nodes1 = descending-modify_one f root upper lower n s d in
    let d1 = modify_one-Distinct f upper lower n (λ m. refl) d in
    let front = Distinct-front n.addr upper lower n refl d in
    let fits : Fits n.addr new.start (descending root1) = rw nodes1 (
      Fits-here n (f n) (inc64 ts) 0 (2 ^ 64) upper lower c (omega arith) (omega arith) refl refl
        front) in
    let inserted =
      descending-insert_at n.addr new root1 (rw nodes1 d1)
        (rw nodes1 (has_addr-here upper lower (f n) n refl)) fits in
    let nodes : descending (insert_at n.addr new root1).0 ≡ upper ++ (new ∷ f n ∷ lower) =
      inserted
      ∙ ap (insert_above n.addr new) nodes1
      ∙ insert_above-here new (f n) upper lower front in
    let unused =
      has_addr-middle (fresh root) upper lower (f n) n refl
      ∙ subst (λ x. has_addr (fresh root) x ≡ false) s (has_addr-fresh root) in
    let above = All-left IsGrounded upper (n ∷ lower) g in
    let below = All-right IsGrounded upper (n ∷ lower) g in
    record {
      new = new;
      nodes = nodes;
      valid = record {
        covers = rw nodes (Covers-cut n new ts low high inc refl 0 (2 ^ 64) upper lower c);
        distinct = rw nodes (Distinct-insert new upper (f n ∷ lower) unused d1);
        grounded = rw nodes (
            All-append IsGrounded upper (new ∷ f n ∷ lower) above
              (inl (omega arith), (inl pos, below.1)));
        balanced =
            (insert_at-IsBalanced n.addr new root1 (modify-IsBalanced n.addr f root v.balanced)).0;
      };
      same = λ t.
          rw (nodes, s)
            (state_of-cut n new ts low high inc refl 0 (2 ^ 64) t upper lower refl refl);
    }
