-- ===== src/LockManager/Claim.antt =====
-- The second pass of `tryLock` in src/AVLTreeLockManager.cc on one node: the interval is cut out of the
-- node and locked.
use mvtx.Prelude.{
  ℕ, ◌<◌, ◌≤◌, ◌^◌, ◌≡◌, refl, ap, sym, ◌∙◌, subst, Bool, false, inl, inr, some, List, [], ◌∷◌,
  ◌++◌, arith, All, All-append, All-left, All-right, Bool-cases, ltb, leb, ◌&&◌, append_assoc,
}
use mvtx.Prelude.Set
use mvtx.Prelude.Run.{Run, ok}
use mvtx.LockNode.{Lock, Tree, node, get, modify, find}
use mvtx.LockNode.Balance.{modify-IsBalanced}
use mvtx.LockNode.Descending.{descending, Distinct}
use mvtx.LockNode.Find.{PathTo, entry, bottom, Covers, Within-self, find-Found}
use mvtx.LockManager.Valid.{IsGrounded, IsValid, holder, holder-eq, state_of, state_at}
use mvtx.LockManager.{
  with_interval, requested, split_below, split_above, cut_below, cut_above, claim,
}
use mvtx.LockManager.Backward.{descending-modify_one, modify_one-Distinct}
use mvtx.LockManager.Split.{split_above-Cut}
use mvtx.LockManager.SplitBelow.{split_below-CutBelow}

-- The node that a pointer leads to.
pub record NodeAt (root : Tree) (n : Lock) : Type 0 where
  pub lh : ℕ
  pub rh : ℕ
  pub l : Tree
  pub r : Tree
  pub at : get n.addr root ≡ some (node n lh rh l r)

first_node :
    (root : Tree) (locks : List ℕ) (d tail : List Lock) (n : Lock)
    → PathTo root locks d
    → d ≡ n ∷ tail
    → NodeAt root n
first_node root [] d tail n bottom e = cc
first_node root locks d tail n (entry {n = m} {lh} {rh} {a} {l} {r} at here w split p) e =
    let same : m ≡ n = (let e' = sym split ∙ e in cc) in
    let at' = subst (λ x. get x root ≡ some (node m lh rh l r)) here at in
    subst (NodeAt root) same (record { lh = lh; rh = rh; l = l; r = r; at = at' })

pub some_injective : (m n : Lock) → some m ≡ some n → m ≡ n
some_injective m n e = cc

pub node_at :
    (root : Tree) (upper lower : List Lock) (n : Lock)
    → IsValid root
    → descending root ≡ upper ++ (n ∷ lower)
    → n.start ≤ n.end
    → n.start < 2 ^ 64
    → NodeAt root n
node_at root upper lower n v s le small =
    let f =
      find-Found root root 0 (2 ^ 64) n.start [] [] (Within-self root v.distinct) v.covers
        (omega arith) small bottom in
    let held : holder n.start (descending root) ≡ some f.hit = rw f.split (
      holder-eq n.start 0 (2 ^ 64) f.upper f.lower f.hit
        (subst (Covers 0 (2 ^ 64)) f.split v.covers) f.starts f.ends) in
    let mine : holder n.start (descending root) ≡ some n = rw s (
      holder-eq n.start 0 (2 ^ 64) upper lower n (subst (Covers 0 (2 ^ 64)) s v.covers)
        (omega arith) le) in
    let same = some_injective f.hit n (sym held ∙ mine) in
    subst (NodeAt root) same (
      first_node root (find root n.start []) (f.hit ∷ (f.lower ++ [])) (f.lower ++ []) f.hit f.path
        refl)

-- A node that has been cut to an interval, with every time as it was.
pub record Part (root : Tree) (n : Lock) (first last : ℕ) (out : Run Tree) : Type 0 where
  pub root' : Tree
  pub upper : List Lock
  pub lower : List Lock
  pub runs : out ≡ ok root'
  pub nodes : descending root' ≡ upper ++ (with_interval first last n ∷ lower)
  pub valid : IsValid root'
  pub same : (t : ℕ) → state_at t root' ≡ state_at t root

module _ (root : Tree) (upper lower : List Lock) (n : Lock) (v : IsValid root)
    (s : descending root ≡ upper ++ (n ∷ lower)) (pos : 0 < n.start) (small : n.end < 2 ^ 64) where
  cut_below-Part :
      (first : ℕ)
      → n.start ≤ first
      → first ≤ n.end
      → Part root n first n.end (cut_below n.addr first root)
  unfolding cut_below
  cut_below-Part first low high =
      let at = node_at root upper lower n v s (omega arith) (omega arith) in
      elim (Bool-cases (ltb n.start first)) [
        | inl lt ↦
            let c = split_below-CutBelow root upper lower n first v s (ground arith) high pos in
            record {
              root' = split_below n.addr n first root;
              upper = upper;
              lower = c.new ∷ lower;
              runs = rw (at.at, cut_below) (rw lt refl);
              nodes = c.nodes;
              valid = c.valid;
              same = c.same;
            }
        | inr ge ↦
            let eq : n.start ≡ first = ground arith in
            record {
              root' = root;
              upper = upper;
              lower = lower;
              runs = rw (at.at, cut_below) (rw ge refl);
              nodes =
                  subst (λ x. descending root ≡ upper ++ (with_interval x n.end n ∷ lower)) eq s;
              valid = v;
              same = λ t. refl;
            }
      ]

  cut_above-Part :
      (last : ℕ)
      → n.start ≤ last
      → last ≤ n.end
      → Part root n n.start last (cut_above n.addr last root)
  unfolding cut_above
  cut_above-Part last low high =
      let at = node_at root upper lower n v s (omega arith) (omega arith) in
      elim (Bool-cases (ltb last n.end)) [
        | inl lt ↦
            let c = split_above-Cut root upper lower n last v s low (ground arith) pos in
            record {
              root' = split_above n.addr n last root;
              upper = upper ++ (c.new ∷ []);
              lower = lower;
              runs = rw (at.at, cut_above) (rw lt refl);
              nodes =
                  c.nodes
                  ∙ sym (append_assoc upper (c.new ∷ []) (with_interval n.start last n ∷ lower));
              valid = c.valid;
              same = c.same;
            }
        | inr ge ↦
            let eq : n.end ≡ last = ground arith in
            record {
              root' = root;
              upper = upper;
              lower = lower;
              runs = rw (at.at, cut_above) (rw ge refl);
              nodes =
                  subst (λ x. descending root ≡ upper ++ (with_interval n.start x n ∷ lower)) eq s;
              valid = v;
              same = λ t. refl;
            }
      ]

-- A node whose status and transactions are written.
module _ (root : Tree) (upper lower : List Lock) (n m : Lock) (v : IsValid root)
    (s : descending root ≡ upper ++ (n ∷ lower)) (start : m.start ≡ n.start)
    (end : m.end ≡ n.end) where
  Covers-write :
      (lo hi : ℕ) (xs ys : List Lock)
      → Covers lo hi (xs ++ (n ∷ ys))
      → Covers lo hi (xs ++ (m ∷ ys))
  Covers-write lo hi [] ys c = rw (start, end) c
  Covers-write lo hi (x ∷ xs) ys c = (c.0, c.1, Covers-write lo x.start xs ys c.2)

  holder-write :
      (t lo hi : ℕ) (xs ys : List Lock)
      → Covers lo hi (xs ++ (n ∷ ys))
      → t < hi
      → (leb n.start t && leb t n.end) ≡ false
      → holder t (xs ++ (m ∷ ys)) ≡ holder t (xs ++ (n ∷ ys))
  holder-write t lo hi [] ys c p q =
      let later : leb n.start t ≡ false = ground arith in
      let later' : leb m.start t ≡ false = ap (λ x. leb x t) start ∙ later in
      rw (later, later') refl
  holder-write t lo hi (x ∷ xs) ys c p q = elim (Bool-cases (leb x.start t)) [
    | inl here ↦ rw here refl
    | inr later ↦ rw later (holder-write t lo x.start xs ys c.2 (ground arith) q)
  ]

-- The interval has the requested lock; every other time is as it was.
pub record Claimed (root : Tree) (is_read : Bool) (tid first last : ℕ) (n : Lock) (out : Run Tree)
    : Type 0 where
  pub root' : Tree
  pub runs : out ≡ ok root'
  pub valid : IsValid root'
  pub inside :
      (t : ℕ)
      → first ≤ t
      → t ≤ last
      → state_at t root'
        ≡ some (record { status = requested is_read; tids = Set.insert tid n.tids })
  pub outside :
      (t : ℕ)
      → t < 2 ^ 64
      → (leb first t && leb t last) ≡ false
      → state_at t root' ≡ state_at t root

pub claim-Claimed :
    (root : Tree) (upper lower : List Lock) (n : Lock) (is_read : Bool) (tid first last : ℕ)
    → IsValid root
    → descending root ≡ upper ++ (n ∷ lower)
    → 0 < n.start
    → n.end < 2 ^ 64
    → n.start ≤ first
    → first ≤ last
    → last ≤ n.end
    → Claimed root is_read tid first last n (claim is_read tid first last n.addr root)
unfolding claim
claim-Claimed root upper lower n is_read tid first last v s pos small low le high =
    let p1 = cut_below-Part root upper lower n v s pos small first low (omega arith) in
    let p2 =
      cut_above-Part p1.root' p1.upper p1.lower (with_interval first n.end n) p1.valid p1.nodes
        (omega arith) small last le high in
    let m = with_interval first last n in
    let f : Lock → Lock =
      λ x. record x { status = requested is_read; tids = Set.insert tid x.tids } in
    let root' = modify n.addr f p2.root' in
    let c = subst (Covers 0 (2 ^ 64)) p2.nodes p2.valid.covers in
    let d = subst Distinct p2.nodes p2.valid.distinct in
    let g = subst (All IsGrounded) p2.nodes p2.valid.grounded in
    let nodes : descending root' ≡ p2.upper ++ (f m ∷ p2.lower) =
      descending-modify_one f p2.root' p2.upper p2.lower m p2.nodes d in
    let covers =
      Covers-write p2.root' p2.upper p2.lower m (f m) p2.valid p2.nodes refl refl 0 (2 ^ 64)
        p2.upper p2.lower c in
    let positive : 0 < first = omega arith in
    record {
      root' = root';
      runs = rw (p1.runs, p2.runs) refl;
      valid = record {
        covers = rw nodes covers;
        distinct = rw nodes (modify_one-Distinct f p2.upper p2.lower m (λ x. refl) d);
        grounded = rw nodes (
            All-append IsGrounded p2.upper (f m ∷ p2.lower)
              (All-left IsGrounded p2.upper (m ∷ p2.lower) g)
              (inl positive, (All-right IsGrounded p2.upper (m ∷ p2.lower) g).1));
        balanced = modify-IsBalanced n.addr f p2.root' p2.valid.balanced;
      };
      inside = λ t p q.
          rw nodes (ap state_of (holder-eq t 0 (2 ^ 64) p2.upper p2.lower (f m) covers p q));
      outside = λ t p q.
          rw nodes (
            ap state_of (
              holder-write p2.root' p2.upper p2.lower m (f m) p2.valid p2.nodes refl refl t 0
                (2 ^ 64) p2.upper p2.lower c p q))
          ∙ ap (λ x. state_of (holder t x)) (sym p2.nodes)
          ∙ p2.same t
          ∙ p1.same t;
    }
