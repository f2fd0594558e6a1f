-- ===== src/LockManager/LockRange.antt =====
-- `tryLock` of src/AVLTreeLockManager.cc on the tree of a key, for an interval that lies in one node.
use mvtx.Prelude.{
  ℕ, suc, ◌<◌, ◌≤◌, ◌^◌, ◌≡◌, refl, ap, sym, ◌∙◌, subst, Bool, true, false, ◌⊎◌, inl, inr, Option,
  none, some, List, [], ◌∷◌, ◌++◌, arith, All, All-right, ltb, le→ltb, if◌then◌else◌, leb, ◌&&◌,
}
use mvtx.Prelude.Set
use mvtx.Prelude.Run.{Run, ok}
use mvtx.LockNode.{
  LockStatus, free, read_lock, write_lock, freeze_read_lock, freeze_write_lock, Lock, Tree, node,
  get, find,
}
use mvtx.LockNode.Descending.{descending}
use mvtx.LockNode.Find.{PathTo, entry, bottom, Covers, Within-self, find-Found}
use mvtx.LockManager.Valid.{IsGrounded, IsValid, holder, holder-eq, state_of, state_at, end-lt}
use mvtx.LockManager.{requested, scan, claim_all, lock_range}
use mvtx.LockManager.Backward.{passes}
use mvtx.LockManager.Granted.{share}
use mvtx.LockManager.Claim.{claim-Claimed, some_injective}

-- What the first pass finds at a node that holds the whole interval.
abbrev scanned : LockStatus → Bool → ℕ → Option (List ℕ)
scanned free is_read a = some (a ∷ [])
scanned read_lock is_read a = if is_read then some (a ∷ []) else none
scanned write_lock is_read a = none
scanned freeze_read_lock is_read a = if is_read then some [] else none
scanned freeze_write_lock is_read a = none

module _ (fuel first : ℕ) (root : Tree) (a : ℕ) (locks : List ℕ) (n : Lock) (lh rh : ℕ) (l r : Tree)
    (at : get a root ≡ some (node n lh rh l r)) (low : ltb first n.start ≡ false) where
  scan-stop :
      (s : LockStatus) (is_read : Bool)
      → n.status ≡ s
      → scan (suc fuel) is_read first root (a ∷ locks) [] ≡ ok (scanned s is_read a)
  unfolding scan
  scan-stop free is_read e = rw (at, scan, e, low) refl
  scan-stop read_lock true e = rw (at, scan, e, low) refl
  scan-stop read_lock false e = rw (at, scan, e) refl
  scan-stop write_lock is_read e = rw (at, scan, e) refl
  scan-stop freeze_read_lock true e = rw (at, scan, e, low) refl
  scan-stop freeze_read_lock false e = rw (at, scan, e) refl
  scan-stop freeze_write_lock is_read e = rw (at, scan, e) refl

scan-hit :
    (fuel first : ℕ) (is_read : Bool) (root : Tree) (locks : List ℕ) (d tail : List Lock) (n : Lock)
    → PathTo root locks d
    → d ≡ n ∷ tail
    → n.start ≤ first
    → scan (suc fuel) is_read first root locks [] ≡ ok (scanned n.status is_read n.addr)
scan-hit fuel first is_read root locks d tail n bottom e low = cc
scan-hit fuel first is_read root locks d tail n
      (entry {n = m} {lh} {rh} {a} {l} {r} {locks = rest} at here w split p) e low =
    let same : m ≡ n = (let e' = sym split ∙ e in cc) in
    let found =
      scan-stop fuel first root a rest m lh rh l r at
        (le→ltb first m.start (subst (λ (x : Lock). x.start ≤ first) (sym same) low)) m.status
        is_read refl in
    found
    ∙ ap (λ x. ok (scanned m.status is_read x)) here
    ∙ ap (λ (x : Lock). ok (scanned x.status is_read x.addr)) same

-- The outcome for an interval in the node `n`.
pub record RangeLocked (root : Tree) (is_read : Bool) (tid first last : ℕ) (n : Lock)
    (out : Run (Option Tree)) : Type 0 where
  pub root' : Tree
  pub runs : out ≡ ok (some root')
  pub valid : IsValid root'
  pub inside :
      (t : ℕ) → first ≤ t → t ≤ last → state_at t root' ≡ some (share n.status is_read tid n.tids)
  pub outside :
      (t : ℕ)
      → t < 2 ^ 64
      → (leb first t && leb t last) ≡ false
      → state_at t root' ≡ state_at t root

abbrev pub Ranged : Tree → Bool → (tid first last : ℕ) → Lock → Run (Option Tree) → Type 0
Ranged root is_read tid first last n out =
    ((passes n.status is_read ≡ false) × (out ≡ ok none))
    ⊎ ((passes n.status is_read ≡ true) × RangeLocked root is_read tid first last n out)

module _ (root : Tree) (upper lower : List Lock) (n : Lock) (tid first last : ℕ) (v : IsValid root)
    (s : descending root ≡ upper ++ (n ∷ lower)) (pos : 0 < n.start) (small : n.end < 2 ^ 64)
    (low : n.start ≤ first) (le : first ≤ last) (high : last ≤ n.end) where
  range_state :
      (t : ℕ)
      → first ≤ t
      → t ≤ last
      → state_at t root ≡ some (record { status = n.status; tids = n.tids })
  range_state t p q = rw s (
      ap state_of (
        holder-eq t 0 (2 ^ 64) upper lower n (subst (Covers 0 (2 ^ 64)) s v.covers) (omega arith)
          (omega arith)))

  lock_available :
      (fuel : ℕ) (is_read : Bool)
      → scan fuel is_read first root (find root last []) [] ≡ ok (some (n.addr ∷ []))
      → share n.status is_read tid n.tids
        ≡ record { status = requested is_read; tids = Set.insert tid n.tids }
      → RangeLocked root is_read tid first last n (lock_range fuel tid first last is_read root)
  unfolding lock_range claim_all
  lock_available fuel is_read e same =
      let c = claim-Claimed root upper lower n is_read tid first last v s pos small low le high in
      record {
        root' = c.root';
        runs = rw (e, lock_range) (rw c.runs refl);
        valid = c.valid;
        inside = λ t p q. c.inside t p q ∙ ap some (sym same);
        outside = c.outside;
      }

  -- The frozen nodes that readers may share stay as they are.
  lock_frozen :
      (fuel : ℕ)
      → scan fuel true first root (find root last []) [] ≡ ok (some [])
      → n.status ≡ freeze_read_lock
      → RangeLocked root true tid first last n (lock_range fuel tid first last true root)
  unfolding lock_range claim_all
  lock_frozen fuel e frozen = record {
    root' = root;
    runs = rw (e, lock_range) refl;
    valid = v;
    inside = λ t p q. range_state t p q ∙ rw frozen refl;
    outside = λ t p q. refl;
  }

  ranged :
      (st : LockStatus) (fuel : ℕ) (is_read : Bool)
      → n.status ≡ st
      → scan fuel is_read first root (find root last []) [] ≡ ok (scanned st is_read n.addr)
      → Ranged root is_read tid first last n (lock_range fuel tid first last is_read root)
  unfolding lock_range
  ranged free fuel is_read e sc = inr (rw e refl, lock_available fuel is_read sc (rw e refl))
  ranged read_lock fuel true e sc = inr (rw e refl, lock_available fuel true sc (rw e refl))
  ranged read_lock fuel false e sc = inl (rw e refl, rw (sc, lock_range) refl)
  ranged write_lock fuel is_read e sc = inl (rw e refl, rw (sc, lock_range) refl)
  ranged freeze_read_lock fuel true e sc = inr (rw e refl, lock_frozen fuel sc e)
  ranged freeze_read_lock fuel false e sc = inl (rw e refl, rw (sc, lock_range) refl)
  ranged freeze_write_lock fuel is_read e sc = inl (rw e refl, rw (sc, lock_range) refl)

-- `tryLock` on a valid tree, for an interval [first, last] that starts after 0 and lies in the node `n`:
-- with one round it ends without a fault. If the status of `n` may not be shared it does nothing. Otherwise
-- it succeeds and the tree stays valid: the times of the interval are shared with the transaction, or stay
-- frozen for reads, and every other time is as it was.
pub lock_range-Ranged :
    (fuel : ℕ) (root : Tree) (is_read : Bool) (tid first last : ℕ) (n : Lock)
    → IsValid root
    → holder last (descending root) ≡ some n
    → n.start ≤ first
    → 0 < first
    → first ≤ last
    → last < 2 ^ 64
    → Ranged root is_read tid first last n (lock_range (suc fuel) tid first last is_read root)
lock_range-Ranged fuel root is_read tid first last n v held low pos le small =
    let f =
      find-Found root root 0 (2 ^ 64) last [] [] (Within-self root v.distinct) v.covers
        (omega arith) small bottom in
    let c = subst (Covers 0 (2 ^ 64)) f.split v.covers in
    let same : f.hit ≡ n = some_injective f.hit n (
      sym (
        ap (holder last) f.split
        ∙ holder-eq last 0 (2 ^ 64) f.upper f.lower f.hit c f.starts f.ends)
      ∙ held) in
    let s = subst (λ x. descending root ≡ f.upper ++ (x ∷ f.lower)) same f.split in
    let g =
      (All-right IsGrounded f.upper (f.hit ∷ f.lower)
        (subst (All IsGrounded) f.split v.grounded)).0 in
    let above : 0 < f.hit.start = elim g [
      | inl h ↦ h
      | inr h ↦ absurd (omega (arith, h.1, f.ends, pos, le))
    ] in
    let end = end-lt 0 (2 ^ 64) f.upper f.lower f.hit c in
    let high = f.ends in
    ranged root f.upper f.lower n tid first last v s (subst (λ (x : Lock). 0 < x.start) same above)
      (subst (λ (x : Lock). x.end < 2 ^ 64) same end) low le
      (subst (λ (x : Lock). last ≤ x.end) same high) n.status (suc fuel) is_read refl
      (scan-hit fuel first is_read root (find root last []) (f.hit ∷ (f.lower ++ []))
        (f.lower ++ []) n f.path (ap (λ x. x ∷ (f.lower ++ [])) same) low)
