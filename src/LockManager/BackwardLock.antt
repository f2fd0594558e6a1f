-- ===== src/LockManager/BackwardLock.antt =====
-- `tryBackwardLock` of src/AVLTreeLockManager.cc on the tree of a key, as a contract on times.
use mvtx.Prelude.{
  ℕ, suc, ◌<◌, ◌≤◌, ◌^◌, ◌≡◌, refl, ap, sym, ◌∙◌, subst, Bool, true, false, inl, inr, Option, none,
  some, List, ◌∷◌, ◌++◌, Bool-cases, arith, All, All-right, if◌then◌else◌, length, length-append,
}
use native.Mathlib.Decide.{dec_lt}
use mvtx.Prelude.Run.{Run, ok}
use mvtx.LockNode.{
  LockStatus, free, read_lock, write_lock, freeze_read_lock, freeze_write_lock, Lock, Tree, size,
}
use mvtx.LockNode.Descending.{Distinct}
use mvtx.LockNode.Find.{Covers, Covers-split, length-descending}
use mvtx.LockManager.{Walk, lock_backward, is_available}
use mvtx.LockManager.Valid.{
  IsGrounded, IsValid, State, state_of, state_at, holder, holder-above, holder-below,
}
use mvtx.LockManager.Backward.{passes, shared, walked, reached, waits, is_held, Holds, walk-Walked}
use mvtx.LockManager.Prepare.{prepare_walk-Prepared}
use mvtx.LockManager.Granted.{share, walked-Covers, walked-Distinct, walked-IsGrounded}
use mvtx.LockManager.Times.{reached-le, walk-Stop, walk-Grant, walk-below}

-- The walk ends without an error at a time `r` that is at most `ts_end`. The times above `r` are
-- granted, up to `ts_end`, and nothing else changes; the lock of time `r` stops the walk.
pub record BackwardLocked (root : Tree) (is_read : Bool) (tid ts_end : ℕ) (out : Run Walk)
    : Type 0 where
  pub root' : Tree
  pub r : ℕ
  pub waits_for : Option ℕ
  pub runs :
      out
      ≡ ok (record {
        root = root';
        cur_ts = r;
        waits_for = waits_for;
        recorded = true;
        failed = false;
      })
  pub valid : IsValid root'
  pub bounded : r ≤ ts_end
  pub stop : Lock
  pub stopped : state_at r root ≡ some (record { status = stop.status; tids = stop.tids })
  pub closed : passes stop.status is_read ≡ false
  pub waiting : waits_for ≡ (if is_held stop.status then some stop.end else none)
  pub above : (t : ℕ) → ts_end < t → t < 2 ^ 64 → state_at t root' ≡ state_at t root
  pub below : (t : ℕ) → t ≤ r → state_at t root' ≡ state_at t root
  pub granted :
      (t : ℕ)
      → r < t
      → t ≤ ts_end
      → (s : State) × (state_at t root ≡ some s)
        × (passes s.status is_read ≡ true)
        × (state_at t root' ≡ some (share s.status is_read tid s.tids))

-- A node that the walk passes but may not change is frozen.
shared-frozen :
    (s : LockStatus) (is_read : Bool) (tid : ℕ) (n : Lock)
    → passes s is_read ≡ true
    → is_available s is_read ≡ false
    → shared s is_read tid n ≡ n
unfolding is_available
shared-frozen free is_read tid n p h = cc
shared-frozen read_lock is_read tid n p h = cc
shared-frozen write_lock is_read tid n p h = refl
shared-frozen freeze_read_lock is_read tid n p h = refl
shared-frozen freeze_write_lock is_read tid n p h = refl

holder-first : (t : ℕ) (n : Lock) (ls : List Lock) → n.start ≤ t → holder t (n ∷ ls) ≡ some n
holder-first t n ls p = ground arith

-- Above the time where the walk starts nothing changes, if the first node was cut there.
walk-above :
    (is_read : Bool) (tid ts t : ℕ) (n : Lock) (d : List Lock)
    → n.start ≤ ts
    → ts < t
    → t ≤ n.end
    → (is_available n.status is_read ≡ true → n.end ≡ ts)
    → state_of (holder t (walked is_read tid (n ∷ d))) ≡ state_of (holder t (n ∷ d))
walk-above is_read tid ts t n d low p q tight = elim (Bool-cases (passes n.status is_read)) [
  | inr stop ↦ rw stop refl
  | inl go ↦ elim (Bool-cases (is_available n.status is_read)) [
    | inl open_ ↦ absurd (omega (arith, tight open_))
    | inr frozen ↦
        rw
          (
            go,
            shared-frozen n.status is_read tid n go frozen,
            holder-first t n (walked is_read tid d) (omega arith),
            holder-first t n d (omega arith),
          )
          refl
  ]
]

-- The same with the nodes above in place.
state-above :
    (is_read : Bool) (tid ts t mid : ℕ) (upper : List Lock) (n : Lock) (d : List Lock)
    → Covers mid (2 ^ 64) upper
    → Covers 0 mid (n ∷ d)
    → n.start ≤ ts
    → ts < t
    → t < 2 ^ 64
    → (is_available n.status is_read ≡ true → n.end ≡ ts)
    → state_of (holder t (upper ++ walked is_read tid (n ∷ d)))
      ≡ state_of (holder t (upper ++ (n ∷ d)))
state-above is_read tid ts t mid upper n d above c low q small tight =
    let d' = walked is_read tid (n ∷ d) in
    elim (dec_lt t mid) [
      | yes p ↦
          ap state_of (holder-above t mid (2 ^ 64) upper d' above p)
          ∙ walk-above is_read tid ts t n d low q (omega (arith, c.0)) tight
          ∙ ap state_of (sym (holder-above t mid (2 ^ 64) upper (n ∷ d) above p))
      | no p ↦ ap state_of (
          holder-below t mid (2 ^ 64) upper d' above (omega arith) small
          ∙ sym (holder-below t mid (2 ^ 64) upper (n ∷ d) above (omega arith) small))
    ]

length-lower : (upper d : List Lock) → length d ≤ length (upper ++ d)
length-lower upper d = omega (arith, length-append upper d)

-- On a valid tree and for `ts_end` below 2^64 the part of `tryBackwardLock` that works on the tree ends
-- with no error at some `r` that is at most `ts_end`, and leaves a valid tree. Each time above `r` and up
-- to `ts_end` could be shared and is shared with the transaction; every other time keeps its status and
-- transactions; the lock of time `r` could not be shared, and its end is waited for if and only if
-- it is not frozen.
pub lock_backward-BackwardLocked :
    (root : Tree) (is_read : Bool) (tid ts_end : ℕ)
    → IsValid root
    → ts_end < 2 ^ 64
    → BackwardLocked root is_read tid ts_end (lock_backward is_read tid ts_end root)
unfolding lock_backward
lock_backward-BackwardLocked root is_read tid ts v small =
    let p = prepare_walk-Prepared root is_read ts v small in
    let d = p.hit ∷ p.lower in
    let covers = subst (Covers 0 (2 ^ 64)) p.nodes p.valid.covers in
    let distinct = subst Distinct p.nodes p.valid.distinct in
    let grounded = subst (All IsGrounded) p.nodes p.valid.grounded in
    let (mid, upper, lower) = Covers-split 0 (2 ^ 64) p.upper d covers in
    let g = All-right IsGrounded p.upper d grounded in
    let holds : Holds ts d = (p.low, p.high) in
    let r = reached is_read d ts in
    let le = reached-le is_read ts mid d lower g holds in
    let w =
      walk-Walked (suc (size p.root')) is_read tid ts mid p.root' p.locks p.upper d p.path p.nodes
        distinct lower g holds small
        (omega (arith, length-lower p.upper d, ap length p.nodes, length-descending p.root')) in
    let s = walk-Stop is_read ts mid d lower g holds in
    let of : (t : ℕ) → List Lock → Option State = λ t ls. state_of (holder t ls) in
    let mid_end : ts < mid = omega (arith, lower.0, p.high) in
    let low_part : (t : ℕ) → t < mid → (ls : List Lock) → of t (p.upper ++ ls) ≡ of t ls =
      λ t q ls. ap state_of (holder-above t mid (2 ^ 64) p.upper ls upper q) in
    let before : (t : ℕ) → state_at t root ≡ of t (p.upper ++ d) =
      λ t. sym (p.same t) ∙ ap (of t) p.nodes in
    let after : (t : ℕ) → state_at t w.root' ≡ of t (p.upper ++ walked is_read tid d) =
      λ t. ap (of t) w.nodes in
    record {
      root' = w.root';
      r = r;
      waits_for = waits is_read d;
      runs = rw p.runs w.runs;
      valid = record {
        covers = rw w.nodes (walked-Covers is_read tid 0 (2 ^ 64) p.upper d covers);
        distinct = rw w.nodes (walked-Distinct is_read tid p.upper d distinct);
        grounded = rw w.nodes (walked-IsGrounded is_read tid p.upper d grounded);
        balanced = w.balanced p.valid.balanced;
      };
      bounded = le;
      stop = s.at;
      stopped = before r ∙ low_part r (omega arith) d ∙ ap state_of s.held;
      closed = s.closed;
      waiting = s.waiting;
      above = λ t q lt.
          after t
          ∙ state-above is_read tid ts t mid p.upper p.hit p.lower upper lower p.low q lt p.tight
          ∙ sym (before t);
      below = λ t q.
          after t
          ∙ low_part t (omega arith) (walked is_read tid d)
          ∙ walk-below is_read tid ts mid t d lower g holds q
          ∙ sym (low_part t (omega arith) d)
          ∙ sym (before t);
      granted = λ t q top.
          let e = walk-Grant is_read tid ts mid t d lower g holds top q in
          (
            record { status = e.at.status; tids = e.at.tids },
            before t ∙ low_part t (omega arith) d ∙ ap state_of e.held,
            e.open_,
            after t ∙ low_part t (omega arith) (walked is_read tid d) ∙ e.now,
          );
    }
