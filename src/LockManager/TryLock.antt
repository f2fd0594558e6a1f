-- ===== src/LockManager/TryLock.antt =====
-- `tryLock` of src/AVLTreeLockManager.cc on the lock manager, for an interval that lies in one node.
use mvtx.Prelude.{
  ℕ, suc, ◌<◌, ◌≤◌, ◌^◌, ◌≡◌, refl, ap, sym, ◌∙◌, subst, Bool, true, false, inl, inr, none, some,
  List, [], ◌∷◌, ◌==◌, leb, ◌&&◌, arith, Bool-cases, none-some,
}
use mvtx.Prelude.Map
use mvtx.Prelude.Run.{Run, ok}
use mvtx.LockNode.{Lock}
use mvtx.LockNode.Descending.{descending}
use mvtx.LockManager.{
  LockManager, create_key_info, root_of, lock_range, set_root, add_transaction_lock, try_lock,
}
use mvtx.LockManager.Valid.{State, holder, state_of, state_at}
use mvtx.LockManager.Backward.{passes}
use mvtx.LockManager.Granted.{share}
use mvtx.LockManager.LockRange.{RangeLocked, lock_range-Ranged}
use mvtx.LockManager.Invariant.{
  IsValidManager, create_key_info-IsValidManager, create_key_info-there, set_root-IsValidManager,
  add_transaction_lock-keys, root_of-set_root, create_key_info-other, set_root-other,
}
use mvtx.LockManager.Ready.{
  IsReadyManager, create_key_info-transactions, set_root-transactions,
  add_transaction_lock-IsReadyManager,
}
use mvtx.LockManager.TryBackwardLock.{root_of-IsValid}
use mvtx.LockManager.Intervals.{
  events_of, Records, events_of-create_key_info, events_of-set_root, add_transaction_lock-Records,
}

-- The state of a time of the interval after a call with this result.
abbrev pub after : Bool → (is_read : Bool) → (tid : ℕ) → Lock → State
after true is_read tid n = share n.status is_read tid n.tids
after false is_read tid n = record { status = n.status; tids = n.tids }

pub record TryLocked (key tid first last : ℕ) (is_read : Bool) (m : LockManager) (n : Lock)
    (out : Run (Bool × LockManager)) : Type 0 where
  pub manager : LockManager
  pub runs : out ≡ ok (passes n.status is_read, manager)
  pub valid : IsValidManager manager
  pub ready : IsReadyManager m → IsReadyManager manager
  pub inside :
      (t : ℕ)
      → first ≤ t
      → t ≤ last
      → (state_at t (root_of key (create_key_info key m))
          ≡ some (record { status = n.status; tids = n.tids }))
        × (state_at t (root_of key manager) ≡ some (after (passes n.status is_read) is_read tid n))
  pub outside :
      (t : ℕ)
      → t < 2 ^ 64
      → (leb first t && leb t last) ≡ false
      → state_at t (root_of key manager) ≡ state_at t (root_of key (create_key_info key m))
  pub others : (k : ℕ) → (key == k) ≡ false → Map.find k manager.key_map ≡ Map.find k m.key_map
  pub events : events_of key manager.key_map ≡ events_of key m.key_map
  pub recorded :
      passes n.status is_read ≡ true
      → Records tid key first last m.transaction_map manager.transaction_map
  pub unrecorded : passes n.status is_read ≡ false → manager.transaction_map ≡ m.transaction_map

module _ (key tid first last : ℕ) (is_read : Bool) (m : LockManager) (n : Lock)
    (v : IsValidManager m) (pos : 0 < first) (small : last < 2 ^ 64) where
  granted :
      (fuel : ℕ)
      → passes n.status is_read ≡ true
      → RangeLocked
          (root_of key (create_key_info key m))
          is_read
          tid
          first
          last
          n
          (lock_range fuel tid first last is_read (root_of key (create_key_info key m)))
      → ((t : ℕ)
          → first ≤ t
          → t ≤ last
          → state_at t (root_of key (create_key_info key m))
            ≡ some (record { status = n.status; tids = n.tids }))
      → TryLocked key tid first last is_read m n (try_lock fuel key tid first last is_read m)
  unfolding try_lock
  granted fuel open_ r was =
      let m' = create_key_info key m in
      let m1 = add_transaction_lock tid key first last m' in
      let keys = add_transaction_lock-keys tid key first last m' in
      let (info, there) = create_key_info-there key m in
      let tree = root_of-set_root key r.root' m1 info (ap (Map.find key) keys ∙ there) in
      record {
        manager = set_root key r.root' m1;
        runs = rw (r.runs, open_) refl;
        valid =
            set_root-IsValidManager key r.root' m1
              (rw keys (create_key_info-IsValidManager key m v)) r.valid;
        ready = λ p. rw (set_root-transactions key r.root' m1) (
            add_transaction_lock-IsReadyManager tid key first last m'
              (rw (create_key_info-transactions key m) p) pos small);
        inside = λ t p q. (
          was t p q,
          ap (state_at t) tree
              ∙ r.inside t p q
              ∙ ap (λ b. some (after b is_read tid n)) (sym open_),
        );
        outside = λ t p q. ap (state_at t) tree ∙ r.outside t p q;
        others = λ k other.
            set_root-other key k other r.root' m1
            ∙ ap (Map.find k) keys
            ∙ create_key_info-other key k other m;
        events =
            events_of-set_root key r.root' m1
            ∙ ap (events_of key) keys
            ∙ events_of-create_key_info key m;
        recorded = λ yes_. rw (set_root-transactions key r.root' m1) (
            subst (λ x. Records tid key first last x m1.transaction_map)
              (create_key_info-transactions key m)
              (add_transaction_lock-Records tid key first last m'));
        unrecorded = λ no_. cc;
      }

  refused :
      (fuel : ℕ)
      → passes n.status is_read ≡ false
      → lock_range fuel tid first last is_read (root_of key (create_key_info key m)) ≡ ok none
      → ((t : ℕ)
          → first ≤ t
          → t ≤ last
          → state_at t (root_of key (create_key_info key m))
            ≡ some (record { status = n.status; tids = n.tids }))
      → TryLocked key tid first last is_read m n (try_lock fuel key tid first last is_read m)
  unfolding try_lock
  refused fuel closed e was = record {
    manager = create_key_info key m;
    runs = rw (e, closed) refl;
    valid = create_key_info-IsValidManager key m v;
    ready = λ p. rw (create_key_info-transactions key m) p;
    inside = λ t p q. (was t p q, was t p q ∙ ap (λ b. some (after b is_read tid n)) (sym closed));
    outside = λ t p q. refl;
    others = λ k other. create_key_info-other key k other m;
    events = events_of-create_key_info key m;
    recorded = λ yes_. cc;
    unrecorded = λ no_. create_key_info-transactions key m;
  }

-- The lock that holds a time holds the times from its start to that time.
holder-between :
    (t last : ℕ) (d : List Lock) (n : Lock)
    → holder last d ≡ some n
    → n.start ≤ t
    → t ≤ last
    → holder t d ≡ some n
holder-between t last [] n e p q = absurd (none-some n e)
holder-between t last (x ∷ d) n e p q = elim (Bool-cases (leb x.start last)) [
  | inl here ↦
      let same : x ≡ n = (let e' = rw here at e in cc) in
      let now : leb x.start t ≡ true =
        subst (λ (y : Lock). leb y.start t ≡ true) (sym same) (ground arith) in
      rw now (ap some same)
  | inr later ↦
      let later' : leb x.start t ≡ false = ground arith in
      rw later' (holder-between t last d n (rw later at e) p q)
]

-- If the trees of all keys are valid, a call of `tryLock`, new key or not, for an interval that starts after
-- 0, ends below 2^64 and lies in one node of the tree of the key, returns. It succeeds if and only if the
-- status of the node may be shared, and then the times of the interval are shared with the
-- transaction, or stay frozen for reads; if it fails they are as they were. Every other time and the
-- other keys are as they were, with the events that wait at all keys, all trees are valid, and the recorded
-- intervals stay in range. If it succeeds, the interval that is recorded for the transaction at the key holds
-- what it held and the interval of the call, and no other recorded interval changes; if it fails, none does.
pub try_lock-TryLocked :
    (fuel key tid first last : ℕ) (is_read : Bool) (m : LockManager) (n : Lock)
    → IsValidManager m
    → holder last (descending (root_of key (create_key_info key m))) ≡ some n
    → n.start ≤ first
    → 0 < first
    → first ≤ last
    → last < 2 ^ 64
    → TryLocked key tid first last is_read m n (try_lock (suc fuel) key tid first last is_read m)
try_lock-TryLocked fuel key tid first last is_read m n v held low pos le small =
    let root = root_of key (create_key_info key m) in
    let was : (t : ℕ)
        → first ≤ t
        → t ≤ last
        → state_at t root ≡ some (record { status = n.status; tids = n.tids }) =
      λ t p q.
        ap state_of (holder-between t last (descending root) n held (omega (arith, low, p)) q) in
    elim (lock_range-Ranged fuel root is_read tid first last n (root_of-IsValid key m v) held low
      pos le small) [
        | inl (closed, e) ↦
            refused key tid first last is_read m n v pos small (suc fuel) closed e was
        | inr (open_, r) ↦ granted key tid first last is_read m n v pos small (suc fuel) open_ r was
      ]
