-- ===== src/LockManager/TryBackwardLock.antt =====
-- `tryBackwardLock` of src/AVLTreeLockManager.cc on the lock manager.
use mvtx.Prelude.{
  ℕ, ◌+◌, ◌<◌, ◌≤◌, ◌^◌, ◌≡◌, refl, ap, ◌∙◌, Bool, true, false, Option, none, some, inc64, arith,
  ◌==◌,
}
use mvtx.Prelude.Map
use mvtx.Prelude.Run.{Run, ok}
use mvtx.LockNode.{Tree}
use mvtx.LockManager.{
  KeyInfo, LockManager, Walk, Locked, create_key_info, root_of, lock_backward, finish_walk,
  try_backward_lock, add_event, add_transaction_lock,
}
use mvtx.LockManager.Valid.{IsValid}
use mvtx.LockManager.BackwardLock.{BackwardLocked, lock_backward-BackwardLocked}
use mvtx.LockManager.Ready.{
  IsReadyManager, create_key_info-transactions, add_event-transactions, set_root-transactions,
  add_transaction_lock-IsReadyManager,
}
use mvtx.LockManager.Invariant.{
  IsValidManager, create_key_info-IsValidManager, create_key_info-there, add_event-IsValidManager,
  set_root-IsValidManager, add_transaction_lock-keys, add_event-there, root_of-set_root,
  create_key_info-other, add_event-other, set_root-other,
}

pub root_of-IsValid :
    (key : ℕ) (m : LockManager) → IsValidManager m → IsValid (root_of key (create_key_info key m))
unfolding root_of
root_of-IsValid key m v =
    let (info, here) = create_key_info-there key m in
    rw (here, root_of) (create_key_info-IsValidManager key m v key info here)

finish_walk-IsValidManager :
    (key tid ts_end event : ℕ) (root root' : Tree) (r : ℕ) (waits_for : Option ℕ) (m : LockManager)
    → IsValidManager m
    → IsValid root'
    → IsValidManager
        (finish_walk key tid ts_end event root
          (record {
            root = root';
            cur_ts = r;
            waits_for = waits_for;
            recorded = true;
            failed = false;
          })
          m).manager
unfolding finish_walk
finish_walk-IsValidManager key tid ts_end event root root' r none m v w =
    set_root-IsValidManager key root' (add_transaction_lock tid key (inc64 r) ts_end m)
      (rw (add_transaction_lock-keys tid key (inc64 r) ts_end m) v) w
finish_walk-IsValidManager key tid ts_end event root root' r (some end) m v w =
    let m1 = add_event key end event m in
    set_root-IsValidManager key root' (add_transaction_lock tid key (inc64 r) ts_end m1)
      (rw (add_transaction_lock-keys tid key (inc64 r) ts_end m1)
        (add_event-IsValidManager key end event m v))
      w

finish_walk-res :
    (key tid ts_end event : ℕ) (root root' : Tree) (r : ℕ) (waits_for : Option ℕ) (m : LockManager)
    → let out =
        finish_walk key tid ts_end event root
          (record {
            root = root';
            cur_ts = r;
            waits_for = waits_for;
            recorded = true;
            failed = false;
          })
          m in
      (out.ts_start ≡ some (inc64 r))
      × (out.res ≡ elim waits_for [ none ↦ true | some end ↦ false ])
unfolding finish_walk
finish_walk-res key tid ts_end event root root' r waits_for m = (refl, refl)

finish_walk-IsReadyManager :
    (key tid ts_end event : ℕ) (root root' : Tree) (r : ℕ) (waits_for : Option ℕ) (m : LockManager)
    → IsReadyManager m
    → r ≤ ts_end
    → ts_end + 1 < 2 ^ 64
    → IsReadyManager
        (finish_walk key tid ts_end event root
          (record {
            root = root';
            cur_ts = r;
            waits_for = waits_for;
            recorded = true;
            failed = false;
          })
          m).manager
unfolding finish_walk
finish_walk-IsReadyManager key tid ts_end event root root' r none m v le small =
    let m2 = add_transaction_lock tid key (inc64 r) ts_end m in
    rw (set_root-transactions key root' m2)
      (add_transaction_lock-IsReadyManager tid key (inc64 r) ts_end m v (omega arith) (omega arith))
finish_walk-IsReadyManager key tid ts_end event root root' r (some end) m v le small =
    let m1 = add_event key end event m in
    let m2 = add_transaction_lock tid key (inc64 r) ts_end m1 in
    rw (set_root-transactions key root' m2) (
      add_transaction_lock-IsReadyManager tid key (inc64 r) ts_end m1
        (rw (add_event-transactions key end event m) v) (omega arith) (omega arith))

module _ (key tid ts_end event : ℕ) (root root' : Tree) (r : ℕ) where
  walk_end : Option ℕ → Walk
  walk_end waits_for = record {
    root = root';
    cur_ts = r;
    waits_for = waits_for;
    recorded = true;
    failed = false;
  }

  finish_walk-tree :
      (waits_for : Option ℕ) (m : LockManager) (info : KeyInfo)
      → Map.find key m.key_map ≡ some info
      → root_of key (finish_walk key tid ts_end event root (walk_end waits_for) m).manager ≡ root'
  unfolding finish_walk walk_end
  finish_walk-tree none m info here =
      root_of-set_root key root' (add_transaction_lock tid key (inc64 r) ts_end m) info
        (rw (add_transaction_lock-keys tid key (inc64 r) ts_end m) here)
  finish_walk-tree (some end) m info here =
      let m1 = add_event key end event m in
      let (info', here') = add_event-there key end event m info here in
      root_of-set_root key root' (add_transaction_lock tid key (inc64 r) ts_end m1) info'
        (rw (add_transaction_lock-keys tid key (inc64 r) ts_end m1) here')

  finish_walk-other :
      (k : ℕ) (waits_for : Option ℕ) (m : LockManager)
      → (key == k) ≡ false
      → Map.find k (finish_walk key tid ts_end event root (walk_end waits_for) m).manager.key_map
        ≡ Map.find k m.key_map
  unfolding finish_walk walk_end
  finish_walk-other k none m other =
      set_root-other key k other root' (add_transaction_lock tid key (inc64 r) ts_end m)
      ∙ ap (Map.find k) (add_transaction_lock-keys tid key (inc64 r) ts_end m)
  finish_walk-other k (some end) m other =
      let m1 = add_event key end event m in
      set_root-other key k other root' (add_transaction_lock tid key (inc64 r) ts_end m1)
      ∙ ap (Map.find k) (add_transaction_lock-keys tid key (inc64 r) ts_end m1)
      ∙ add_event-other key k other end event m

-- What a call returns, and the tree of its key.
pub record Answer (key tid ts_end : ℕ) (is_read : Bool) (m : LockManager) (out : Run Locked)
    : Type 0 where
  pub locked : Locked
  pub runs : out ≡ ok locked
  pub on_tree :
      BackwardLocked
        (root_of key (create_key_info key m))
        is_read
        tid
        ts_end
        (lock_backward is_read tid ts_end (root_of key (create_key_info key m)))
  pub ts_start : locked.ts_start ≡ some (on_tree.r + 1)
  pub res : locked.res ≡ elim on_tree.waits_for [ none ↦ true | some end ↦ false ]
  pub tree : root_of key locked.manager ≡ on_tree.root'
  pub others :
      (k : ℕ) → (key == k) ≡ false → Map.find k locked.manager.key_map ≡ Map.find k m.key_map
  pub valid : IsValidManager locked.manager
  pub ready : IsReadyManager m → IsReadyManager locked.manager

-- If the trees of all keys are valid and `ts_end` is below 2^64 - 1, a call of `tryBackwardLock`, new key
-- or not, returns. Its effect on the tree of the key is that of `BackwardLocked`, with `*ts_start`
-- one above the time that the walk reached and the result true if and only if no lock is waited for.
-- The trees of the other keys are as they were, and all trees are valid again. If all recorded intervals
-- start after 0 and end below 2^64, one for each key, they do afterwards.
pub try_backward_lock-Answer :
    (key tid ts_end : ℕ) (is_read : Bool) (event : ℕ) (m : LockManager)
    → IsValidManager m
    → ts_end + 1 < 2 ^ 64
    → Answer key tid ts_end is_read m (try_backward_lock key tid ts_end is_read event m)
unfolding try_backward_lock walk_end
try_backward_lock-Answer key tid ts_end is_read event m v small =
    let m' = create_key_info key m in
    let root = root_of key m' in
    let b =
      lock_backward-BackwardLocked root is_read tid ts_end (root_of-IsValid key m v)
        (omega (arith, small)) in
    let w : Walk = record {
      root = b.root';
      cur_ts = b.r;
      waits_for = b.waits_for;
      recorded = true;
      failed = false;
    } in
    let f = finish_walk-res key tid ts_end event root b.root' b.r b.waits_for m' in
    record {
      locked = finish_walk key tid ts_end event root w m';
      runs = rw b.runs refl;
      on_tree = b;
      ts_start = f.0 ∙ ap some (omega (arith, b.bounded));
      res = f.1;
      tree =
          let (info, here) = create_key_info-there key m in
          finish_walk-tree key tid ts_end event root b.root' b.r b.waits_for m' info here;
      others = λ k other.
          finish_walk-other key tid ts_end event root b.root' b.r k b.waits_for m' other
          ∙ create_key_info-other key k other m;
      valid =
          finish_walk-IsValidManager key tid ts_end event root b.root' b.r b.waits_for m'
            (create_key_info-IsValidManager key m v) b.valid;
      ready = λ p.
          finish_walk-IsReadyManager key tid ts_end event root b.root' b.r b.waits_for m'
            (rw (create_key_info-transactions key m) p) b.bounded small;
    }
