-- ===== src/LockManager/Recorded.antt =====
-- What `tryBackwardLock` of src/AVLTreeLockManager.cc notes in the maps: the interval of the transaction, and
-- the event that waits.
use mvtx.Prelude.{
  ℕ, ◌+◌, ◌<◌, ◌^◌, ◌≡◌, refl, sym, ◌∙◌, subst, Bool, true, false, ◌&&◌, ◌||◌, Option, none, some,
  inc64, arith, ◌==◌,
}
use mvtx.Prelude.Map
use mvtx.Prelude.Set
use mvtx.Prelude.Run.{ok-injective}
use mvtx.LockNode.{Tree}
use mvtx.LockManager.{
  KeyInfo, LockManager, Walk, Locked, events_at, create_key_info, add_event, add_transaction_lock,
  finish_walk, try_backward_lock, root_of,
}
use mvtx.LockManager.Invariant.{IsValidManager, add_transaction_lock-keys, create_key_info-there}
use mvtx.LockManager.Ready.{
  create_key_info-transactions, add_event-transactions, set_root-transactions,
}
use mvtx.LockManager.TryBackwardLock.{Answer, try_backward_lock-Answer}
use mvtx.LockManager.Intervals.{
  events_of, Records, events_of-create_key_info, events_of-set_root, contains-add_event,
  add_transaction_lock-Records,
}

abbrev pub waits_at : Option ℕ → ℕ → Bool
waits_at none ts = false
waits_at (some end) ts = end == ts

-- What a call that reached the time `r` and waits for `waits_for` has noted.
pub record Noted (key tid ts_end event r : ℕ) (waits_for : Option ℕ) (m m' : LockManager)
    : Type 0 where
  pub interval : Records tid key (r + 1) ts_end m.transaction_map m'.transaction_map
  pub waiting :
      (ts e : ℕ)
      → Set.contains e (events_at ts (events_of key m'.key_map)) ≡ (
          Set.contains e (events_at ts (events_of key m.key_map))
          || (waits_at waits_for ts && (event == e)))

module _ (key tid ts_end event : ℕ) (root root' : Tree) (r : ℕ) where
  abbrev ended : Option ℕ → Walk
  ended waits_for = record {
    root = root';
    cur_ts = r;
    waits_for = waits_for;
    recorded = true;
    failed = false;
  }

  -- The maps after the call.
  finish_walk-Records :
      (waits_for : Option ℕ) (m : LockManager)
      → inc64 r ≡ r + 1
      → Records tid key
          (r + 1)
          ts_end
          m.transaction_map
          (finish_walk key tid ts_end event root (ended waits_for) m).manager.transaction_map
  unfolding finish_walk
  finish_walk-Records none m e =
      let m2 = add_transaction_lock tid key (inc64 r) ts_end m in
      rw (set_root-transactions key root' m2, e)
        (add_transaction_lock-Records tid key (r + 1) ts_end m)
  finish_walk-Records (some end) m e =
      let m1 = add_event key end event m in
      let m2 = add_transaction_lock tid key (inc64 r) ts_end m1 in
      rw (set_root-transactions key root' m2, e)
        (subst
          (λ x.
            Records tid key (r + 1) ts_end x
              (add_transaction_lock tid key (r + 1) ts_end m1).transaction_map)
          (add_event-transactions key end event m)
          (add_transaction_lock-Records tid key (r + 1) ts_end m1))

  finish_walk-events :
      (waits_for : Option ℕ) (m : LockManager) (info : KeyInfo) (ts e : ℕ)
      → Map.find key m.key_map ≡ some info
      → Set.contains e (
          events_at ts (
            events_of key
              (finish_walk key tid ts_end event root (ended waits_for) m).manager.key_map))
        ≡ (Set.contains e (events_at ts (events_of key m.key_map))
            || (waits_at waits_for ts && (event == e)))
  unfolding finish_walk
  finish_walk-events none m info ts e here =
      let m2 = add_transaction_lock tid key (inc64 r) ts_end m in
      rw (events_of-set_root key root' m2, add_transaction_lock-keys tid key (inc64 r) ts_end m)
        (ground arith)
  finish_walk-events (some end) m info ts e here =
      let m1 = add_event key end event m in
      let m2 = add_transaction_lock tid key (inc64 r) ts_end m1 in
      rw (events_of-set_root key root' m2, add_transaction_lock-keys tid key (inc64 r) ts_end m1)
        (contains-add_event key end event ts e m info here)

-- If the trees of all keys are valid and `ts_end` is below 2^64 - 1, a call of `tryBackwardLock` returns, in the
-- way that `Answer` says, and then the interval that is recorded for the transaction at the key holds all times
-- from the one above the time that the walk reached to `ts_end`, and those that it held. No other
-- interval changes, of any transaction at any key. The event waits at the end that the call waits for,
-- if there is one, beside the events that waited at the key.
pub try_backward_lock-Noted :
    (key tid ts_end : ℕ) (is_read : Bool) (event : ℕ) (m : LockManager)
    → IsValidManager m
    → ts_end + 1 < 2 ^ 64
    → (a : Answer key tid ts_end is_read m (try_backward_lock key tid ts_end is_read event m))
      × Noted key tid ts_end event a.on_tree.r a.on_tree.waits_for m a.locked.manager
unfolding try_backward_lock
try_backward_lock-Noted key tid ts_end is_read event m v small =
    let a = try_backward_lock-Answer key tid ts_end is_read event m v small in
    let b = a.on_tree in
    let m' = create_key_info key m in
    let root = root_of key m' in
    let (info, here) = create_key_info-there key m in
    let out =
      finish_walk key tid ts_end event root
        (ended key tid ts_end event root b.root' b.r b.waits_for) m' in
    let same : out ≡ a.locked = ok-injective out a.locked (sym (rw b.runs refl) ∙ a.runs) in
    let step : inc64 b.r ≡ b.r + 1 = omega (arith, b.bounded) in
    (
      a,
      subst (λ (x : Locked). Noted key tid ts_end event b.r b.waits_for m x.manager) same
          (record {
            interval =
                subst (λ x. Records tid key (b.r + 1) ts_end x out.manager.transaction_map)
                  (create_key_info-transactions key m)
                  (finish_walk-Records key tid ts_end event root b.root' b.r b.waits_for m' step);
            waiting = λ ts e.
                finish_walk-events key tid ts_end event root b.root' b.r b.waits_for m' info ts e
                  here
                ∙ rw (events_of-create_key_info key m) refl;
          }),
    )
