-- ===== src/LockManager/Safe.antt =====
-- Managers of src/AVLTreeLockManager.cc in which `freeze` and `unlock` come to their last loop, and what these calls
-- do to the times that are frozen.
use mvtx.Prelude.{
  ℕ, ◌<◌, ◌^◌, ◌≡◌, refl, ap, sym, ◌∙◌, subst, Bool, true, false, inl, inr, some, List, [], ◌==◌,
  Bool-cases, Option-cases, none-some,
}
use mvtx.Prelude.Map
use mvtx.Prelude.Run.{Run, ok}
use mvtx.LockNode.{LockStatus, free, read_lock, write_lock, freeze_read_lock, freeze_write_lock}
use mvtx.LockManager.{
  KeyInfo, TransactionInfo, LockManager, init, root_of, freeze_intervals, unlock_intervals,
}
use mvtx.LockManager.Valid.{State, state_at}
use mvtx.LockManager.Invariant.{IsValidManager, init-IsValidManager}
use mvtx.LockManager.Ready.{IsReadyManager, init-IsReadyManager}
use mvtx.LockManager.Granted.{share}
use mvtx.LockManager.TryLock.{after}
use mvtx.LockManager.Woken.{freeze_wakes, unlock_wakes}
use mvtx.LockManager.Release.{
  Released, freeze_state, unlock_state, freeze_intervals-Released, unlock_intervals-Released,
}

pub record IsSafe (m : LockManager) : Type 0 where
  pub valid : IsValidManager m
  pub ready : IsReadyManager m

pub init-IsSafe : IsSafe init
init-IsSafe = record { valid = init-IsValidManager; ready = init-IsReadyManager }

abbrev pub is_frozen : LockStatus → Bool
is_frozen freeze_read_lock = true
is_frozen freeze_write_lock = true
is_frozen _ = false

-- A frozen time of the first manager is frozen in the same way in the second.
abbrev pub KeepsFrozen : LockManager → LockManager → Type 0
KeepsFrozen m m' =
    (key t : ℕ) (s : State)
    → t < 2 ^ 64
    → state_at t (root_of key m) ≡ some s
    → is_frozen s.status ≡ true
    → state_at t (root_of key m') ≡ some s

-- The outcome of a call of `freeze` or `unlock`.
pub record Returns (m : LockManager) (out : Run (LockManager × List ℕ)) : Type 0 where
  pub manager : LockManager
  pub events : List ℕ
  pub runs : out ≡ ok (manager, events)
  pub safe : IsSafe manager
  pub frozen : KeepsFrozen m manager

freeze_state-frozen :
    (s : LockStatus) (tid : ℕ) (tids : List ℕ)
    → is_frozen s ≡ true
    → freeze_state s tid tids ≡ record { status = s; tids = tids }
freeze_state-frozen freeze_read_lock tid tids e = refl
freeze_state-frozen freeze_write_lock tid tids e = refl
freeze_state-frozen free tid tids e = cc
freeze_state-frozen read_lock tid tids e = cc
freeze_state-frozen write_lock tid tids e = cc

unlock_state-frozen :
    (s : LockStatus) (tid : ℕ) (tids : List ℕ)
    → is_frozen s ≡ true
    → unlock_state s tid tids ≡ record { status = s; tids = tids }
unlock_state-frozen freeze_read_lock tid tids e = refl
unlock_state-frozen freeze_write_lock tid tids e = refl
unlock_state-frozen free tid tids e = cc
unlock_state-frozen read_lock tid tids e = cc
unlock_state-frozen write_lock tid tids e = cc

pub share-frozen :
    (s : LockStatus) (is_read : Bool) (tid : ℕ) (tids : List ℕ)
    → is_frozen s ≡ true
    → share s is_read tid tids ≡ record { status = s; tids = tids }
share-frozen freeze_read_lock is_read tid tids e = refl
share-frozen freeze_write_lock is_read tid tids e = refl
share-frozen free is_read tid tids e = cc
share-frozen read_lock is_read tid tids e = cc
share-frozen write_lock is_read tid tids e = cc

-- A key with a state has a tree.
pub state-info :
    (key t : ℕ) (m : LockManager) (s : State)
    → state_at t (root_of key m) ≡ some s
    → (k : KeyInfo) × (Map.find key m.key_map ≡ some k)
unfolding root_of
state-info key t m s e = elim (Option-cases (Map.find key m.key_map)) [
  | inl absent ↦ absurd (none-some s (rw (absent, root_of) at e))
  | inr there ↦ there
]

released-Returns :
    (wakes : LockStatus → ℕ → List ℕ → Bool) (act : LockStatus → ℕ → List ℕ → State) (tid : ℕ)
    (info : TransactionInfo) (m : LockManager) (out : Run (LockManager × List ℕ))
    → ((s : LockStatus) (tids : List ℕ)
        → is_frozen s ≡ true
        → act s tid tids ≡ record { status = s; tids = tids })
    → IsReadyManager m
    → Released wakes act tid info m out
    → Returns m out
released-Returns wakes act tid info m out keeps ready r = record {
  manager = r.manager;
  events = r.events;
  runs = r.runs;
  safe = record {
    valid = r.valid;
    ready = λ k i e.
        let e' = sym (r.transactions k) ∙ e in
        elim (Bool-cases (tid == k)) [
          | inl same ↦ absurd (none-some i (rw same at e'))
          | inr other ↦ ready k i (rw other at e')
        ];
  };
  frozen = λ key t s small e f.
      let (k, there) = state-info key t m s e in
      let (s1, e1, after) = r.any key k t there small in
      let same : s1 ≡ s = (let e2 = sym e1 ∙ e in cc) in
      elim after [
        | inl kept ↦ kept ∙ ap some same
        | inr changed_ ↦
            changed_
            ∙ ap some (
                keeps s1.status s1.tids
                  (subst (λ (x : State). is_frozen x.status ≡ true) (sym same) f)
                ∙ same)
      ];
}

-- A transaction that is not known: nothing happens.
unknown-Returns :
    (m : LockManager) (out : Run (LockManager × List ℕ))
    → IsSafe m
    → out ≡ ok (m, [])
    → Returns m out
unknown-Returns m out v e = record {
  manager = m;
  events = [];
  runs = e;
  safe = v;
  frozen = λ key t s small at f. at;
}

-- In a safe manager `freeze` and `unlock` of any transaction, known or not, come to their last loop.
pub freeze_intervals-Returns :
    (tid : ℕ) (m : LockManager) → IsSafe m → Returns m (freeze_intervals tid m)
unfolding freeze_intervals
freeze_intervals-Returns tid m v = elim (Option-cases (Map.find tid m.transaction_map)) [
  | inl absent ↦ unknown-Returns m (freeze_intervals tid m) v (rw (absent, freeze_intervals) refl)
  | inr (info, there) ↦
      released-Returns freeze_wakes freeze_state tid info m (freeze_intervals tid m)
        (λ s tids. freeze_state-frozen s tid tids) v.ready
        (freeze_intervals-Released tid m info v.valid there (v.ready tid info there))
]

pub unlock_intervals-Returns :
    (tid : ℕ) (m : LockManager) → IsSafe m → Returns m (unlock_intervals tid m)
unfolding unlock_intervals
unlock_intervals-Returns tid m v = elim (Option-cases (Map.find tid m.transaction_map)) [
  | inl absent ↦ unknown-Returns m (unlock_intervals tid m) v (rw (absent, unlock_intervals) refl)
  | inr (info, there) ↦
      released-Returns unlock_wakes unlock_state tid info m (unlock_intervals tid m)
        (λ s tids. unlock_state-frozen s tid tids) v.ready
        (unlock_intervals-Released tid m info v.valid there (v.ready tid info there))
]
