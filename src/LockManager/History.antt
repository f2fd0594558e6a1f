-- ===== src/LockManager/History.antt =====
-- Histories of calls of `tryBackwardLock`, `tryLock`, `freeze` and `unlock` of src/AVLTreeLockManager.cc.
use mvtx.Prelude.{
  ◌≤◌, ℕ, ◌+◌, ◌<◌, ◌^◌, ◌≡◌, refl, ap, sym, ◌∙◌, subst, Bool, true, false, inl, inr, some, List,
  arith, ◌==◌, ==_iff, Bool-cases, suc, leb, ◌&&◌,
}
use native.Mathlib.Decide.{dec_lt}
use mvtx.Prelude.Map
use mvtx.Prelude.Run.{Run, ok, ok-injective}
use mvtx.LockNode.{Lock}
use mvtx.LockManager.{
  KeyInfo, LockManager, Locked, root_of, create_key_info, try_backward_lock, try_lock,
  freeze_intervals, unlock_intervals,
}
use mvtx.LockManager.Valid.{State, holder, state_at}
use mvtx.LockManager.TryBackwardLock.{Answer, try_backward_lock-Answer}
use mvtx.LockManager.Backward.{passes}
use mvtx.LockManager.TryLock.{TryLocked, after, try_lock-TryLocked}
use mvtx.LockNode.Descending.{descending}
use mvtx.LockManager.Safe.{
  IsSafe, is_frozen, KeepsFrozen, Returns, share-frozen, state-info, freeze_intervals-Returns,
  unlock_intervals-Returns,
}

-- One call, by any transaction: `freeze` and `unlock` up to the events that they run, which make calls of their
-- own. The interval of `tryLock` lies in one node, as that of a single time does.
pub data Step (m m' : LockManager) : Type 0 where
  lock_step :
      (key tid ts_end : ℕ) (is_read : Bool) (event : ℕ) (locked : Locked)
      → ts_end + 1 < 2 ^ 64
      → try_backward_lock key tid ts_end is_read event m ≡ ok locked
      → locked.manager ≡ m'
      → Step m m'
  try_step :
      (fuel key tid first last : ℕ) (is_read : Bool) (n : Lock) (res : Bool)
      → holder last (descending (root_of key (create_key_info key m))) ≡ some n
      → n.start ≤ first
      → 0 < first
      → first ≤ last
      → last < 2 ^ 64
      → try_lock (suc fuel) key tid first last is_read m ≡ ok (res, m')
      → Step m m'
  freeze_step : (tid : ℕ) (events : List ℕ) → freeze_intervals tid m ≡ ok (m', events) → Step m m'
  unlock_step : (tid : ℕ) (events : List ℕ) → unlock_intervals tid m ≡ ok (m', events) → Step m m'

pub data Steps (m : LockManager) : LockManager → Type 0 where
  here : Steps m m
  next : {m1 m2 : LockManager} → Steps m m1 → Step m1 m2 → Steps m m2

root_of-same :
    (k : ℕ) (m m' : LockManager)
    → Map.find k m'.key_map ≡ Map.find k m.key_map
    → root_of k m' ≡ root_of k m
unfolding root_of
root_of-same k m m' e = rw (e, root_of) refl

created :
    (key : ℕ) (m : LockManager) (k : KeyInfo)
    → Map.find key m.key_map ≡ some k
    → create_key_info key m ≡ m
unfolding create_key_info
created key m k there = rw (there, create_key_info) refl

-- On the key of the call.
key-frozen :
    (key tid ts_end : ℕ) (is_read : Bool) (event : ℕ) (m : LockManager)
    → (a : Answer key tid ts_end is_read m (try_backward_lock key tid ts_end is_read event m))
    → (t : ℕ) (s : State) → t < 2 ^ 64
    → state_at t (root_of key m) ≡ some s
    → is_frozen s.status ≡ true
    → state_at t (root_of key a.locked.manager) ≡ some s
key-frozen key tid ts_end is_read event m a t s lt e f =
    let (k, there) = state-info key t m s e in
    let b = a.on_tree in
    let before : state_at t (root_of key (create_key_info key m)) ≡ some s =
      ap (λ x. state_at t (root_of key x)) (created key m k there) ∙ e in
    ap (state_at t) a.tree ∙ elim (dec_lt ts_end t) [
      | yes late ↦ b.above t late lt ∙ before
      | no early ↦ elim (dec_lt b.r t) [
        | no low ↦ b.below t (omega arith) ∙ before
        | yes high ↦
            let (s1, e1, open_, now) = b.granted t high (omega arith) in
            let same : s1 ≡ s = (let e2 = sym e1 ∙ before in cc) in
            now
            ∙ ap some (
                share-frozen s1.status is_read tid s1.tids
                  (subst (λ (x : State). is_frozen x.status ≡ true) (sym same) f)
                ∙ same)
      ]
    ]

backward-frozen :
    (key tid ts_end : ℕ) (is_read : Bool) (event : ℕ) (m : LockManager)
    → (a : Answer key tid ts_end is_read m (try_backward_lock key tid ts_end is_read event m))
    → KeepsFrozen m a.locked.manager
backward-frozen key tid ts_end is_read event m a k t s lt e f = elim (Bool-cases (key == k)) [
  | inr other ↦ ap (state_at t) (root_of-same k m a.locked.manager (a.others k other)) ∙ e
  | inl same ↦
      let eq : key ≡ k = (==_iff key k).0 same in
      subst (λ x. state_at t (root_of x a.locked.manager) ≡ some s) eq
        (key-frozen key tid ts_end is_read event m a t s lt
          (subst (λ x. state_at t (root_of x m) ≡ some s) (sym eq) e) f)
]

after-frozen :
    (b is_read : Bool) (tid : ℕ) (n : Lock)
    → is_frozen n.status ≡ true
    → after b is_read tid n ≡ record { status = n.status; tids = n.tids }
after-frozen true is_read tid n f = share-frozen n.status is_read tid n.tids f
after-frozen false is_read tid n f = refl

try_key-frozen :
    (key tid first last : ℕ) (is_read : Bool) (m : LockManager) (n : Lock)
    (out : Run (Bool × LockManager)) (a : TryLocked key tid first last is_read m n out) (t : ℕ)
    (s : State)
    → t < 2 ^ 64
    → state_at t (root_of key m) ≡ some s
    → is_frozen s.status ≡ true
    → state_at t (root_of key a.manager) ≡ some s
try_key-frozen key tid first last is_read m n out a t s lt e f =
    let (k, there) = state-info key t m s e in
    let before : state_at t (root_of key (create_key_info key m)) ≡ some s =
      ap (λ x. state_at t (root_of key x)) (created key m k there) ∙ e in
    elim (Bool-cases (leb first t && leb t last)) [
      | inr out_ ↦ a.outside t lt out_ ∙ before
      | inl within ↦
          let (was, now) = a.inside t (ground arith) (ground arith) in
          let same : record { status = n.status; tids = n.tids } ≡ s =
            (let e2 = sym was ∙ before in cc) in
          let f' : is_frozen n.status ≡ true =
            subst (λ (x : State). is_frozen x.status ≡ true) (sym same) f in
          now ∙ ap some (after-frozen (passes n.status is_read) is_read tid n f' ∙ same)
    ]

try-frozen :
    (key tid first last : ℕ) (is_read : Bool) (m : LockManager) (n : Lock)
    (out : Run (Bool × LockManager)) (a : TryLocked key tid first last is_read m n out)
    → KeepsFrozen m a.manager
try-frozen key tid first last is_read m n out a k t s lt e f = elim (Bool-cases (key == k)) [
  | inr other ↦ ap (state_at t) (root_of-same k m a.manager (a.others k other)) ∙ e
  | inl same ↦
      let eq : key ≡ k = (==_iff key k).0 same in
      subst (λ x. state_at t (root_of x a.manager) ≡ some s) eq
        (try_key-frozen key tid first last is_read m n out a t s lt
          (subst (λ x. state_at t (root_of x m) ≡ some s) (sym eq) e) f)
]

-- What a call does, whatever it is.
record Kept (m m' : LockManager) : Type 0 where
  safe : IsSafe m'
  frozen : KeepsFrozen m m'

Returns-Kept :
    (m m' : LockManager) (events : List ℕ) (out : Run (LockManager × List ℕ))
    → out ≡ ok (m', events)
    → Returns m out
    → Kept m m'
Returns-Kept m m' events out e r =
    let same : r.manager ≡ m' =
      ap (λ (p : LockManager × List ℕ). p.0)
        (ok-injective (r.manager, r.events) (m', events) (sym r.runs ∙ e)) in
    subst (Kept m) same (record { safe = r.safe; frozen = r.frozen })

Step-Kept : (m m' : LockManager) → IsSafe m → Step m m' → Kept m m'
Step-Kept m m' v (lock_step key tid ts_end is_read event locked small e into) =
    let a = try_backward_lock-Answer key tid ts_end is_read event m v.valid small in
    let same = ap (λ (x : Locked). x.manager) (ok-injective a.locked locked (sym a.runs ∙ e)) in
    subst (Kept m) (same ∙ into) (record {
      safe = record { valid = a.valid; ready = a.ready v.ready };
      frozen = backward-frozen key tid ts_end is_read event m a;
    })
Step-Kept m m' v (try_step fuel key tid first last is_read n res held low pos le small e) =
    let a = try_lock-TryLocked fuel key tid first last is_read m n v.valid held low pos le small in
    let same =
      ap (λ (x : Bool × LockManager). x.1)
        (ok-injective (passes n.status is_read, a.manager) (res, m') (sym a.runs ∙ e)) in
    subst (Kept m) same (record {
      safe = record { valid = a.valid; ready = a.ready v.ready };
      frozen =
          try-frozen key tid first last is_read m n
            (try_lock (suc fuel) key tid first last is_read m) a;
    })
Step-Kept m m' v (freeze_step tid events e) =
    Returns-Kept m m' events (freeze_intervals tid m) e (freeze_intervals-Returns tid m v)
Step-Kept m m' v (unlock_step tid events e) =
    Returns-Kept m m' events (unlock_intervals tid m) e (unlock_intervals-Returns tid m v)

Steps-Kept : {m m' : LockManager} → Steps m m' → IsSafe m → IsSafe m' × KeepsFrozen m m'
Steps-Kept here v = (v, λ key t s lt e f. e)
Steps-Kept {m} {m'} (next {m1} steps step) v =
    let before = Steps-Kept steps v in
    let k = Step-Kept m1 m' before.0 step in
    (k.safe, λ key t s lt e f. k.frozen key t s lt (before.1 key t s lt e f) f)

-- Along any history of calls of `tryBackwardLock` with `ts_end` below 2^64 - 1, `tryLock` with an interval
-- that starts after 0, ends below 2^64 and lies in one node, `freeze` and `unlock`, up to the events that they
-- run, from a safe manager, the manager stays safe: all trees are valid, and the recorded intervals of each transaction start after
-- 0, end below 2^64 and stand one for each key. A time below 2^64 that is frozen keeps its status and its transactions.
pub Steps-frozen :
    {m m' : LockManager} (key t : ℕ) (s : State)
    → Steps m m'
    → IsSafe m
    → t < 2 ^ 64
    → state_at t (root_of key m) ≡ some s
    → is_frozen s.status ≡ true
    → IsSafe m' × (state_at t (root_of key m') ≡ some s)
Steps-frozen key t s steps v lt e f = let k = Steps-Kept steps v in (k.0, k.1 key t s lt e f)
