-- ===== src/LockManager.antt =====
-- src/LockManager.h and src/AVLTreeLockManager.{h,cc}. A call is one step: each holds the mutex of
-- the key, or of the transaction, while it reads and writes. A pointer that is not in the tree, and
-- `back()` of an empty vector, are faults.
pub mod Tests
pub mod Valid
pub mod Split
pub mod SplitBelow
pub mod Claim
pub mod LockRange
pub mod TryLock
pub mod TryLockTests
pub mod Backward
pub mod Prepare
pub mod Granted
pub mod Times
pub mod BackwardLock
pub mod Invariant
pub mod TryBackwardLock
pub mod Intervals
pub mod Recorded
pub mod Ready
pub mod Sweep
pub mod SweepTree
pub mod SweepTimes
pub mod SweepKeys
pub mod Woken
pub mod Release
pub mod Safe
pub mod History
pub mod HistoryTests
use mvtx.Prelude.{
  ℕ, zero, suc, ◌+◌, ◌%◌, ◌^◌, ◌-◌, Bool, true, false, ◌&&◌, ◌||◌, not, Option, none, some, List,
  [], ◌∷◌, ◌++◌, ltb, leb, ◌==◌, if◌then◌else◌, inc64, dec64,
}
use mvtx.Prelude.Map
use mvtx.Prelude.Map.{Map}
use mvtx.Prelude.Set
use mvtx.Prelude.Run.{Run, ok, fault, out_of_fuel, ◌>>=◌}
use mvtx.LockNode.{
  LockStatus, free, read_lock, write_lock, freeze_read_lock, freeze_write_lock, Lock, Tree, nil,
  node, leaf, new_lock, copy_lock, insert, insert_at, find, get, modify, fresh, size,
}

pub record KeyInfo : Type 0 where
  pub events : Map (List ℕ)
  pub root : Tree

-- A time interval, `std::pair<uint64_t, uint64_t>`.
pub record Interval : Type 0 where
  pub first : ℕ
  pub second : ℕ

pub record TransactionInfo : Type 0 where
  pub intervals : Map Interval

pub record LockManager : Type 0 where
  pub key_map : Map KeyInfo
  pub transaction_map : Map TransactionInfo

abbrev pub init : LockManager
init = record { key_map = []; transaction_map = [] }

-- The tree of a new key: [0,0] is frozen for writing, the rest is free.
unfoldable pub initial_root : Tree
unfolding insert new_lock
initial_root =
    (insert (record (new_lock 1) { start = 1 })
      (leaf (record (new_lock 0) { status = freeze_write_lock; end = 0 }))).0

unfoldable pub create_key_info : ℕ → LockManager → LockManager
create_key_info key m = elim (Map.find key m.key_map) [
  | some info ↦ m
  | none ↦ record m {
    key_map = Map.set key (record { events = []; root = initial_root }) m.key_map;
  }
]

-- The events that wait for the end of an interval.
unfoldable pub events_at : ℕ → Map (List ℕ) → List ℕ
events_at ts events = elim (Map.find ts events) [ none ↦ [] | some waiting ↦ waiting ]

unfoldable pub add_event : ℕ → ℕ → ℕ → LockManager → LockManager
unfolding events_at
add_event key ts_end event m = elim (Map.find key m.key_map) [
  | none ↦ m
  | some info ↦ record m {
    key_map =
        Map.set key
          (record info {
            events = Map.set ts_end (Set.insert event (events_at ts_end info.events)) info.events;
          })
          m.key_map;
  }
]

unfoldable pub create_transaction_info : ℕ → LockManager → LockManager
create_transaction_info tid m = elim (Map.find tid m.transaction_map) [
  | some info ↦ m
  | none ↦ record m { transaction_map = Map.set tid (record { intervals = [] }) m.transaction_map }
]

unfoldable pub delete_transaction_info : ℕ → LockManager → LockManager
delete_transaction_info tid m = elim (Map.find tid m.transaction_map) [
  | none ↦ m
  | some info ↦ record m { transaction_map = Map.erase tid m.transaction_map }
]

-- The interval of a key grows to hold [start, end].
unfoldable pub widen : Option Interval → ℕ → ℕ → Interval
widen none start end = record { first = start; second = end }
widen (some pair) start end = record {
  first = if ltb start pair.first then start else pair.first;
  second = if ltb pair.second end then end else pair.second;
}

unfoldable pub add_transaction_lock : ℕ → ℕ → ℕ → ℕ → LockManager → LockManager
unfolding create_transaction_info widen
add_transaction_lock tid key start end m =
    let m' = create_transaction_info tid m in
    elim (Map.find tid m'.transaction_map) [
      | none ↦ m'
      | some info ↦ record m' {
        transaction_map =
            Map.set tid
              (record {
                intervals =
                    Map.set key (widen (Map.find key info.intervals) start end) info.intervals;
              })
              m'.transaction_map;
      }
    ]

-- `_key_map[key]->_root = root`
unfoldable pub set_root : ℕ → Tree → LockManager → LockManager
set_root key root m = elim (Map.find key m.key_map) [
  | none ↦ m
  | some info ↦ record m { key_map = Map.set key (record info { root = root }) m.key_map }
]

-- `p->find(&locks, ts)`
unfoldable pub find_from : ℕ → Tree → ℕ → List ℕ → List ℕ
find_from a root ts locks = elim (get a root) [ none ↦ locks | some t ↦ find t ts locks ]

-- A write of the status and the transactions of a node.
abbrev pub with_state : LockStatus → List ℕ → Lock → Lock
with_state status tids n = record n { status = status; tids = tids }

-- One round of the walk of `tryBackwardLock`: the node's status and transactions after it, the time
-- that the walk has reached, and whether the lock of another transaction stopped it.
pub record Visit : Type 0 where
  pub status : LockStatus
  pub tids : List ℕ
  pub cur_ts : ℕ
  pub blocked : Bool

-- A node that the walk leaves as it is.
abbrev pub stay : Lock → ℕ → Bool → Visit
stay n cur_ts blocked = record {
  status = n.status;
  tids = n.tids;
  cur_ts = cur_ts;
  blocked = blocked;
}

unfoldable pub visit : LockStatus → Bool → ℕ → ℕ → Lock → Visit
visit free is_read tid cur_ts n = record {
  status = if is_read then read_lock else write_lock;
  tids = Set.insert tid n.tids;
  cur_ts = dec64 n.start;
  blocked = false;
}
visit read_lock is_read tid cur_ts n =
    if is_read
    then record {
      status = n.status;
      tids = Set.insert tid n.tids;
      cur_ts = dec64 n.start;
      blocked = false;
    }
    else stay n cur_ts true
visit write_lock is_read tid cur_ts n = stay n cur_ts true
visit freeze_read_lock is_read tid cur_ts n =
    stay n (if is_read then dec64 n.start else cur_ts) false
visit freeze_write_lock is_read tid cur_ts n = stay n cur_ts false

-- How the walk ends. `waits_for` is the end of the interval that blocked it; `recorded` says whether
-- the transaction's interval was noted; `failed`, that a node did not hold the time it was found for.
pub record Walk : Type 0 where
  pub root : Tree
  pub cur_ts : ℕ
  pub waits_for : Option ℕ
  pub recorded : Bool
  pub failed : Bool

-- A visit that is blocked goes on only if the node starts at 0 and the time is the largest: then the walk comes to
-- this node again and again and never ends, so that the event of that round is not followed up.
unfoldable pub walk : ℕ → Bool → ℕ → Tree → List ℕ → ℕ → Run Walk
unfolding visit find_from
walk zero is_read tid root locks cur_ts = out_of_fuel
walk (suc fuel) is_read tid root [] cur_ts =
    ok (record { root = root; cur_ts = cur_ts; waits_for = none; recorded = false; failed = false })
walk (suc fuel) is_read tid root (a ∷ locks) cur_ts = elim (get a root) [
  | none ↦ fault
  | some nil ↦ fault
  | some (node n lh rh l r) ↦
      let v = visit n.status is_read tid cur_ts n in
      let root' = modify a (with_state v.status v.tids) root in
      let rest = walk fuel is_read tid root' (find_from a root' v.cur_ts locks) v.cur_ts in
      if ltb cur_ts n.start || ltb n.end cur_ts
      then ok (record {
        root = root;
        cur_ts = cur_ts;
        waits_for = none;
        recorded = false;
        failed = true;
      })
      else if v.cur_ts == dec64 n.start
      then rest
      else ok (record {
        root = root';
        cur_ts = v.cur_ts;
        waits_for = if v.blocked then some n.end else none;
        recorded = true;
        failed = false;
      })
]

-- Whether a new lock may share an interval of this status.
unfoldable pub is_available : LockStatus → Bool → Bool
is_available free is_read = true
is_available read_lock is_read = is_read
is_available _ is_read = false

-- `new AVLTreeLockNode(p)` with its interval set to [start, end].
abbrev pub piece : Tree → Lock → ℕ → ℕ → Lock
piece root n start end = record (copy_lock (fresh root) n) { start = start; end = end }

abbrev pub with_interval : ℕ → ℕ → Lock → Lock
with_interval start end n = record n { start = start; end = end }

-- The part of a node above `ts` becomes a node of its own.
unfoldable pub split_above : ℕ → Lock → ℕ → Tree → Tree
unfolding insert_at copy_lock
split_above a n ts root =
    (insert_at a (piece root n (inc64 ts) n.end) (modify a (with_interval n.start ts) root)).0

-- The part of a node below `ts` becomes a node of its own.
unfoldable pub split_below : ℕ → Lock → ℕ → Tree → Tree
unfolding insert_at copy_lock
split_below a n ts root =
    (insert_at a (piece root n n.start (dec64 ts)) (modify a (with_interval ts n.end) root)).0

-- The tree and the vector with which the walk starts.
unfoldable pub prepare_walk : Bool → ℕ → Tree → Run (Tree × List ℕ)
unfolding is_available split_above find get
prepare_walk is_read cur_ts root = elim (find root cur_ts []) [
  | [] ↦ fault
  | a ∷ locks ↦ elim (get a root) [
    | none ↦ fault
    | some nil ↦ fault
    | some (node n lh rh l r) ↦
        let root' = split_above a n cur_ts root in
        if is_available n.status is_read && ltb cur_ts n.end
        then ok (root', find root' cur_ts [])
        else ok (root, a ∷ locks)
  ]
]

-- The result, what is written to `*ts_start` (nothing on the error path), and the new state.
pub record Locked : Type 0 where
  pub res : Bool
  pub ts_start : Option ℕ
  pub manager : LockManager

-- On the error path the key keeps its old pointer to the root, which leads into the changed tree.
unfoldable pub old_root : Tree → Tree → Tree
old_root nil root' = root'
old_root (node n lh rh l r) root' = elim (get n.addr root') [ none ↦ root' | some t ↦ t ]

unfoldable pub finish_walk : ℕ → ℕ → ℕ → ℕ → Tree → Walk → LockManager → Locked
unfolding add_event add_transaction_lock set_root old_root
finish_walk key tid ts_end event root w m =
    let m1 : LockManager = elim w.waits_for [ none ↦ m | some end ↦ add_event key end event m ] in
    let m2 = if w.recorded then add_transaction_lock tid key (inc64 w.cur_ts) ts_end m1 else m1 in
    if w.failed
    then record { res = false; ts_start = none; manager = set_root key (old_root root w.root) m }
    else record {
      res = elim w.waits_for [ none ↦ true | some end ↦ false ];
      ts_start = some (inc64 w.cur_ts);
      manager = set_root key w.root m2;
    }

-- The root of a key that exists.
unfoldable pub root_of : ℕ → LockManager → Tree
root_of key m = elim (Map.find key m.key_map) [ none ↦ nil | some info ↦ info.root ]

-- `tryBackwardLock` on the tree of a key.
unfoldable pub lock_backward : Bool → ℕ → ℕ → Tree → Run Walk
unfolding prepare_walk walk size
lock_backward is_read tid ts_end root = do
  (root', locks) ← prepare_walk is_read ts_end root
  walk (suc (size root')) is_read tid root' locks ts_end

unfoldable pub try_backward_lock : ℕ → ℕ → ℕ → Bool → ℕ → LockManager → Run Locked
unfolding create_key_info root_of lock_backward finish_walk
try_backward_lock key tid ts_end is_read event m = do
  let m' = create_key_info key m
  let root = root_of key m'
  w ← lock_backward is_read tid ts_end root
  ok (finish_walk key tid ts_end event root w m')

-- The first pass of `tryLock`: the nodes to lock, or nothing if one of them is not to be had.
unfoldable pub scan : ℕ → Bool → ℕ → Tree → List ℕ → List ℕ → Run (Option (List ℕ))
unfolding find_from get
scan zero is_read ts_start root locks pend_locks = out_of_fuel
scan (suc fuel) is_read ts_start root [] pend_locks = ok (some pend_locks)
scan (suc fuel) is_read ts_start root (a ∷ locks) pend_locks = elim (get a root) [
  | none ↦ fault
  | some nil ↦ fault
  | some (node n lh rh l r) ↦
      let go_on = λ (pend : List ℕ).
        let rest = scan fuel is_read ts_start root (find_from a root (dec64 ts_start) locks) pend in
        if ltb ts_start n.start then rest else ok (some pend) in
      elim n.status [
        | free ↦ go_on (pend_locks ++ a ∷ [])
        | read_lock ↦ if is_read then go_on (pend_locks ++ a ∷ []) else ok none
        | write_lock ↦ ok none
        | freeze_read_lock ↦ if is_read then go_on pend_locks else ok none
        | freeze_write_lock ↦ ok none
      ]
]

abbrev pub requested : Bool → LockStatus
requested is_read = if is_read then read_lock else write_lock

-- The part of a pending node that lies in [ts_start, ts_end] is cut out and locked.
unfoldable pub cut_below : ℕ → ℕ → Tree → Run Tree
unfolding split_below get
cut_below a ts_start root = elim (get a root) [
  | none ↦ fault
  | some nil ↦ fault
  | some (node n lh rh l r) ↦
      ok (if ltb n.start ts_start then split_below a n ts_start root else root)
]

unfoldable pub cut_above : ℕ → ℕ → Tree → Run Tree
unfolding split_above get
cut_above a ts_end root = elim (get a root) [
  | none ↦ fault
  | some nil ↦ fault
  | some (node n lh rh l r) ↦ ok (if ltb ts_end n.end then split_above a n ts_end root else root)
]

unfoldable pub claim : Bool → ℕ → ℕ → ℕ → ℕ → Tree → Run Tree
unfolding cut_below cut_above modify
claim is_read tid ts_start ts_end a root = do
  root1 ← cut_below a ts_start root
  root2 ← cut_above a ts_end root1
  ok (modify a (λ n. record n { status = requested is_read; tids = Set.insert tid n.tids }) root2)

-- The second pass.
unfoldable pub claim_all : Bool → ℕ → ℕ → ℕ → List ℕ → Tree → Run Tree
unfolding claim
claim_all is_read tid ts_start ts_end [] root = ok root
claim_all is_read tid ts_start ts_end (a ∷ pend_locks) root = do
  root' ← claim is_read tid ts_start ts_end a root
  claim_all is_read tid ts_start ts_end pend_locks root'

-- `tryLock` on the tree of a key, with the rounds that the first pass may take.
unfoldable pub lock_range : ℕ → ℕ → ℕ → ℕ → Bool → Tree → Run (Option Tree)
unfolding scan claim_all find
lock_range fuel tid ts_start ts_end is_read root = do
  pend_locks ← scan fuel is_read ts_start root (find root ts_end []) []
  elim pend_locks [
    | none ↦ ok none
    | some pend ↦ do root' ← claim_all is_read tid ts_start ts_end pend root; ok (some root')
  ]

unfoldable pub try_lock : ℕ → ℕ → ℕ → ℕ → ℕ → Bool → LockManager → Run (Bool × LockManager)
unfolding create_key_info root_of lock_range add_transaction_lock set_root
try_lock fuel key tid ts_start ts_end is_read m = do
  let m' = create_key_info key m
  locked ← lock_range fuel tid ts_start ts_end is_read (root_of key m')
  elim locked [
    | none ↦ ok (false, m')
    | some root ↦ ok (true, set_root key root (add_transaction_lock tid key ts_start ts_end m'))
  ]

-- The `switch` of `freeze` and that of `unlock`: the node after it, and whether the events that wait
-- for its end are to run.
unfoldable pub freeze_lock : LockStatus → ℕ → Lock → Lock × Bool
freeze_lock read_lock tid n =
    if Set.contains tid n.tids then (with_state freeze_read_lock [] n, true) else (n, false)
freeze_lock write_lock tid n =
    if Set.contains tid n.tids then (with_state freeze_write_lock [] n, true) else (n, false)
freeze_lock _ tid n = (n, false)

abbrev pub is_empty : List ℕ → Bool
is_empty [] = true
is_empty (x ∷ xs) = false

unfoldable pub unlock_lock : LockStatus → ℕ → Lock → Lock × Bool
unlock_lock read_lock tid n =
    if Set.contains tid n.tids
    then (with_state free (Set.erase tid n.tids) n, is_empty (Set.erase tid n.tids))
    else (n, false)
unlock_lock write_lock tid n =
    if Set.contains tid n.tids then (with_state free (Set.erase tid n.tids) n, true) else (n, false)
unlock_lock _ tid n = (n, false)

-- The walk of `freeze` and `unlock` over one interval of one key. `back()` of the empty vector is a
-- fault.
unfoldable pub sweep :
    (Lock → Lock × Bool)
    → ℕ
    → (ts_start ts_end : ℕ) → Map (List ℕ)
    → Tree
    → List ℕ
    → List ℕ
    → Run (Tree × List ℕ)
unfolding find_from get events_at
sweep change zero ts_start ts_end waiting root locks events = out_of_fuel
sweep change (suc fuel) ts_start ts_end waiting root [] events =
    if leb ts_start ts_end then fault else ok (root, events)
sweep change (suc fuel) ts_start ts_end waiting root (a ∷ locks) events =
    let round : Run (Tree × List ℕ) = elim (get a root) [
      | none ↦ fault
      | some nil ↦ fault
      | some (node n lh rh l r) ↦
          let n' = change n in
          let root' = modify a (with_state n'.0.status n'.0.tids) root in
          let ts_end' = dec64 n.start in
          let events' = if n'.1 then Set.insert_all (events_at n.end waiting) events else events in
          sweep change fuel ts_start ts_end' waiting root' (find_from a root' ts_end' locks) events'
    ] in
    if leb ts_start ts_end then round else ok (root, events)

-- The walk over all keys of a transaction, with the events collected so far.
unfoldable pub sweep_keys :
    (Lock → Lock × Bool) → Map Interval → LockManager → List ℕ → Run (LockManager × List ℕ)
unfolding sweep set_root
sweep_keys change [] m events = ok (m, events)
sweep_keys change ((key, pair) ∷ intervals) m events = elim (Map.find key m.key_map) [
  | none ↦ sweep_keys change intervals m events
  | some info ↦ do
    (root, events') ←
        sweep change (suc (suc (size info.root))) pair.first pair.second info.events info.root
          (find info.root pair.second []) events
    sweep_keys change intervals (set_root key root m) events'
]

-- `freeze` and `unlock` up to the loop that runs the events, with these events in their order.
unfoldable pub freeze_intervals : ℕ → LockManager → Run (LockManager × List ℕ)
unfolding sweep_keys freeze_lock delete_transaction_info
freeze_intervals tid m = elim (Map.find tid m.transaction_map) [
  | none ↦ ok (m, [])
  | some info ↦ do
    (m', events) ← sweep_keys (λ n. freeze_lock n.status tid n) info.intervals m []
    ok (delete_transaction_info tid m', events)
]

unfoldable pub unlock_intervals : ℕ → LockManager → Run (LockManager × List ℕ)
unfolding sweep_keys unlock_lock delete_transaction_info
unlock_intervals tid m = elim (Map.find tid m.transaction_map) [
  | none ↦ ok (m, [])
  | some info ↦ do
    (m', events) ← sweep_keys (λ n. unlock_lock n.status tid n) info.intervals m []
    ok (delete_transaction_info tid m', events)
]
