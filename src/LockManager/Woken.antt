-- ===== src/LockManager/Woken.antt =====
-- The events that `freeze` and `unlock` of src/AVLTreeLockManager.cc run.
use mvtx.Prelude.{
  ℕ, ◌≡◌, refl, sym, ◌∙◌, Bool, true, false, ◌&&◌, ◌||◌, not, none, some, inl, inr, List, [], ◌∷◌,
  arith, ◌==◌, Bool-cases, Option-cases, any,
}
use mvtx.Prelude.Map
use mvtx.Prelude.Map.{Map}
use mvtx.Prelude.Set
use mvtx.Prelude.Set.{contains-insert_all, insert_all-IsSorted}
use mvtx.LockNode.{
  LockStatus, free, read_lock, write_lock, freeze_read_lock, freeze_write_lock, Lock,
}
use mvtx.LockNode.Descending.{descending}
use mvtx.LockManager.{Interval, LockManager, events_at, freeze_lock, unlock_lock, is_empty}
use mvtx.LockManager.Sweep.{with_events}
use mvtx.LockManager.SweepTree.{meets, wake}
use mvtx.LockManager.SweepKeys.{woken}

-- Which locks of a transaction end for those that wait: for `freeze` each that it holds, and for `unlock`
-- each that it holds alone if it is for reading.
abbrev pub freeze_wakes : LockStatus → ℕ → List ℕ → Bool
freeze_wakes read_lock tid tids = Set.contains tid tids
freeze_wakes write_lock tid tids = Set.contains tid tids
freeze_wakes _ tid tids = false

abbrev pub alone : ℕ → List ℕ → Bool
alone tid tids = not (any (λ x. not (x == tid)) tids)

abbrev pub unlock_wakes : LockStatus → ℕ → List ℕ → Bool
unlock_wakes read_lock tid tids = Set.contains tid tids && alone tid tids
unlock_wakes write_lock tid tids = Set.contains tid tids
unlock_wakes _ tid tids = false

-- Whether an event waits for the end of a node that meets the interval and whose lock ends.
abbrev pub awaits_in :
    (LockStatus → ℕ → List ℕ → Bool) → (tid event : ℕ) → Interval → Map (List ℕ) → List Lock → Bool
awaits_in wakes tid event pair waiting nodes =
    any
      (λ n.
        meets pair.first pair.second n
        && (wakes n.status tid n.tids && Set.contains event (events_at n.end waiting)))
      nodes

-- The same in the tree of a key; a key without a tree has no events.
abbrev pub awaits_at :
    (LockStatus → ℕ → List ℕ → Bool) → (tid event : ℕ) → LockManager → ℕ × Interval → Bool
awaits_at wakes tid event m (key, pair) = elim (Map.find key m.key_map) [
  | none ↦ false
  | some info ↦ awaits_in wakes tid event pair info.events (descending info.root)
]

pub freeze_lock-wakes :
    (s : LockStatus) (tid : ℕ) (n : Lock) → (freeze_lock s tid n).1 ≡ freeze_wakes s tid n.tids
unfolding freeze_lock
freeze_lock-wakes read_lock tid n = ground arith
freeze_lock-wakes write_lock tid n = ground arith
freeze_lock-wakes free tid n = refl
freeze_lock-wakes freeze_read_lock tid n = refl
freeze_lock-wakes freeze_write_lock tid n = refl

is_empty-erase : (tid : ℕ) (tids : List ℕ) → is_empty (Set.erase tid tids) ≡ alone tid tids
unfolding Set.erase
is_empty-erase tid [] = refl
is_empty-erase tid (x ∷ tids) = elim (Bool-cases (x == tid)) [
  | inl same ↦ rw same (is_empty-erase tid tids)
  | inr other ↦ rw other refl
]

pub unlock_lock-wakes :
    (s : LockStatus) (tid : ℕ) (n : Lock) → (unlock_lock s tid n).1 ≡ unlock_wakes s tid n.tids
unfolding unlock_lock
unlock_lock-wakes read_lock tid n =
    rw (sym (is_empty-erase tid n.tids)) (elim (Bool-cases (Set.contains tid n.tids)) [
      | inl here ↦ rw here refl
      | inr out ↦ rw out refl
    ])
unlock_lock-wakes write_lock tid n = ground arith
unlock_lock-wakes free tid n = refl
unlock_lock-wakes freeze_read_lock tid n = refl
unlock_lock-wakes freeze_write_lock tid n = refl

module _ (change : Lock → Lock × Bool) (wakes : LockStatus → ℕ → List ℕ → Bool) (tid event : ℕ)
    (flag : (n : Lock) → (change n).1 ≡ wakes n.status tid n.tids) where
  contains-with_events :
      (b : Bool) (end : ℕ) (waiting : Map (List ℕ)) (events : List ℕ)
      → Set.contains event (with_events b end waiting events)
        ≡ ((b && Set.contains event (events_at end waiting)) || Set.contains event events)
  contains-with_events true end waiting events =
      contains-insert_all (events_at end waiting) events event
  contains-with_events false end waiting events = refl

  contains-wake :
      (pair : Interval) (waiting : Map (List ℕ)) (nodes : List Lock) (events : List ℕ)
      → Set.contains event (wake change pair.first pair.second waiting nodes events)
        ≡ (Set.contains event events || awaits_in wakes tid event pair waiting nodes)
  contains-wake pair waiting [] events = ground arith
  contains-wake pair waiting (n ∷ nodes) events =
      let b = meets pair.first pair.second n && (change n).1 in
      let one = contains-with_events b n.end waiting events in
      contains-wake pair waiting nodes (with_events b n.end waiting events)
      ∙ rw (one, flag n) (ground arith)

  pub contains-woken :
      (intervals : Map Interval) (m : LockManager) (events : List ℕ)
      → Set.contains event (woken change intervals m events)
        ≡ (Set.contains event events || any (awaits_at wakes tid event m) intervals)
  contains-woken [] m events = ground arith
  contains-woken ((key, pair) ∷ intervals) m events = elim (Option-cases (Map.find key m.key_map)) [
    | inl absent ↦ rw (absent, awaits_at) (contains-woken intervals m events)
    | inr (info, here) ↦
        let nodes = descending info.root in
        let one = contains-wake pair info.events nodes events in
        let rest =
          contains-woken intervals m
            (wake change pair.first pair.second info.events nodes events) in
        rw (here, awaits_at) (rest ∙ rw one (ground arith))
  ]

module _ (change : Lock → Lock × Bool) where
  wake-IsSorted :
      (pair : Interval) (waiting : Map (List ℕ)) (nodes : List Lock) (events : List ℕ)
      → Set.IsSorted events
      → Set.IsSorted (wake change pair.first pair.second waiting nodes events)
  wake-IsSorted pair waiting [] events h = h
  wake-IsSorted pair waiting (n ∷ nodes) events h =
      wake-IsSorted pair waiting nodes _
        (elim (Bool-cases (meets pair.first pair.second n && (change n).1)) [
          | inl on ↦ rw on (insert_all-IsSorted (events_at n.end waiting) events h)
          | inr off ↦ rw off h
        ])

  pub woken-IsSorted :
      (intervals : Map Interval) (m : LockManager) (events : List ℕ)
      → Set.IsSorted events
      → Set.IsSorted (woken change intervals m events)
  woken-IsSorted [] m events h = h
  woken-IsSorted ((key, pair) ∷ intervals) m events h =
      elim (Option-cases (Map.find key m.key_map)) [
        | inl absent ↦ rw absent (woken-IsSorted intervals m events h)
        | inr (info, here) ↦ rw here (
            woken-IsSorted intervals m _
              (wake-IsSorted pair info.events (descending info.root) events h))
      ]
