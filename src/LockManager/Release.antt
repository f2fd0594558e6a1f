-- ===== src/LockManager/Release.antt =====
-- `freeze` and `unlock` of src/AVLTreeLockManager.cc as contracts on the times of the keys.
use mvtx.Prelude.{
  ℕ, ◌<◌, ◌≤◌, ◌^◌, ◌≡◌, refl, ap, sym, ◌∙◌, subst, Bool, true, ◌⊎◌, inl, inr, none, some, List, [],
  arith, if◌then◌else◌, ◌==◌, ==_iff, Bool-cases, Option-cases, any,
}
use mvtx.Prelude.Map
use mvtx.Prelude.Map.{find-erase}
use mvtx.Prelude.Set
use mvtx.Prelude.Run.{Run, ok, ◌>>=◌}
use mvtx.LockNode.{
  LockStatus, free, read_lock, write_lock, freeze_read_lock, freeze_write_lock, Lock,
}
use mvtx.LockNode.Descending.{descending}
use mvtx.LockManager.{
  Interval, KeyInfo, TransactionInfo, LockManager, root_of, freeze_lock, unlock_lock,
  freeze_intervals, unlock_intervals, delete_transaction_info, sweep_keys,
}
use mvtx.LockManager.Valid.{State, state_of, state_at, holder}
use mvtx.LockManager.Invariant.{IsValidManager}
use mvtx.LockManager.Ready.{IsReady}
use mvtx.LockManager.Sweep.{changed}
use mvtx.LockManager.SweepTree.{meets, sweep_one, one_keeps}
use mvtx.LockManager.SweepTimes.{holder-map, Held, held}
use mvtx.LockManager.SweepKeys.{KeySwept, woken, sweep_keys-Swept}
use mvtx.LockManager.Woken.{
  freeze_wakes, unlock_wakes, awaits_at, freeze_lock-wakes, unlock_lock-wakes, contains-woken,
  woken-IsSorted,
}

-- A time after its lock was frozen for a transaction, or released by it.
abbrev pub freeze_state : LockStatus → ℕ → List ℕ → State
freeze_state read_lock tid tids =
    if Set.contains tid tids
    then record { status = freeze_read_lock; tids = [] }
    else record { status = read_lock; tids = tids }
freeze_state write_lock tid tids =
    if Set.contains tid tids
    then record { status = freeze_write_lock; tids = [] }
    else record { status = write_lock; tids = tids }
freeze_state s tid tids = record { status = s; tids = tids }

abbrev pub unlock_state : LockStatus → ℕ → List ℕ → State
unlock_state read_lock tid tids =
    if Set.contains tid tids
    then record { status = free; tids = Set.erase tid tids }
    else record { status = read_lock; tids = tids }
unlock_state write_lock tid tids =
    if Set.contains tid tids
    then record { status = free; tids = Set.erase tid tids }
    else record { status = write_lock; tids = tids }
unlock_state s tid tids = record { status = s; tids = tids }

freeze_lock-state :
    (s : LockStatus) (tid : ℕ) (n : Lock)
    → s ≡ n.status
    → state_of (some (changed (λ m. freeze_lock s tid m) n)) ≡ some (freeze_state s tid n.tids)
unfolding freeze_lock
freeze_lock-state free tid n e = rw e refl
freeze_lock-state read_lock tid n e = elim (Bool-cases (Set.contains tid n.tids)) [
  | inl here ↦ rw here refl
  | inr out ↦ rw (out, e) refl
]
freeze_lock-state write_lock tid n e = elim (Bool-cases (Set.contains tid n.tids)) [
  | inl here ↦ rw here refl
  | inr out ↦ rw (out, e) refl
]
freeze_lock-state freeze_read_lock tid n e = rw e refl
freeze_lock-state freeze_write_lock tid n e = rw e refl

unlock_lock-state :
    (s : LockStatus) (tid : ℕ) (n : Lock)
    → s ≡ n.status
    → state_of (some (changed (λ m. unlock_lock s tid m) n)) ≡ some (unlock_state s tid n.tids)
unfolding unlock_lock
unlock_lock-state free tid n e = rw e refl
unlock_lock-state read_lock tid n e = elim (Bool-cases (Set.contains tid n.tids)) [
  | inl here ↦ rw here refl
  | inr out ↦ rw (out, e) refl
]
unlock_lock-state write_lock tid n e = elim (Bool-cases (Set.contains tid n.tids)) [
  | inl here ↦ rw here refl
  | inr out ↦ rw (out, e) refl
]
unlock_lock-state freeze_read_lock tid n e = rw e refl
unlock_lock-state freeze_write_lock tid n e = rw e refl

-- What a call does for a transaction with the intervals `info`: `act` gives the state of a time after it,
-- and `wakes` says which locks end for the events that wait.
pub record Released (wakes : LockStatus → ℕ → List ℕ → Bool) (act : LockStatus → ℕ → List ℕ → State)
    (tid : ℕ) (info : TransactionInfo) (m : LockManager) (out : Run (LockManager × List ℕ))
    : Type 0 where
  pub manager : LockManager
  pub events : List ℕ
  pub runs : out ≡ ok (manager, events)
  pub woken_events : (e : ℕ) → Set.contains e events ≡ any (awaits_at wakes tid e m) info.intervals
  pub once : Set.IsSorted events
  pub transactions :
      (k : ℕ)
      → Map.find k manager.transaction_map
        ≡ (if tid == k then none else Map.find k m.transaction_map)
  pub valid : IsValidManager manager
  pub outside :
      (key : ℕ)
      → Map.find key info.intervals ≡ none
      → Map.find key manager.key_map ≡ Map.find key m.key_map
  pub within :
      (key : ℕ) (pair : Interval) (k : KeyInfo) (t : ℕ)
      → Map.find key info.intervals ≡ some pair
      → Map.find key m.key_map ≡ some k
      → pair.first ≤ t
      → t ≤ pair.second
      → t < 2 ^ 64
      → (s : State) × (state_at t (root_of key m) ≡ some s)
        × (state_at t (root_of key manager) ≡ some (act s.status tid s.tids))
  pub any :
      (key : ℕ) (k : KeyInfo) (t : ℕ)
      → Map.find key m.key_map ≡ some k
      → t < 2 ^ 64
      → (s : State) × (state_at t (root_of key m) ≡ some s)
        × ((state_at t (root_of key manager) ≡ some s)
            ⊎ (state_at t (root_of key manager) ≡ some (act s.status tid s.tids)))

delete_transaction_info-find :
    (tid k : ℕ) (m : LockManager)
    → (Map.find k (delete_transaction_info tid m).transaction_map
        ≡ (if tid == k then none else Map.find k m.transaction_map))
      × ((delete_transaction_info tid m).key_map ≡ m.key_map)
unfolding delete_transaction_info
delete_transaction_info-find tid k m = elim (Option-cases (Map.find tid m.transaction_map)) [
  | inl absent ↦
      rw (absent, delete_transaction_info)
        (
          elim (Bool-cases (tid == k)) [
            | inl same ↦
                let eq : tid ≡ k = (==_iff tid k).0 same in
                rw same (subst (λ x. Map.find x m.transaction_map ≡ none) eq absent)
            | inr other ↦ rw other refl
          ],
          refl,
        )
  | inr (info, here) ↦ rw (here, delete_transaction_info) (find-erase tid k m.transaction_map, refl)
]

pub root_of-info :
    (key : ℕ) (m : LockManager) (k : KeyInfo)
    → Map.find key m.key_map ≡ some k
    → root_of key m ≡ k.root
unfolding root_of
root_of-info key m k here = rw (here, root_of) refl

module _ (change : Lock → Lock × Bool) (wakes : LockStatus → ℕ → List ℕ → Bool)
    (act : LockStatus → ℕ → List ℕ → State) (tid : ℕ)
    (flag : (n : Lock) → (change n).1 ≡ wakes n.status tid n.tids)
    (acts : (n : Lock) → state_of (some (changed change n)) ≡ some (act n.status tid n.tids)) where
  -- A time of a key that was swept.
  time_swept :
      (pair : Interval) (k k' : KeyInfo) (t : ℕ) (h : Held t (descending k.root))
      → KeySwept change pair k k'
      → state_at t k'.root ≡ (
          if meets pair.first pair.second h.lock
          then some (act h.lock.status tid h.lock.tids)
          else state_of (some h.lock))
  time_swept pair k k' t h swept =
      let g = sweep_one change pair.first pair.second in
      let e =
        ap (λ d. state_of (holder t d)) swept.0
        ∙ ap state_of (
            holder-map g (one_keeps change pair.first pair.second []) t (descending k.root) h.lock
              h.holds) in
      elim (Bool-cases (meets pair.first pair.second h.lock)) [
        | inl here ↦ rw here (e ∙ rw here (acts h.lock))
        | inr out ↦ rw out (e ∙ rw out refl)
      ]

  pub released :
      (m : LockManager) (info : TransactionInfo)
      → IsValidManager m
      → IsReady info.intervals
      → Released wakes act tid info m (do
        (m', events) ← sweep_keys change info.intervals m []
        ok (delete_transaction_info tid m', events))
  unfolding Set.contains
  released m info v ready =
      let s = sweep_keys-Swept change info.intervals m [] v ready in
      let m' = delete_transaction_info tid s.manager in
      let keys : m'.key_map ≡ s.manager.key_map =
        (delete_transaction_info-find tid tid s.manager).1 in
      let after : (key : ℕ) (k : KeyInfo)
          → Map.find key s.manager.key_map ≡ some k
          → root_of key m' ≡ k.root =
        λ key k e. root_of-info key m' k (ap (Map.find key) keys ∙ e) in
      record {
        manager = m';
        events = woken change info.intervals m [];
        runs = rw s.runs refl;
        woken_events = λ e. contains-woken change wakes tid e flag info.intervals m [];
        once = woken-IsSorted change info.intervals m [] tt;
        transactions = λ k.
            (delete_transaction_info-find tid k s.manager).0
            ∙ ap (λ x. if tid == k then none else Map.find k x) s.transactions;
        valid = λ key k e. s.valid key k (ap (Map.find key) (sym keys) ∙ e);
        outside = λ key e. ap (Map.find key) keys ∙ s.outside key e;
        within = λ key pair k t e f low high small.
            let (k', there, swept) = s.inside key pair k e f in
            let h = held t (2 ^ 64) (descending k.root) (v key k f).covers small in
            let here : meets pair.first pair.second h.lock ≡ true = ground (arith, h.low, h.high) in
            (
              record { status = h.lock.status; tids = h.lock.tids },
              ap (state_at t) (root_of-info key m k f) ∙ ap state_of h.holds,
              ap (state_at t) (after key k' there) ∙ time_swept pair k k' t h swept ∙ rw here refl,
            );
        any = λ key k t f small.
            let h = held t (2 ^ 64) (descending k.root) (v key k f).covers small in
            (
              record { status = h.lock.status; tids = h.lock.tids },
              ap (state_at t) (root_of-info key m k f) ∙ ap state_of h.holds,
              elim (Option-cases (Map.find key info.intervals)) [
                | inl none_ ↦
                    inl (
                      ap (state_at t) (after key k (s.outside key none_ ∙ f)) ∙ ap state_of h.holds)
                | inr (pair, e) ↦
                    let (k', there, swept) = s.inside key pair k e f in
                    let now =
                      ap (state_at t) (after key k' there) ∙ time_swept pair k k' t h swept in
                    elim (Bool-cases (meets pair.first pair.second h.lock)) [
                      | inl here ↦ inr (now ∙ rw here refl)
                      | inr out ↦ inl (now ∙ rw out refl)
                    ]
              ],
            );
      }

-- For a transaction that the manager knows, whose intervals start after 0, end below 2^64 and stand one for
-- each key, and with valid trees, `freeze` comes to its last loop, in which it runs events. Each time of an
-- interval of a key with a tree has the state that `freeze_state` gives: frozen in its kind if the
-- transaction holds it, else as it was. Each other time of a key keeps its state or gets that one too. Keys
-- without an interval are left alone. The transaction is forgotten and the others are not, and the trees are
-- valid. The events to run are, each once and in the order of their addresses, exactly those that wait for
-- the end of a node that meets an interval and that the transaction holds.
pub freeze_intervals-Released :
    (tid : ℕ) (m : LockManager) (info : TransactionInfo)
    → IsValidManager m
    → Map.find tid m.transaction_map ≡ some info
    → IsReady info.intervals
    → Released freeze_wakes freeze_state tid info m (freeze_intervals tid m)
unfolding freeze_intervals
freeze_intervals-Released tid m info v here ready =
    rw (here, freeze_intervals)
      (released (λ n. freeze_lock n.status tid n) freeze_wakes freeze_state tid
        (λ n. freeze_lock-wakes n.status tid n) (λ n. freeze_lock-state n.status tid n refl) m info
        v ready)

-- For a transaction that the manager knows, whose intervals start after 0, end below 2^64 and stand one for
-- each key, and with valid trees, `unlock` comes to its last loop, in which it runs events. Each time of an
-- interval of a key with a tree has the state that `unlock_state` gives: free if the transaction holds it, with the
-- other transactions that read it still in its list, else as it was. Each other time of a key keeps its
-- state or gets that one too. Keys without an interval are left alone. The transaction is forgotten and the others are
-- not, and the trees are valid. The events to run are, each once and in the order of their addresses, exactly
-- those that wait for the end of a node that meets an interval and that the transaction holds, alone if the
-- node is locked for reading.
pub unlock_intervals-Released :
    (tid : ℕ) (m : LockManager) (info : TransactionInfo)
    → IsValidManager m
    → Map.find tid m.transaction_map ≡ some info
    → IsReady info.intervals
    → Released unlock_wakes unlock_state tid info m (unlock_intervals tid m)
unfolding unlock_intervals
unlock_intervals-Released tid m info v here ready =
    rw (here, unlock_intervals)
      (released (λ n. unlock_lock n.status tid n) unlock_wakes unlock_state tid
        (λ n. unlock_lock-wakes n.status tid n) (λ n. unlock_lock-state n.status tid n refl) m info
        v ready)
