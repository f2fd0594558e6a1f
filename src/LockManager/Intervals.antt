-- ===== src/LockManager/Intervals.antt =====
-- The maps of src/AVLTreeLockManager.cc: the events that wait at a key, and the recorded intervals.
use mvtx.Prelude.{
  ℕ, ◌≤◌, ◌≡◌, refl, ap, sym, ◌∙◌, subst, false, ◌&&◌, ◌||◌, Option, none, some, inl, inr, List, [],
  arith, ◌==◌, ==_iff, if◌then◌else◌, Bool-cases, Option-cases, none-some,
}
use mvtx.Prelude.Map
use mvtx.Prelude.Map.{Map, find-set, find-set_self}
use mvtx.Prelude.Set
use mvtx.Prelude.Set.{contains-insert}
use mvtx.LockNode.{Tree}
use mvtx.LockManager.{
  Interval, KeyInfo, TransactionInfo, LockManager, events_at, create_key_info, add_event,
  create_transaction_info, add_transaction_lock, widen, set_root, initial_root,
}

-- The events that wait at a key, and the interval of a transaction at a key.
abbrev pub events_of : ℕ → Map KeyInfo → Map (List ℕ)
events_of key keys = elim (Map.find key keys) [ none ↦ [] | some info ↦ info.events ]

abbrev pub interval_of : (tid key : ℕ) → Map TransactionInfo → Option Interval
interval_of tid key transactions = elim (Map.find tid transactions) [
  | none ↦ none
  | some info ↦ Map.find key info.intervals
]

pub events_of-create_key_info :
    (key : ℕ) (m : LockManager)
    → events_of key (create_key_info key m).key_map ≡ events_of key m.key_map
unfolding create_key_info
events_of-create_key_info key m = elim (Option-cases (Map.find key m.key_map)) [
  | inl absent ↦
      rw
        (
          absent,
          create_key_info,
          find-set_self key (record { events = []; root = initial_root }) m.key_map,
          events_of,
        )
        refl
  | inr (info, here) ↦ rw (here, create_key_info) refl
]

pub events_of-set_root :
    (key : ℕ) (t : Tree) (m : LockManager)
    → events_of key (set_root key t m).key_map ≡ events_of key m.key_map
unfolding set_root
events_of-set_root key t m = elim (Option-cases (Map.find key m.key_map)) [
  | inl absent ↦ rw (absent, set_root) refl
  | inr (info, here) ↦
      rw (here, set_root, find-set_self key (record info { root = t }) m.key_map, events_of) refl
]

events_at-set :
    (end ts : ℕ) (events : List ℕ) (waiting : Map (List ℕ))
    → events_at ts (Map.set end events waiting)
      ≡ (if end == ts then events else events_at ts waiting)
unfolding events_at
events_at-set end ts events waiting = elim (Bool-cases (end == ts)) [
  | inl same ↦ rw (find-set end ts events waiting, same, events_at) refl
  | inr other ↦ rw (find-set end ts events waiting, other, events_at) refl
]

-- An event is added to those that wait for a time.
pub contains-add_event :
    (key end event ts e : ℕ) (m : LockManager) (info : KeyInfo)
    → Map.find key m.key_map ≡ some info
    → Set.contains e (events_at ts (events_of key (add_event key end event m).key_map))
      ≡ (Set.contains e (events_at ts (events_of key m.key_map)) || ((end == ts) && (event == e)))
unfolding add_event
contains-add_event key end event ts e m info here =
    let grown = Set.insert event (events_at end info.events) in
    let new : KeyInfo = record info { events = Map.set end grown info.events } in
    let after : events_of key (add_event key end event m).key_map ≡ new.events =
      rw (here, add_event, find-set_self key new m.key_map, events_of) refl in
    rw (after, here, events_of, events_at-set end ts grown info.events)
      (elim (Bool-cases (end == ts)) [
        | inl same ↦
            let eq : end ≡ ts = (==_iff end ts).0 same in
            rw (same, contains-insert event e (events_at end info.events), eq) (ground arith)
        | inr other ↦ rw other (ground arith)
      ])

-- The interval of a transaction at a key grows; no other interval changes.
create_there :
    (tid : ℕ) (m : LockManager)
    → (info : TransactionInfo) × (Map.find tid (create_transaction_info tid m).transaction_map
        ≡ some info)
unfolding create_transaction_info
create_there tid m = elim (Option-cases (Map.find tid m.transaction_map)) [
  | inl absent ↦ (
    record { intervals = [] },
    rw (absent, create_transaction_info)
        (find-set_self tid (record { intervals = [] }) m.transaction_map),
  )
  | inr (info, here) ↦ (info, rw (here, create_transaction_info) here)
]

interval_of-create :
    (tid t k : ℕ) (m : LockManager)
    → interval_of t k (create_transaction_info tid m).transaction_map
      ≡ interval_of t k m.transaction_map
unfolding create_transaction_info Map.find
interval_of-create tid t k m = elim (Option-cases (Map.find tid m.transaction_map)) [
  | inl absent ↦
      let new : TransactionInfo = record { intervals = [] } in
      elim (Bool-cases (tid == t)) [
        | inl same ↦
            let eq : tid ≡ t = (==_iff tid t).0 same in
            let absent' = subst (λ x. Map.find x m.transaction_map ≡ none) eq absent in
            rw
              (
                absent,
                create_transaction_info,
                find-set tid t new m.transaction_map,
                same,
                absent',
                interval_of,
              )
              refl
        | inr other ↦
            rw
              (
                absent,
                create_transaction_info,
                find-set tid t new m.transaction_map,
                other,
                interval_of,
              )
              refl
      ]
  | inr (info, here) ↦ rw (here, create_transaction_info) refl
]

pub interval_of-add_transaction_lock :
    (tid key start end t k : ℕ) (m : LockManager)
    → interval_of t k (add_transaction_lock tid key start end m).transaction_map ≡ (
        if (tid == t) && (key == k)
        then some (widen (interval_of tid key m.transaction_map) start end)
        else interval_of t k m.transaction_map)
unfolding add_transaction_lock
interval_of-add_transaction_lock tid key start end t k m =
    let m' = create_transaction_info tid m in
    let (info, here) = create_there tid m in
    let old : Map.find key info.intervals ≡ interval_of tid key m.transaction_map =
      sym (rw (here, interval_of) refl) ∙ interval_of-create tid tid key m in
    let new : TransactionInfo = record {
      intervals = Map.set key (widen (Map.find key info.intervals) start end) info.intervals;
    } in
    let after : (add_transaction_lock tid key start end m).transaction_map
        ≡ Map.set tid new m'.transaction_map =
      rw (here, add_transaction_lock) refl in
    let before = interval_of-create tid t k m in
    elim (Bool-cases (tid == t)) [
      | inr other ↦
          rw (after, other, interval_of, find-set tid t new m'.transaction_map, other) before
      | inl same ↦
          let eq : tid ≡ t = (==_iff tid t).0 same in
          let here' = subst (λ x. Map.find x m'.transaction_map ≡ some info) eq here in
          let at_t : Map.find k info.intervals ≡ interval_of t k m.transaction_map =
            sym (rw (here', interval_of) refl) ∙ before in
          let grown = widen (Map.find key info.intervals) start end in
          rw (after, same, interval_of, find-set tid t new m'.transaction_map, same)
            (find-set key k grown info.intervals ∙ elim (Bool-cases (key == k)) [
              | inl s ↦ rw s (ap (λ x. some (widen x start end)) old)
              | inr o ↦ rw o at_t
            ])
    ]

-- What the interval of a transaction at a key is after a call: it holds the one it was and [start, end].
pub record Holds (old : Option Interval) (start end : ℕ) (pair : Interval) : Type 0 where
  pub low : pair.first ≤ start
  pub high : end ≤ pair.second
  pub kept : (o : Interval) → old ≡ some o → (pair.first ≤ o.first) × (o.second ≤ pair.second)

pub widen-Holds :
    (old : Option Interval) (start end : ℕ) → Holds old start end (widen old start end)
unfolding widen
widen-Holds none start end = record {
  low = omega arith;
  high = omega arith;
  kept = λ o e. absurd (none-some o e);
}
widen-Holds (some pair) start end = record {
  low = ground arith;
  high = ground arith;
  kept = λ o e.
      let eq : pair ≡ o = cc in
      subst
        (λ (x : Interval).
          ((widen (some pair) start end).first ≤ x.first)
          × (x.second ≤ (widen (some pair) start end).second))
        eq (ground arith, ground arith);
}

-- How the recorded intervals change: that of one transaction at one key grows, and no other does.
pub record Records (tid key start end : ℕ) (before after : Map TransactionInfo) : Type 0 where
  pub pair : Interval
  pub recorded : interval_of tid key after ≡ some pair
  pub holds : Holds (interval_of tid key before) start end pair
  pub unrecorded :
      (t k : ℕ)
      → ((tid == t) && (key == k)) ≡ false
      → interval_of t k after ≡ interval_of t k before

pub add_transaction_lock-Records :
    (tid key start end : ℕ) (m : LockManager)
    → Records tid key start end m.transaction_map
        (add_transaction_lock tid key start end m).transaction_map
add_transaction_lock-Records tid key start end m =
    let old = interval_of tid key m.transaction_map in
    record {
      pair = widen old start end;
      recorded =
          interval_of-add_transaction_lock tid key start end tid key m
          ∙ rw ((==_iff tid tid).1 refl, (==_iff key key).1 refl) refl;
      holds = widen-Holds old start end;
      unrecorded =
          λ t k other. interval_of-add_transaction_lock tid key start end t k m ∙ rw other refl;
    }
