-- ===== src/LockManager/Ready.antt =====
-- The intervals that src/AVLTreeLockManager.cc records for the transactions.
use mvtx.Prelude.{
  ℕ, ◌<◌, ◌^◌, ◌≡◌, refl, sym, ◌∙◌, subst, inl, inr, Option, none, some, [], ◌∷◌, arith, ◌==◌,
  Bool-cases, Option-cases, none-some, All,
}
use mvtx.Prelude.Map
use mvtx.Prelude.Map.{Map, find-set, All-set, set-IsSorted}
use mvtx.LockNode.{Tree}
use mvtx.LockManager.{
  Interval, TransactionInfo, LockManager, init, create_key_info, add_event, create_transaction_info,
  add_transaction_lock, widen, set_root,
}

abbrev pub InRange : Interval → Type 0
InRange pair = (0 < pair.first) × (pair.second < 2 ^ 64)

-- Intervals that start after time 0, one for each key.
abbrev pub IsReady : Map Interval → Type 0
IsReady intervals = All (λ entry. InRange entry.1) intervals × Map.IsSorted intervals

abbrev pub IsReadyManager : LockManager → Type 0
IsReadyManager m =
    (tid : ℕ) (info : TransactionInfo)
    → Map.find tid m.transaction_map ≡ some info
    → IsReady info.intervals

pub init-IsReadyManager : IsReadyManager init
unfolding Map.find
init-IsReadyManager tid info e = absurd (none-some info e)

-- The calls that leave the transactions alone.
pub create_key_info-transactions :
    (key : ℕ) (m : LockManager) → (create_key_info key m).transaction_map ≡ m.transaction_map
unfolding create_key_info
create_key_info-transactions key m = elim (Option-cases (Map.find key m.key_map)) [
  | inl absent ↦ rw (absent, create_key_info) refl
  | inr (info, here) ↦ rw (here, create_key_info) refl
]

pub add_event-transactions :
    (key ts event : ℕ) (m : LockManager)
    → (add_event key ts event m).transaction_map ≡ m.transaction_map
unfolding add_event
add_event-transactions key ts event m = elim (Option-cases (Map.find key m.key_map)) [
  | inl absent ↦ rw (absent, add_event) refl
  | inr (info, here) ↦ rw (here, add_event) refl
]

pub set_root-transactions :
    (key : ℕ) (t : Tree) (m : LockManager) → (set_root key t m).transaction_map ≡ m.transaction_map
unfolding set_root
set_root-transactions key t m = elim (Option-cases (Map.find key m.key_map)) [
  | inl absent ↦ rw (absent, set_root) refl
  | inr (info, here) ↦ rw (here, set_root) refl
]

find-All :
    (key : ℕ) (pair : Interval) (intervals : Map Interval)
    → All (λ entry. InRange entry.1) intervals
    → Map.find key intervals ≡ some pair
    → InRange pair
unfolding Map.find
find-All key pair [] h e = absurd (none-some pair e)
find-All key pair ((k, p) ∷ intervals) h e = elim (Bool-cases (k == key)) [
  | inl same ↦ let eq : p ≡ pair = (let e' = rw same at e in cc) in subst InRange eq h.0
  | inr other ↦ find-All key pair intervals h.1 (rw other at e)
]

widen-InRange :
    (old : Option Interval) (start end : ℕ)
    → ((pair : Interval) → old ≡ some pair → InRange pair)
    → 0 < start
    → end < 2 ^ 64
    → InRange (widen old start end)
unfolding widen
widen-InRange none start end h p q = (p, q)
widen-InRange (some pair) start end h p q = let k = h pair refl in ground (arith, k)

set-IsReadyManager :
    (tid : ℕ) (new : TransactionInfo) (m : LockManager)
    → IsReadyManager m
    → IsReady new.intervals
    → IsReadyManager (record m { transaction_map = Map.set tid new m.transaction_map })
set-IsReadyManager tid new m r w k info e =
    let e' = sym (find-set tid k new m.transaction_map) ∙ e in
    elim (Bool-cases (tid == k)) [
      | inl same ↦
          let eq : new ≡ info = (let e2 = rw same at e' in cc) in
          subst (λ (x : TransactionInfo). IsReady x.intervals) eq w
      | inr other ↦ r k info (rw other at e')
    ]

create_transaction_info-IsReadyManager :
    (tid : ℕ) (m : LockManager) → IsReadyManager m → IsReadyManager (create_transaction_info tid m)
unfolding create_transaction_info
create_transaction_info-IsReadyManager tid m r =
    elim (Option-cases (Map.find tid m.transaction_map)) [
      | inl absent ↦
          rw (absent, create_transaction_info)
            (set-IsReadyManager tid (record { intervals = [] }) m r (tt, tt))
      | inr (info, here) ↦ rw (here, create_transaction_info) r
    ]

pub add_transaction_lock-IsReadyManager :
    (tid key start end : ℕ) (m : LockManager)
    → IsReadyManager m
    → 0 < start
    → end < 2 ^ 64
    → IsReadyManager (add_transaction_lock tid key start end m)
unfolding add_transaction_lock
add_transaction_lock-IsReadyManager tid key start end m r p q =
    let m' = create_transaction_info tid m in
    let r' = create_transaction_info-IsReadyManager tid m r in
    elim (Option-cases (Map.find tid m'.transaction_map)) [
      | inl absent ↦ rw (absent, add_transaction_lock) r'
      | inr (info, here) ↦
          let old = r' tid info here in
          let pair = widen (Map.find key info.intervals) start end in
          let fits =
            widen-InRange (Map.find key info.intervals) start end
              (λ x e. find-All key x info.intervals old.0 e) p q in
          rw (here, add_transaction_lock)
            (set-IsReadyManager tid (record { intervals = Map.set key pair info.intervals }) m' r'
              (
                All-set (λ entry. InRange entry.1) key pair info.intervals fits old.0,
                set-IsSorted key pair info.intervals old.1,
              ))
    ]
