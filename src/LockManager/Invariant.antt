-- ===== src/LockManager/Invariant.antt =====
-- The trees of all keys under the operations on the maps in src/AVLTreeLockManager.cc.
use mvtx.Prelude.{
  ℕ, ◌≡◌, refl, sym, ◌∙◌, subst, false, inl, inr, Option, none, some, [], Bool-cases, Option-cases,
  arith, ◌==◌,
}
use mvtx.Prelude.Map
use mvtx.Prelude.Map.{find-set, find-set_self}
use mvtx.Prelude.Set
use mvtx.LockNode.{Tree, insert, climb, rebalance, swap, child_height, update_height, new_lock}
use mvtx.LockNode.Descending.{has_addr}
use mvtx.LockManager.{
  KeyInfo, LockManager, init, initial_root, create_key_info, events_at, add_event,
  create_transaction_info, add_transaction_lock, set_root, root_of,
}
use mvtx.LockManager.Valid.{IsValid}

pub initial_root-IsValid : IsValid initial_root
unfolding initial_root insert climb rebalance swap child_height update_height new_lock has_addr
initial_root-IsValid = record {
  covers = (refl, omega arith, (refl, omega arith, refl));
  distinct = (refl, (refl, tt));
  grounded = (inl (omega arith), (inr (refl, refl), tt));
  balanced =
      (refl, refl, omega arith, omega arith, tt, (refl, refl, omega arith, omega arith, tt, tt));
}

abbrev pub IsValidManager : LockManager → Type 0
IsValidManager m =
    (key : ℕ) (info : KeyInfo) → Map.find key m.key_map ≡ some info → IsValid info.root

pub init-IsValidManager : IsValidManager init
unfolding Map.find
init-IsValidManager key info e =
    subst
      (λ (o : Option KeyInfo). elim o as (λ x. Type 0) [
        | none ↦ Unit {0}
        | some i ↦ IsValid i.root
      ])
      e tt

-- A key that is set to a valid tree.
IsValid-set :
    (m : Map.Map KeyInfo) (key : ℕ) (new : KeyInfo)
    → ((k : ℕ) (info : KeyInfo) → Map.find k m ≡ some info → IsValid info.root)
    → IsValid new.root
    → (k : ℕ) (info : KeyInfo) → Map.find k (Map.set key new m) ≡ some info
    → IsValid info.root
IsValid-set m key new v w k info e =
    let e' = sym (find-set key k new m) ∙ e in
    elim (Bool-cases (key == k)) [
      | inl same ↦
          let e2 : new ≡ info = (let e3 = rw same at e' in cc) in
          subst (λ (x : KeyInfo). IsValid x.root) e2 w
      | inr other ↦ v k info (rw other at e')
    ]

pub create_key_info-IsValidManager :
    (key : ℕ) (m : LockManager) → IsValidManager m → IsValidManager (create_key_info key m)
unfolding create_key_info
create_key_info-IsValidManager key m v = elim (Option-cases (Map.find key m.key_map)) [
  | inl absent ↦
      rw (absent, create_key_info)
        (IsValid-set m.key_map key (record { events = []; root = initial_root }) v
          initial_root-IsValid)
  | inr (info, here) ↦ rw (here, create_key_info) v
]

pub add_event-IsValidManager :
    (key ts event : ℕ) (m : LockManager)
    → IsValidManager m
    → IsValidManager (add_event key ts event m)
unfolding add_event
add_event-IsValidManager key ts event m v = elim (Option-cases (Map.find key m.key_map)) [
  | inl absent ↦ rw (absent, add_event) v
  | inr (info, here) ↦
      rw (here, add_event)
        (IsValid-set m.key_map key
          (record info {
            events = Map.set ts (Set.insert event (events_at ts info.events)) info.events;
          })
          v (v key info here))
]

pub set_root-IsValidManager :
    (key : ℕ) (t : Tree) (m : LockManager)
    → IsValidManager m
    → IsValid t
    → IsValidManager (set_root key t m)
unfolding set_root
set_root-IsValidManager key t m v w = elim (Option-cases (Map.find key m.key_map)) [
  | inl absent ↦ rw (absent, set_root) v
  | inr (info, here) ↦
      rw (here, set_root) (IsValid-set m.key_map key (record info { root = t }) v w)
]

pub create_key_info-there :
    (key : ℕ) (m : LockManager)
    → (info : KeyInfo) × (Map.find key (create_key_info key m).key_map ≡ some info)
unfolding create_key_info
create_key_info-there key m = elim (Option-cases (Map.find key m.key_map)) [
  | inl absent ↦ (
    record { events = []; root = initial_root },
    rw (absent, create_key_info)
        (find-set_self key (record { events = []; root = initial_root }) m.key_map),
  )
  | inr (info, here) ↦ (info, rw (here, create_key_info) here)
]

create_transaction_info-keys :
    (tid : ℕ) (m : LockManager) → (create_transaction_info tid m).key_map ≡ m.key_map
unfolding create_transaction_info
create_transaction_info-keys tid m = elim (Option-cases (Map.find tid m.transaction_map)) [
  | inl absent ↦ rw (absent, create_transaction_info) refl
  | inr (info, here) ↦ rw (here, create_transaction_info) refl
]

pub add_transaction_lock-keys :
    (tid key start end : ℕ) (m : LockManager)
    → (add_transaction_lock tid key start end m).key_map ≡ m.key_map
unfolding add_transaction_lock
add_transaction_lock-keys tid key start end m =
    let k = create_transaction_info-keys tid m in
    elim (Option-cases (Map.find tid (create_transaction_info tid m).transaction_map)) [
      | inl absent ↦ rw (absent, add_transaction_lock) k
      | inr (info, here) ↦ rw (here, add_transaction_lock) k
    ]

-- What the operations on the maps do to the keys.
pub add_event-there :
    (key ts event : ℕ) (m : LockManager) (info : KeyInfo)
    → Map.find key m.key_map ≡ some info
    → (info' : KeyInfo) × (Map.find key (add_event key ts event m).key_map ≡ some info')
unfolding add_event
add_event-there key ts event m info here =
    let new : KeyInfo = record info {
      events = Map.set ts (Set.insert event (events_at ts info.events)) info.events;
    } in
    (new, rw (here, add_event) (find-set_self key new m.key_map))

pub root_of-set_root :
    (key : ℕ) (t : Tree) (m : LockManager) (info : KeyInfo)
    → Map.find key m.key_map ≡ some info
    → root_of key (set_root key t m) ≡ t
unfolding set_root root_of
root_of-set_root key t m info here =
    let new : KeyInfo = record info { root = t } in
    rw (here, set_root) (rw (find-set_self key new m.key_map, root_of) refl)

-- Other keys are left alone.
module _ (key k : ℕ) (other : (key == k) ≡ false) where
  pub create_key_info-other :
      (m : LockManager) → Map.find k (create_key_info key m).key_map ≡ Map.find k m.key_map
  unfolding create_key_info
  create_key_info-other m = elim (Option-cases (Map.find key m.key_map)) [
    | inl absent ↦
        rw (absent, create_key_info)
          (find-set key k (record { events = []; root = initial_root }) m.key_map ∙ rw other refl)
    | inr (info, here) ↦ rw (here, create_key_info) refl
  ]

  pub add_event-other :
      (ts event : ℕ) (m : LockManager)
      → Map.find k (add_event key ts event m).key_map ≡ Map.find k m.key_map
  unfolding add_event
  add_event-other ts event m = elim (Option-cases (Map.find key m.key_map)) [
    | inl absent ↦ rw (absent, add_event) refl
    | inr (info, here) ↦
        rw (here, add_event)
          (find-set key k
              (record info {
                events = Map.set ts (Set.insert event (events_at ts info.events)) info.events;
              })
              m.key_map
            ∙ rw other refl)
  ]

  pub set_root-other :
      (t : Tree) (m : LockManager) → Map.find k (set_root key t m).key_map ≡ Map.find k m.key_map
  unfolding set_root
  set_root-other t m = elim (Option-cases (Map.find key m.key_map)) [
    | inl absent ↦ rw (absent, set_root) refl
    | inr (info, here) ↦
        rw (here, set_root) (find-set key k (record info { root = t }) m.key_map ∙ rw other refl)
  ]
