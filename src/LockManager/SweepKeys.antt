-- ===== src/LockManager/SweepKeys.antt =====
-- The loop of `freeze` and `unlock` in src/AVLTreeLockManager.cc over the keys of a transaction.
use mvtx.Prelude.{
  ℕ, suc, ◌<◌, ◌≡◌, refl, ap, sym, ◌∙◌, subst, Bool, inl, inr, none, some, List, [], ◌∷◌, arith,
  ◌==◌, ==_iff, Bool-cases, Option-cases, none-some, All,
}
use mathlib.Core.List.{map}
use mvtx.Prelude.Map
use mvtx.Prelude.Map.{Map, find-set_self, find-below}
use mvtx.Prelude.Run.{Run, ok}
use mvtx.LockNode.{Lock, Tree, find, size}
use mvtx.LockNode.Descending.{descending}
use mvtx.LockManager.{Interval, KeyInfo, LockManager, sweep, sweep_keys, set_root}
use mvtx.LockManager.Invariant.{IsValidManager, set_root-IsValidManager, set_root-other}
use mvtx.LockManager.Ready.{IsReady, set_root-transactions}
use mvtx.LockManager.SweepTree.{sweep_one, wake}
use mvtx.LockManager.SweepTimes.{TreeSwept, sweep-TreeSwept}

-- The events that a sweep of all intervals collects.
abbrev pub woken : (Lock → Lock × Bool) → Map Interval → LockManager → List ℕ → List ℕ
woken change [] m events = events
woken change ((key, pair) ∷ intervals) m events =
    woken change intervals m (elim (Map.find key m.key_map) [
      | none ↦ events
      | some info ↦ wake change pair.first pair.second info.events (descending info.root) events
    ])

-- The nodes of a key after the sweep of its interval; its waiting events stay.
abbrev pub KeySwept : (Lock → Lock × Bool) → Interval → KeyInfo → KeyInfo → Type 0
KeySwept change pair info info' =
    (descending info'.root ≡ map (sweep_one change pair.first pair.second) (descending info.root))
    × (info'.events ≡ info.events)

pub record Swept (change : Lock → Lock × Bool) (intervals : Map Interval) (m : LockManager)
    (events : List ℕ) (out : Run (LockManager × List ℕ)) : Type 0 where
  pub manager : LockManager
  pub runs : out ≡ ok (manager, woken change intervals m events)
  pub transactions : manager.transaction_map ≡ m.transaction_map
  pub valid : IsValidManager manager
  pub inside :
      (key : ℕ) (pair : Interval) (info : KeyInfo)
      → Map.find key intervals ≡ some pair
      → Map.find key m.key_map ≡ some info
      → (info' : KeyInfo) × (Map.find key manager.key_map ≡ some info')
        × KeySwept change pair info info'
  pub outside :
      (key : ℕ)
      → Map.find key intervals ≡ none
      → Map.find key manager.key_map ≡ Map.find key m.key_map

module _ (change : Lock → Lock × Bool) where
  -- A tree that is set at a key does not change what is done for the keys after it.
  woken-set_root :
      (k : ℕ) (t : Tree) (intervals : Map Interval) (m : LockManager) (events : List ℕ)
      → All (λ entry. k < entry.0) intervals
      → woken change intervals (set_root k t m) events ≡ woken change intervals m events
  woken-set_root k t [] m events h = refl
  woken-set_root k t ((key, pair) ∷ intervals) m events h =
      rw (set_root-other k key (ground (arith, h.0)) t m) (woken-set_root k t intervals m _ h.1)

  -- The key has no tree: its interval is passed over.
  sweep_absent :
      (key : ℕ) (pair : Interval) (intervals : Map Interval) (m : LockManager) (events : List ℕ)
      → Map.find key m.key_map ≡ none
      → Swept change intervals m events (sweep_keys change intervals m events)
      → Swept change
          ((key, pair) ∷ intervals)
          m
          events
          (sweep_keys change ((key, pair) ∷ intervals) m events)
  unfolding sweep_keys Map.find
  sweep_absent key pair intervals m events absent s = record {
    manager = s.manager;
    runs = rw (absent, sweep_keys) s.runs;
    transactions = s.transactions;
    valid = s.valid;
    inside = λ k p info e f. elim (Bool-cases (key == k)) [
      | inl same ↦ let eq = (==_iff key k).0 same in absurd (none-some info (cc))
      | inr other ↦ s.inside k p info (rw other at e) f
    ];
    outside = λ k e. elim (Bool-cases (key == k)) [
      | inl same ↦ absurd (none-some pair (sym (rw same at e)))
      | inr other ↦ s.outside k (rw other at e)
    ];
  }

  set_root-info :
      (key : ℕ) (t : Tree) (m : LockManager) (info : KeyInfo)
      → Map.find key m.key_map ≡ some info
      → Map.find key (set_root key t m).key_map ≡ some (record info { root = t })
  unfolding set_root
  set_root-info key t m info here =
      rw (here, set_root) (find-set_self key (record info { root = t }) m.key_map)

  -- The tree of the key is swept, and then the keys after it.
  sweep_present :
      (key : ℕ) (pair : Interval) (intervals : Map Interval) (m : LockManager) (events : List ℕ)
      (info : KeyInfo)
      → Map.find key m.key_map ≡ some info
      → All (λ entry. key < entry.0) intervals
      → (w : TreeSwept change pair.first pair.second info.events info.root events (
          sweep change
            (suc (suc (size info.root)))
            pair.first
            pair.second
            info.events
            info.root
            (find info.root pair.second [])
            events))
      → let m1 = set_root key w.root' m in
        let events' =
          wake change pair.first pair.second info.events (descending info.root) events in
        Swept change intervals m1 events' (sweep_keys change intervals m1 events')
        → Swept change
            ((key, pair) ∷ intervals)
            m
            events
            (sweep_keys change ((key, pair) ∷ intervals) m events)
  unfolding sweep_keys Map.find
  sweep_present key pair intervals m events info here above w s =
      let events' = wake change pair.first pair.second info.events (descending info.root) events in
      let same_rest = woken-set_root key w.root' intervals m events' above in
      record {
        manager = s.manager;
        runs = rw (here, sweep_keys) (rw w.runs (s.runs ∙ ap (λ x. ok (s.manager, x)) same_rest));
        transactions = s.transactions ∙ set_root-transactions key w.root' m;
        valid = s.valid;
        inside = λ k p i e f. elim (Bool-cases (key == k)) [
          | inl same ↦
              let eq : key ≡ k = (==_iff key k).0 same in
              let eq_pair : pair ≡ p = (let e' = rw same at e in cc) in
              let eq_info : info ≡ i = cc in
              let new : KeyInfo = record info { root = w.root' } in
              let there =
                s.outside key (find-below key intervals above)
                ∙ set_root-info key w.root' m info here in
              subst
                (λ x.
                  (y : KeyInfo) × (Map.find x s.manager.key_map ≡ some y) × KeySwept change p i y)
                eq
                (
                  new,
                  there,
                  subst (λ x. KeySwept change x i new) eq_pair
                      (subst (λ x. KeySwept change pair x new) eq_info (w.nodes, refl)),
                )
          | inr other ↦ s.inside k p i (rw other at e) (set_root-other key k other w.root' m ∙ f)
        ];
        outside = λ k e. elim (Bool-cases (key == k)) [
          | inl same ↦ absurd (none-some pair (sym (rw same at e)))
          | inr other ↦ s.outside k (rw other at e) ∙ set_root-other key k other w.root' m
        ];
      }

-- If the trees of all keys are valid, the loop of `freeze` and `unlock` over intervals of different keys
-- that start after 0 ends without a fault. Each key with an interval is swept, from its interval and
-- with the nodes that it had before; the other keys and the transactions stay as they are, all trees
-- are valid, and the events are those that wait for the ends of the changed nodes.
pub sweep_keys-Swept :
    (change : Lock → Lock × Bool) (intervals : Map Interval) (m : LockManager) (events : List ℕ)
    → IsValidManager m
    → IsReady intervals
    → Swept change intervals m events (sweep_keys change intervals m events)
unfolding sweep_keys Map.find
sweep_keys-Swept change [] m events v ready = record {
  manager = m;
  runs = refl;
  transactions = refl;
  valid = v;
  inside = λ key pair info e f. absurd (none-some pair e);
  outside = λ key e. refl;
}
sweep_keys-Swept change ((key, pair) ∷ intervals) m events v ready =
    elim (Option-cases (Map.find key m.key_map)) [
      | inl absent ↦
          sweep_absent change key pair intervals m events absent
            (sweep_keys-Swept change intervals m events v (ready.0.1, ready.1.1))
      | inr (info, here) ↦
          let w =
            sweep-TreeSwept change pair.first pair.second info.events info.root events
              (v key info here) ready.0.0.0 ready.0.0.1 in
          let m1 = set_root key w.root' m in
          let events' =
            wake change pair.first pair.second info.events (descending info.root) events in
          sweep_present change key pair intervals m events info here ready.1.0 w (
            sweep_keys-Swept change intervals m1 events'
              (set_root-IsValidManager key w.root' m v w.valid) (ready.0.1, ready.1.1))
    ]
