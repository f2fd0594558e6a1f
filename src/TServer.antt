-- ===== src/TServer.antt =====
-- src/TServer.h and src/SimpleTServer.{h,cc}: the multi-version store of a server and the writes of its
-- transactions. A null pointer to a string is `none`.
pub mod Store
pub mod Tests
use mvtx.Prelude.{
  ℕ, zero, suc, ◌+◌, Bool, true, false, Option, none, some, List, [], ◌∷◌, ◌++◌, if◌then◌else◌,
  ◌==◌,
}
use mvtx.Prelude.Map
use mvtx.Prelude.Map.{Map}
use mvtx.Prelude.Set
use mvtx.Request.{Bytes}

-- A pending write.
pub record Write : Type 0 where
  pub key : ℕ
  pub value : Bytes

-- The two mutexes are held or not.
pub record TServer : Type 0 where
  pub nodes : List ℕ
  pub store : Map (Map Bytes)
  pub pend_writes : Map (List Write)
  pub rdy_to_commit : Map ℕ
  pub tid_to_nodes : Map (List ℕ)
  pub tid_to_write_nodes : Map (List ℕ)
  pub tid_mutex : Bool
  pub tid_write_mutex : Bool

abbrev pub new_tserver : TServer
new_tserver = record {
  nodes = 0 ∷ [];
  store = [];
  pend_writes = [];
  rdy_to_commit = [];
  tid_to_nodes = [];
  tid_to_write_nodes = [];
  tid_mutex = false;
  tid_write_mutex = false;
}

-- The value of every key at time 0, the text "0".
abbrev pub initial_value : Bytes
initial_value = 48 ∷ []

-- The versions of a key.
unfoldable pub versions : ℕ → TServer → Map Bytes
versions key s = elim (Map.find key s.store) [ none ↦ [] | some vs ↦ vs ]

unfoldable pub get : ℕ → ℕ → TServer → Option Bytes
get key ts s =
    if ts == 0
    then some initial_value
    else elim (Map.find key s.store) [ none ↦ none | some vs ↦ Map.find ts vs ]

unfoldable pub set : ℕ → ℕ → Bytes → TServer → TServer
unfolding versions
set key ts value s = record s { store = Map.set key (Map.set ts value (versions key s)) s.store }

-- The pending writes of a transaction, or no writes.
unfoldable pub writes_of : ℕ → TServer → List Write
writes_of tid s = elim (Map.find tid s.pend_writes) [ none ↦ [] | some ws ↦ ws ]

unfoldable pub add : ℕ → ℕ → Bytes → TServer → TServer
unfolding writes_of
add tid key value s = record s {
  pend_writes =
      Map.set tid (writes_of tid s ++ (record { key = key; value = value } ∷ [])) s.pend_writes;
}

abbrev pub keys_of : List Write → List ℕ
keys_of [] = []
keys_of (w ∷ ws) = w.key ∷ keys_of ws

unfoldable pub get_keys : ℕ → TServer → List ℕ
unfolding writes_of
get_keys tid s = keys_of (writes_of tid s)

unfoldable pub prepare : ℕ → ℕ → TServer → TServer
prepare tid ts s = record s { rdy_to_commit = Map.set tid ts s.rdy_to_commit }

-- The loop of `finalize`.
unfoldable pub set_all : ℕ → List Write → TServer → TServer
unfolding set
set_all ts [] s = s
set_all ts (w ∷ ws) s = set_all ts ws (set w.key ts w.value s)

unfoldable pub finalize : ℕ → Bool → TServer → TServer
unfolding set_all
finalize tid success s = elim (Map.find tid s.rdy_to_commit) [
  | none ↦ s
  | some ts ↦ elim (Map.find tid s.pend_writes) [
    | none ↦ record s { rdy_to_commit = Map.erase tid s.rdy_to_commit }
    | some ws ↦
        let s' = if success then set_all ts ws s else s in
        record s' {
          pend_writes = Map.erase tid s'.pend_writes;
          rdy_to_commit = Map.erase tid s'.rdy_to_commit;
        }
  ]
]
