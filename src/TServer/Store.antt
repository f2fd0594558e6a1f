-- ===== src/TServer/Store.antt =====
-- The contract of the store of src/SimpleTServer.cc: which value a key has at a time.
use mvtx.Prelude.{
  ℕ, ◌≡◌, refl, ap, ◌∙◌, Bool, true, false, ◌&&◌, Option, none, some, List, [], ◌∷◌, if◌then◌else◌,
  ◌==◌, ==_iff, arith, Option-cases, Bool-cases, inl, inr,
}
use mvtx.Prelude.Map
use mvtx.Prelude.Map.{find-set, find-set_self, find-erase}
use mvtx.Request.{Bytes}
use mvtx.TServer.{Write, TServer, get, set, set_all, versions, writes_of, finalize, initial_value}

get-versions :
    (k t : ℕ) (s : TServer)
    → get k t s ≡ (if t == 0 then some initial_value else Map.find t (versions k s))
unfolding get versions Map.find
get-versions k t s = elim (Option-cases (Map.find k s.store)) [
  | inl none_ ↦ rw (none_, get, versions) refl
  | inr (vs, at) ↦ rw (at, get, versions) refl
]

versions-set :
    (key ts k : ℕ) (value : Bytes) (s : TServer)
    → versions k (set key ts value s)
      ≡ (if key == k then Map.set ts value (versions key s) else versions k s)
unfolding versions set
versions-set key ts k value s =
    let new = Map.set ts value (versions key s) in
    let e = find-set key k new s.store in
    elim (Bool-cases (key == k)) [
      | inl same ↦ let e' = rw same at e in rw (same, e', versions) refl
      | inr other ↦ let e' = rw other at e in rw (other, e', versions) refl
    ]

-- A write of a version is read back, and changes no other version. Time 0 is fixed.
pub get-set :
    (key ts k t : ℕ) (value : Bytes) (s : TServer)
    → get k t (set key ts value s) ≡ (
        if t == 0
        then some initial_value
        else if (key == k) && (ts == t)
        then some value
        else get k t s)
get-set key ts k t value s =
    rw (get-versions k t (set key ts value s), versions-set key ts k value s, get-versions k t s)
      (elim (Bool-cases (key == k)) [
        | inl same ↦
            let e : key ≡ k = (==_iff key k).0 same in
            rw (same, find-set ts t value (versions key s), e) (ground arith)
        | inr other ↦ rw other (ground arith)
      ])

pub get_start : (k t : ℕ) (s : TServer) → (t == 0) ≡ true → get k t s ≡ some initial_value
unfolding get
get_start k t s e = rw (e, get) refl

-- The last write to a key, if any.
abbrev pub last_write : ℕ → List Write → Option Bytes → Option Bytes
last_write k [] old = old
last_write k (w ∷ ws) old = last_write k ws (if w.key == k then some w.value else old)

pub get-set_all :
    (ts k t : ℕ) (ws : List Write) (s : TServer)
    → get k t (set_all ts ws s) ≡ (
        if t == 0
        then some initial_value
        else if ts == t
        then last_write k ws (get k t s)
        else get k t s)
unfolding set_all
get-set_all ts k t [] s = ground (arith, get_start k t s)
get-set_all ts k t (w ∷ ws) s =
    get-set_all ts k t ws (set w.key ts w.value s)
    ∙ rw (get-set w.key ts k t w.value s) (ground arith)

-- What `finalize` makes of a transaction that is prepared at `ts`.
pub record Finalized (tid ts : ℕ) (success : Bool) (s : TServer) : Type 0 where
  pub values :
      (k t : ℕ)
      → get k t (finalize tid success s) ≡ (
          if t == 0
          then some initial_value
          else if success && (ts == t)
          then last_write k (writes_of tid s) (get k t s)
          else get k t s)
  pub dropped :
      (writes_of tid (finalize tid success s) ≡ [])
      × (Map.find tid (finalize tid success s).rdy_to_commit ≡ none)
  pub kept :
      (other : ℕ)
      → (tid == other) ≡ false
      → (Map.find other (finalize tid success s).pend_writes ≡ Map.find other s.pend_writes)
        × (Map.find other (finalize tid success s).rdy_to_commit ≡ Map.find other s.rdy_to_commit)
  pub requests :
      (((finalize tid success s).tid_to_nodes ≡ s.tid_to_nodes)
        × ((finalize tid success s).tid_to_write_nodes ≡ s.tid_to_write_nodes))
      × ((finalize tid success s).nodes ≡ s.nodes)
      × ((finalize tid success s).tid_mutex ≡ s.tid_mutex)
      × ((finalize tid success s).tid_write_mutex ≡ s.tid_write_mutex)

-- All of the server but the store.
abbrev others : TServer → TServer
others s = record s { store = [] }

set_all-others : (ts : ℕ) (ws : List Write) (s : TServer) → others (set_all ts ws s) ≡ others s
unfolding set_all set
set_all-others ts [] s = refl
set_all-others ts (w ∷ ws) s = set_all-others ts ws (set w.key ts w.value s)

-- `finalize` after its two tests.
apply_all : ℕ → Bool → List Write → TServer → TServer
apply_all ts success ws s = if success then set_all ts ws s else s

get-apply_all :
    (ts : ℕ) (success : Bool) (k t : ℕ) (ws : List Write) (s : TServer)
    → get k t (apply_all ts success ws s) ≡ (
        if t == 0
        then some initial_value
        else if success && (ts == t)
        then last_write k ws (get k t s)
        else get k t s)
unfolding apply_all
get-apply_all ts true k t ws s = get-set_all ts k t ws s
get-apply_all ts false k t ws s = ground (arith, get_start k t s)

apply_all-others :
    (ts : ℕ) (success : Bool) (ws : List Write) (s : TServer)
    → others (apply_all ts success ws s) ≡ others s
unfolding apply_all
apply_all-others ts true ws s = set_all-others ts ws s
apply_all-others ts false ws s = refl

drop : ℕ → TServer → TServer
drop tid s = record s {
  pend_writes = Map.erase tid s.pend_writes;
  rdy_to_commit = Map.erase tid s.rdy_to_commit;
}

get-drop : (tid k t : ℕ) (s : TServer) → get k t (drop tid s) ≡ get k t s
unfolding get drop
get-drop tid k t s = refl

finalize-eq :
    (tid ts : ℕ) (success : Bool) (ws : List Write) (s : TServer)
    → Map.find tid s.rdy_to_commit ≡ some ts
    → Map.find tid s.pend_writes ≡ some ws
    → finalize tid success s ≡ drop tid (apply_all ts success ws s)
unfolding finalize apply_all drop
finalize-eq tid ts success ws s r w = rw (r, finalize, w) refl

-- For a transaction that is prepared at `ts` and has pending writes, `finalize` gives each key its last
-- written value at `ts` if it succeeds, and changes no other version; time 0 is never changed. The
-- transaction is neither pending nor prepared afterwards. The pending writes of each other transaction and the
-- time at which it is prepared stay, and so do the nodes, the mutexes and the nodes noted for transactions.
pub finalize-Finalized :
    (tid ts : ℕ) (success : Bool) (s : TServer) (ws : List Write)
    → Map.find tid s.rdy_to_commit ≡ some ts
    → Map.find tid s.pend_writes ≡ some ws
    → Finalized tid ts success s
unfolding writes_of drop
finalize-Finalized tid ts success s ws r w =
    let e = finalize-eq tid ts success ws s r w in
    let rest : others (finalize tid success s) ≡ drop tid (others s) =
      ap others e ∙ ap (drop tid) (apply_all-others ts success ws s) in
    let self : (tid == tid) ≡ true = (==_iff tid tid).1 refl in
    let gone = rw self at (find-erase tid tid s.pend_writes) in
    let no_writes : Map.find tid (finalize tid success s).pend_writes ≡ none =
      ap (λ (x : TServer). Map.find tid x.pend_writes) rest ∙ gone in
    record {
      values = λ k t.
          ap (get k t) e
          ∙ get-drop tid k t (apply_all ts success ws s)
          ∙ rw (w, writes_of) (get-apply_all ts success k t ws s);
      dropped = (
        rw (no_writes, writes_of) refl,
        ap (λ (x : TServer). Map.find tid x.rdy_to_commit) rest
            ∙ find-erase tid tid s.rdy_to_commit
            ∙ rw self refl,
      );
      kept = λ o ne. (
        ap (λ (x : TServer). Map.find o x.pend_writes) rest
            ∙ find-erase tid o s.pend_writes
            ∙ rw ne refl,
        ap (λ (x : TServer). Map.find o x.rdy_to_commit) rest
            ∙ find-erase tid o s.rdy_to_commit
            ∙ rw ne refl,
      );
      requests = (
        (
          ap (λ (x : TServer). x.tid_to_nodes) rest,
          ap (λ (x : TServer). x.tid_to_write_nodes) rest,
        ),
        ap (λ (x : TServer). x.nodes) rest,
        ap (λ (x : TServer). x.tid_mutex) rest,
        ap (λ (x : TServer). x.tid_write_mutex) rest,
      );
    }
