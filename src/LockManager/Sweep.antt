-- ===== src/LockManager/Sweep.antt =====
-- The walk of `freeze` and `unlock` in src/AVLTreeLockManager.cc against a description on the list of the
-- nodes: change the nodes from the end of the interval down to its start.
use mvtx.Prelude.{
  ℕ, zero, suc, ◌+◌, ◌-◌, ◌<◌, ◌^◌, ◌≡◌, refl, ap, sym, ◌∙◌, subst, Bool, true, false, inl, inr,
  some, List, [], ◌∷◌, ◌++◌, append_assoc, arith, if◌then◌else◌, leb, Bool-cases, length, All,
  dec64,
}
use mvtx.Prelude.Map.{Map}
use mvtx.Prelude.Set
use mvtx.Prelude.Run.{Run, ok}
use mvtx.LockNode.{Lock, Tree, node, get, modify}
use mvtx.LockNode.Balance.{IsBalanced, modify-IsBalanced}
use mvtx.LockNode.Descending.{descending, Distinct}
use mvtx.LockNode.Find.{PathTo, entry, bottom, Covers}
use mvtx.LockManager.Valid.{IsGrounded}
use mvtx.LockManager.Backward.{
  Holds, Covers-Holds, find_from-PathTo, descending-modify_one, modify_one-Distinct, dec64-pos,
}
use mvtx.LockManager.{with_state, sweep, find_from, events_at}

-- What a sweep does to one node.
abbrev pub changed : (Lock → Lock × Bool) → Lock → Lock
changed change n = with_state (change n).0.status (change n).0.tids n

-- The nodes after the sweep from the time `cur`.
abbrev pub swept : (Lock → Lock × Bool) → ℕ → ℕ → List Lock → List Lock
swept change ts_start cur [] = []
swept change ts_start cur (n ∷ d) =
    if leb ts_start cur then changed change n ∷ swept change ts_start (n.start - 1) d else n ∷ d

-- The events with those that wait for the end of a node added.
abbrev pub with_events : Bool → ℕ → Map (List ℕ) → List ℕ → List ℕ
with_events b end waiting events =
    if b then Set.insert_all (events_at end waiting) events else events

-- The events that the sweep collects.
abbrev pub collected : (Lock → Lock × Bool) → ℕ → Map (List ℕ) → ℕ → List Lock → List ℕ → List ℕ
collected change ts_start waiting cur [] events = events
collected change ts_start waiting cur (n ∷ d) events =
    if leb ts_start cur
    then collected change ts_start waiting (n.start - 1) d
        (with_events (change n).1 n.end waiting events)
    else events

pub record Swept (change : Lock → Lock × Bool) (ts_start cur : ℕ) (waiting : Map (List ℕ))
    (root : Tree) (upper d : List Lock) (events : List ℕ) (out : Run (Tree × List ℕ)) : Type 0 where
  pub root' : Tree
  pub runs : out ≡ ok (root', collected change ts_start waiting cur d events)
  pub nodes : descending root' ≡ upper ++ swept change ts_start cur d
  pub balanced : IsBalanced root → IsBalanced root'

-- One round, and the end.
module _ (change : Lock → Lock × Bool) (fuel ts_start cur : ℕ) (waiting : Map (List ℕ))
    (root : Tree) (a : ℕ) (locks events : List ℕ) where
  sweep-stop :
      leb ts_start cur ≡ false
      → sweep change (suc fuel) ts_start cur waiting root (a ∷ locks) events ≡ ok (root, events)
  unfolding sweep
  sweep-stop stop = rw stop refl

  sweep-round :
      (n : Lock) (lh rh : ℕ) (l r : Tree)
      → leb ts_start cur ≡ true
      → get a root ≡ some (node n lh rh l r)
      → let root' = modify a (with_state (change n).0.status (change n).0.tids) root in
        sweep change (suc fuel) ts_start cur waiting root (a ∷ locks) events
        ≡ sweep change fuel ts_start
            (dec64 n.start)
            waiting
            root'
            (find_from a root' (dec64 n.start) locks)
            (with_events (change n).1 n.end waiting events)
  unfolding sweep
  sweep-round n lh rh l r go at = rw (go, at, sweep) refl

grounded-pos : (n : Lock) → IsGrounded n → 0 < n.end → 0 < n.start
grounded-pos n (inl h) p = h
grounded-pos n (inr (frozen, last)) p = absurd (omega arith)

-- The loop of `freeze` and `unlock`, from a vector that is a path to the descending nodes `d`, of which
-- the first holds the end of the interval, with distinct addresses, intervals without gaps down to 0 and 0
-- frozen alone: for an interval that starts after 0, with one unit of fuel for each node, it ends without
-- a fault with the tree and the events that the descriptions on the list give.
pub sweep-Swept :
    (change : Lock → Lock × Bool) (fuel ts_start cur hi : ℕ) (waiting : Map (List ℕ)) (root : Tree)
    (locks events : List ℕ) (upper d : List Lock)
    → PathTo root locks d
    → descending root ≡ upper ++ d
    → Distinct (upper ++ d)
    → Covers 0 hi d
    → All IsGrounded d
    → Holds cur d
    → 0 < ts_start
    → cur < 2 ^ 64
    → length d < fuel + 1
    → Swept change ts_start cur waiting root upper d events
        (sweep change fuel ts_start cur waiting root locks events)
sweep-Swept change fuel ts_start cur hi waiting root locks events upper d bottom s dist c g h pos
      small enough =
    absurd h
sweep-Swept change zero ts_start cur hi waiting root locks events upper d (entry at here w split p)
      s dist c g h pos small enough =
    absurd (omega (arith, ap length split))
sweep-Swept change (suc fuel) ts_start cur hi waiting root locks events upper d
      (entry {n} {lh} {rh} {a} {l} {r} {locks = rest} {d = d1} at here w split p) s dist c g h pos
      small enough =
    let tail = descending l ++ d1 in
    let s' = subst (λ x. descending root ≡ upper ++ x) split s in
    let dist' = subst (λ x. Distinct (upper ++ x)) split dist in
    let c' = subst (Covers 0 hi) split c in
    let g' = subst (All IsGrounded) split g in
    let h' = subst (Holds cur) split h in
    let at' = subst (λ x. get x root ≡ some (node n lh rh l r)) here at in
    let f = with_state (change n).0.status (change n).0.tids in
    let root' = modify n.addr f root in
    rw (split, here)
      (elim (Bool-cases (leb ts_start cur)) [
        | inl go ↦
            let positive : 0 < n.end = ground arith in
            let above = grounded-pos n g'.0 positive in
            let dec = dec64-pos n.start above (omega arith) in
            let path =
              find_from-PathTo f root rest upper d1 n lh rh l r (λ m. refl) refl at' w p c'.2 above
                dist' in
            let nodes = descending-modify_one f root upper tail n s' dist' in
            let events' = with_events (change n).1 n.end waiting events in
            let rest_sweep =
              sweep-Swept change fuel ts_start (n.start - 1) n.start waiting root'
                (find_from n.addr root' (n.start - 1) rest) events' (upper ++ (f n ∷ [])) tail path
                (nodes ∙ sym (append_assoc upper (f n ∷ []) tail))
                (rw (append_assoc upper (f n ∷ []) tail)
                  (modify_one-Distinct f upper tail n (λ m. refl) dist'))
                c'.2 g'.1 (Covers-Holds 0 n.start tail c'.2 above) pos (omega arith)
                (omega (arith, ap length split)) in
            record {
              root' = rest_sweep.root';
              runs = rw go (
                  sweep-round change fuel ts_start cur waiting root n.addr rest events n lh rh l r
                    go at'
                  ∙ rw dec rest_sweep.runs);
              nodes = rw go (
                  rest_sweep.nodes
                  ∙ append_assoc upper (f n ∷ []) (swept change ts_start (n.start - 1) tail));
              balanced = λ b. rest_sweep.balanced (modify-IsBalanced n.addr f root b);
            }
        | inr stop ↦ record {
          root' = root;
          runs = rw stop (sweep-stop change fuel ts_start cur waiting root n.addr rest events stop);
          nodes = rw stop s';
          balanced = λ b. b;
        }
      ])
