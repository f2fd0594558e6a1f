-- ===== src/LockManager/SweepTree.antt =====
-- The walk of `freeze` and `unlock` in src/AVLTreeLockManager.cc on the tree of a key, time by time.
use mvtx.Prelude.{
  ℕ, ◌+◌, ◌-◌, ◌<◌, ◌≤◌, ◌≡◌, refl, sym, ◌∙◌, Bool, true, false, ◌&&◌, inl, inr, List, [], ◌∷◌,
  ◌++◌, arith, if◌then◌else◌, leb, Bool-cases, All,
}
use mathlib.Core.List.{map}
use mvtx.Prelude.Map.{Map}
use mvtx.LockNode.{Lock}
use mvtx.LockNode.Find.{Covers, Covers-le}
use mvtx.LockManager.Valid.{IsGrounded}
use mvtx.LockManager.Sweep.{changed, swept, with_events, collected}

-- Whether a sweep of [first, second] comes to a node.
abbrev pub meets : ℕ → ℕ → Lock → Bool
meets first second n = leb first second && (leb n.start second && leb first n.end)

abbrev pub sweep_one : (Lock → Lock × Bool) → ℕ → ℕ → Lock → Lock
sweep_one change first second n = if meets first second n then changed change n else n

-- The events of the nodes that the sweep comes to and whose lock it ends.
abbrev pub wake :
    (Lock → Lock × Bool) → (first second : ℕ) → Map (List ℕ) → List Lock → List ℕ → List ℕ
wake change first second waiting [] events = events
wake change first second waiting (n ∷ d) events =
    wake change first second waiting d
      (with_events (meets first second n && (change n).1) n.end waiting events)

module _ (change : Lock → Lock × Bool) (first second : ℕ) (waiting : Map (List ℕ)) where
  pub one_keeps :
      (n : Lock)
      → ((sweep_one change first second n).addr ≡ n.addr)
        × ((sweep_one change first second n).start ≡ n.start)
        × ((sweep_one change first second n).end ≡ n.end)
  one_keeps n = elim (Bool-cases (meets first second n)) [
    | inl here ↦ rw here (refl, refl, refl)
    | inr out ↦ rw out (refl, refl, refl)
  ]

  wake_out :
      (n : Lock) (d : List Lock) (events : List ℕ)
      → meets first second n ≡ false
      → wake change first second waiting (n ∷ d) events ≡ wake change first second waiting d events
  wake_out n d events out = rw out refl

  -- Nodes that end before the interval, and nodes that start after it.
  map-below :
      (hi : ℕ) (d : List Lock) (events : List ℕ)
      → Covers 0 hi d
      → hi ≤ first
      → (map (sweep_one change first second) d ≡ d)
        × (wake change first second waiting d events ≡ events)
  map-below hi [] events c p = (refl, refl)
  map-below hi (n ∷ d) events c p =
      let out : meets first second n ≡ false = ground arith in
      let rest = map-below n.start d events c.2 (omega arith) in rw out (rw rest.0 refl, rest.1)

  pub map-above :
      (mid hi : ℕ) (d lower : List Lock) (events : List ℕ)
      → Covers mid hi d
      → second < mid
      → (map (sweep_one change first second) d ≡ d)
        × (wake change first second waiting (d ++ lower) events
            ≡ wake change first second waiting lower events)
  map-above mid hi [] lower events c p = (refl, refl)
  map-above mid hi (n ∷ d) lower events c p =
      let le = Covers-le mid n.start d c.2 in
      let out : meets first second n ≡ false = ground arith in
      let rest = map-above mid n.start d lower events c.2 p in
      (rw out (rw rest.0 refl), wake_out n (d ++ lower) events out ∙ rest.1)

  swept-tail :
      (hi : ℕ) (d : List Lock) (events : List ℕ)
      → Covers 0 hi d
      → All IsGrounded d
      → 0 < hi
      → hi ≤ second + 1
      → first ≤ second
      → 0 < first
      → (swept change first (hi - 1) d ≡ map (sweep_one change first second) d)
        × (collected change first waiting (hi - 1) d events
            ≡ wake change first second waiting d events)
  swept-tail hi [] events c g p q le pos = (refl, refl)
  swept-tail hi (n ∷ d) events c g p q le pos = elim (Bool-cases (leb first (hi - 1))) [
    | inl go ↦
        let here : meets first second n ≡ true = ground arith in
        let above : 0 < n.start = elim g.0 [ inl h ↦ h | inr f ↦ absurd (ground arith) ] in
        let rest =
          swept-tail n.start d (with_events (change n).1 n.end waiting events) c.2 g.1 above
            (omega arith) le pos in
        rw (go, here) (rw rest.0 refl, rest.1)
    | inr stop ↦
        let out : meets first second n ≡ false = ground arith in
        let rest = map-below n.start d events c.2 (ground arith) in
        rw (stop, out) (rw rest.0 refl, sym rest.1)
  ]

  -- From the node that holds the end of the interval.
  pub swept-map :
      (hi : ℕ) (n : Lock) (d : List Lock) (events : List ℕ)
      → Covers 0 hi (n ∷ d)
      → All IsGrounded (n ∷ d)
      → n.start ≤ second
      → second ≤ n.end
      → 0 < first
      → (swept change first second (n ∷ d) ≡ map (sweep_one change first second) (n ∷ d))
        × (collected change first waiting second (n ∷ d) events
            ≡ wake change first second waiting (n ∷ d) events)
  swept-map hi n d events c g low high pos = elim (Bool-cases (leb first second)) [
    | inl go ↦
        let here : meets first second n ≡ true = ground arith in
        let above : 0 < n.start = elim g.0 [ inl h ↦ h | inr f ↦ absurd (ground arith) ] in
        let rest =
          swept-tail n.start d (with_events (change n).1 n.end waiting events) c.2 g.1 above
            (omega arith) (ground arith) pos in
        rw (here, go) (rw rest.0 refl, rest.1)
    | inr stop ↦
        let out : meets first second n ≡ false = rw stop refl in
        let rest = map-below n.start d events c.2 (ground arith) in
        rw (out, stop) (rw rest.0 refl, sym rest.1)
  ]
