-- ===== src/LockManager/SweepTimes.antt =====
-- What the walk of `freeze` and `unlock` in src/AVLTreeLockManager.cc does to each time of a key.
use mvtx.Prelude.{
  ℕ, suc, ◌<◌, ◌≤◌, ◌^◌, ◌≡◌, refl, ap, sym, ◌∙◌, subst, Bool, true, false, inl, inr, some, List,
  [], ◌∷◌, ◌++◌, append-nil, arith, leb, Bool-cases, length, length-append, All, All-right,
}
use mathlib.Core.List.{map, map-append}
use mvtx.Prelude.Map.{Map}
use mvtx.Prelude.Run.{Run, ok}
use mvtx.LockNode.{Lock, Tree, find, size}
use mvtx.LockNode.Descending.{descending, Distinct, has_addr}
use mvtx.LockNode.Find.{bottom, Covers, Covers-split, Within-self, find-Found, length-descending}
use mvtx.LockManager.{sweep}
use mvtx.LockManager.Valid.{IsGrounded, IsValid, holder}
use mvtx.LockManager.Sweep.{sweep-Swept}
use mvtx.LockManager.SweepTree.{meets, sweep_one, wake, one_keeps, swept-map, map-above}

-- A change of the nodes that keeps where they are.
module _ (g : Lock → Lock)
    (keeps : (n : Lock)
      → ((g n).addr ≡ n.addr) × ((g n).start ≡ n.start) × ((g n).end ≡ n.end)) where
  map-Covers : (lo hi : ℕ) (d : List Lock) → Covers lo hi d → Covers lo hi (map g d)
  map-Covers lo hi [] c = c
  map-Covers lo hi (n ∷ d) c =
      let k = keeps n in rw (k.1, k.2) (c.0, c.1, map-Covers lo n.start d c.2)

  has_addr-map : (a : ℕ) (d : List Lock) → has_addr a (map g d) ≡ has_addr a d
  unfolding has_addr
  has_addr-map a [] = refl
  has_addr-map a (n ∷ d) = rw ((keeps n).0, has_addr-map a d) refl

  map-Distinct : (d : List Lock) → Distinct d → Distinct (map g d)
  map-Distinct [] h = h
  map-Distinct (n ∷ d) h = rw (keeps n).0 (has_addr-map n.addr d ∙ h.0, map-Distinct d h.1)

  pub holder-map :
      (t : ℕ) (d : List Lock) (n : Lock) → holder t d ≡ some n → holder t (map g d) ≡ some (g n)
  holder-map t [] n e = cc
  holder-map t (m ∷ d) n e = elim (Bool-cases (leb m.start t)) [
    | inl here ↦
        let same : m ≡ n = (let e' = rw here at e in cc) in
        let here' : leb (g m).start t ≡ true = ap (λ x. leb x t) (keeps m).1 ∙ here in
        rw here' (ap (λ x. some (g x)) same)
    | inr later ↦
        let later' : leb (g m).start t ≡ false = ap (λ x. leb x t) (keeps m).1 ∙ later in
        rw later' (holder-map t d n (rw later at e))
  ]

-- The lock that holds a time.
pub record Held (t : ℕ) (d : List Lock) : Type 0 where
  pub lock : Lock
  pub holds : holder t d ≡ some lock
  pub low : lock.start ≤ t
  pub high : t ≤ lock.end

pub held : (t hi : ℕ) (d : List Lock) → Covers 0 hi d → t < hi → Held t d
held t hi [] c p = absurd (omega arith)
held t hi (n ∷ d) c p = elim (Bool-cases (leb n.start t)) [
  | inl here ↦ record { lock = n; holds = rw here refl; low = ground arith; high = omega arith }
  | inr later ↦
      let h = held t n.start d c.2 (ground arith) in
      record { lock = h.lock; holds = rw later h.holds; low = h.low; high = h.high }
]

swept-IsGrounded :
    (change : Lock → Lock × Bool) (first second : ℕ) (d : List Lock)
    → 0 < first
    → All IsGrounded d
    → All IsGrounded (map (sweep_one change first second) d)
swept-IsGrounded change first second [] pos g = g
swept-IsGrounded change first second (n ∷ d) pos g =
    let rest = swept-IsGrounded change first second d pos g.1 in
    elim (Bool-cases (meets first second n)) [
      | inr out ↦ rw out (g.0, rest)
      | inl here ↦
          let above : 0 < n.start = elim g.0 [ inl h ↦ h | inr f ↦ absurd (ground arith) ] in
          rw here (inl above, rest)
    ]

-- The effect on the tree of a key.
pub record TreeSwept (change : Lock → Lock × Bool) (first second : ℕ) (waiting : Map (List ℕ))
    (root : Tree) (events : List ℕ) (out : Run (Tree × List ℕ)) : Type 0 where
  pub root' : Tree
  pub runs : out ≡ ok (root', wake change first second waiting (descending root) events)
  pub nodes : descending root' ≡ map (sweep_one change first second) (descending root)
  pub valid : IsValid root'

-- The walk of `freeze` and `unlock` over an interval that starts after 0 and ends below 2^64, on a valid
-- tree, with the fuel of two rounds more than nodes, ends without a fault. It changes exactly the nodes
-- that meet the interval, collects exactly the events of those whose change says so, and leaves a valid tree.
pub sweep-TreeSwept :
    (change : Lock → Lock × Bool) (first second : ℕ) (waiting : Map (List ℕ)) (root : Tree)
    (events : List ℕ)
    → IsValid root
    → 0 < first
    → second < 2 ^ 64
    → TreeSwept change first second waiting root events (
        sweep change (suc (suc (size root))) first second waiting root (find root second []) events)
sweep-TreeSwept change first second waiting root events v pos small =
    let f =
      find-Found root root 0 (2 ^ 64) second [] [] (Within-self root v.distinct) v.covers
        (omega arith) small bottom in
    let d = f.hit ∷ f.lower in
    let g = sweep_one change first second in
    let k = one_keeps change first second waiting in
    let covers = subst (Covers 0 (2 ^ 64)) f.split v.covers in
    let (mid, upper, lower) = Covers-split 0 (2 ^ 64) f.upper d covers in
    let grounded = subst (All IsGrounded) f.split v.grounded in
    let own = All-right IsGrounded f.upper d grounded in
    let w =
      sweep-Swept change (suc (suc (size root))) first second mid waiting root (find root second [])
        events f.upper d (rw append-nil at f.path) f.split (subst Distinct f.split v.distinct) lower
        own (f.starts, f.ends) pos small
        (omega (arith, ap length f.split, length-append f.upper d, length-descending root)) in
    let low =
      swept-map change first second waiting mid f.hit f.lower events lower own f.starts f.ends
        pos in
    let high =
      map-above change first second waiting mid (2 ^ 64) f.upper d events upper
        (omega (arith, lower.0, f.ends)) in
    let nodes : descending w.root' ≡ map g (descending root) =
      w.nodes
      ∙ ap (λ x. f.upper ++ x) low.0
      ∙ ap (λ x. x ++ map g d) (sym high.0)
      ∙ sym (map-append g f.upper d)
      ∙ ap (map g) (sym f.split) in
    record {
      root' = w.root';
      runs =
          w.runs
          ∙ ap (λ x. ok (w.root', x))
              (low.1
                ∙ sym high.1
                ∙ ap (λ x. wake change first second waiting x events) (sym f.split));
      nodes = nodes;
      valid = record {
        covers =
            subst (Covers 0 (2 ^ 64)) (sym nodes)
              (map-Covers g k 0 (2 ^ 64) (descending root) v.covers);
        distinct = subst Distinct (sym nodes) (map-Distinct g k (descending root) v.distinct);
        grounded =
            subst (All IsGrounded) (sym nodes)
              (swept-IsGrounded change first second (descending root) pos v.grounded);
        balanced = w.balanced v.balanced;
      };
    }
