-- ===== src/LockManager/Backward.antt =====
-- The walk of `tryBackwardLock` in src/AVLTreeLockManager.cc against a description on the list of the
-- nodes: pass the nodes that may be shared, and stop at the first that may not.
use mvtx.Prelude.{
  ℕ, zero, suc, ◌+◌, ◌-◌, ◌<◌, ◌≤◌, ◌^◌, ◌≡◌, refl, ap, sym, ◌∙◌, subst, Bool, true, false, inl,
  inr, Option, none, some, List, [], ◌∷◌, ◌++◌, append_assoc, arith, ◌==◌, if◌then◌else◌,
  Bool-cases, le→ltb, length, All, dec64, ==_iff,
}
use mvtx.Prelude.Set
use mvtx.Prelude.Run.{Run, ok}
use mvtx.LockNode.{
  LockStatus, free, read_lock, write_lock, freeze_read_lock, freeze_write_lock, Lock, Tree, node,
  get, modify,
}
use mvtx.LockNode.Balance.{IsBalanced, modify-IsBalanced}
use mvtx.LockNode.Descending.{descending, Distinct, Distinct-right, has_addr-append}
use mvtx.LockNode.Find.{
  write_at, descending-modify, write_at-absent, write_at-one, write_at-Distinct, get-modify_node,
  modify-Within, Within, PathTo, entry, bottom, modify-PathTo, Covers, Covers-split, find_last,
  find-below,
}
use mvtx.LockManager.Valid.{IsGrounded}
use mvtx.LockManager.{with_state, requested, stay, visit, Walk, walk, find_from}

-- Whether a walk goes on below a node of this status.
abbrev pub passes : LockStatus → Bool → Bool
passes free is_read = true
passes read_lock is_read = is_read
passes freeze_read_lock is_read = is_read
passes _ is_read = false

-- A node that the walk has passed: frozen nodes stay as they are.
abbrev pub shared : LockStatus → Bool → ℕ → Lock → Lock
shared free is_read tid n = with_state (requested is_read) (Set.insert tid n.tids) n
shared read_lock is_read tid n = with_state read_lock (Set.insert tid n.tids) n
shared _ is_read tid n = n

-- The nodes after the walk, the time that it reaches, and the end of the interval it waits for.
abbrev pub walked : Bool → ℕ → List Lock → List Lock
walked is_read tid [] = []
walked is_read tid (n ∷ d) =
    if passes n.status is_read then shared n.status is_read tid n ∷ walked is_read tid d else n ∷ d

abbrev pub reached : Bool → List Lock → ℕ → ℕ
reached is_read [] ts = ts
reached is_read (n ∷ d) ts = if passes n.status is_read then reached is_read d (n.start - 1) else ts

-- A lock that may still be released or frozen.
abbrev pub is_held : LockStatus → Bool
is_held read_lock = true
is_held write_lock = true
is_held _ = false

abbrev pub waits : Bool → List Lock → Option ℕ
waits is_read [] = none
waits is_read (n ∷ d) =
    if passes n.status is_read
    then waits is_read d
    else (if is_held n.status then some n.end else none)

pub record Walked (root : Tree) (upper d : List Lock) (is_read : Bool) (tid cur_ts : ℕ)
    (out : Run Walk) : Type 0 where
  pub root' : Tree
  pub runs :
      out
      ≡ ok (record {
        root = root';
        cur_ts = reached is_read d cur_ts;
        waits_for = waits is_read d;
        recorded = true;
        failed = false;
      })
  pub nodes : descending root' ≡ upper ++ walked is_read tid d
  pub balanced : IsBalanced root → IsBalanced root'

-- What `visit` does on a node that the walk passes, and on one that stops it.
visit-passes :
    (s : LockStatus) (is_read : Bool) (tid cur_ts : ℕ) (n : Lock)
    → s ≡ n.status
    → passes s is_read ≡ true
    → ((visit s is_read tid cur_ts n).cur_ts ≡ dec64 n.start)
      × (with_state (visit s is_read tid cur_ts n).status (visit s is_read tid cur_ts n).tids n
          ≡ shared s is_read tid n)
unfolding visit
visit-passes free is_read tid cur_ts n e p = (refl, refl)
visit-passes read_lock true tid cur_ts n e p = (refl, rw (← e))
visit-passes read_lock false tid cur_ts n e p = cc
visit-passes write_lock is_read tid cur_ts n e p = cc
visit-passes freeze_read_lock true tid cur_ts n e p = (refl, refl)
visit-passes freeze_read_lock false tid cur_ts n e p = cc
visit-passes freeze_write_lock is_read tid cur_ts n e p = cc

visit-stops :
    (s : LockStatus) (is_read : Bool) (tid cur_ts : ℕ) (n : Lock)
    → passes s is_read ≡ false
    → visit s is_read tid cur_ts n ≡ stay n cur_ts (is_held s)
unfolding visit
visit-stops free is_read tid cur_ts n p = cc
visit-stops read_lock true tid cur_ts n p = cc
visit-stops read_lock false tid cur_ts n p = refl
visit-stops write_lock is_read tid cur_ts n p = refl
visit-stops freeze_read_lock true tid cur_ts n p = cc
visit-stops freeze_read_lock false tid cur_ts n p = refl
visit-stops freeze_write_lock is_read tid cur_ts n p = refl

-- The steps of one round at a pointer that leads to the node `n`.
module _ (fuel : ℕ) (is_read : Bool) (tid cur_ts : ℕ) (root : Tree) (a : ℕ) (locks : List ℕ)
    (n : Lock) (lh rh : ℕ) (l r : Tree) (at : get a root ≡ some (node n lh rh l r))
    (low : n.start ≤ cur_ts) (high : cur_ts ≤ n.end) where
  walk-stop :
      passes n.status is_read ≡ false
      → (cur_ts == dec64 n.start) ≡ false
      → walk (suc fuel) is_read tid root (a ∷ locks) cur_ts
        ≡ ok (record {
          root = modify a (with_state n.status n.tids) root;
          cur_ts = cur_ts;
          waits_for = if is_held n.status then some n.end else none;
          recorded = true;
          failed = false;
        })
  unfolding walk
  walk-stop p apart = rw (
    at,
    walk,
    le→ltb cur_ts n.start low,
    le→ltb n.end cur_ts high,
    visit-stops n.status is_read tid cur_ts n p,
    apart,
  )

  walk-pass :
      passes n.status is_read ≡ true
      → let v = visit n.status is_read tid cur_ts n in
        let root' = modify a (with_state v.status v.tids) root in
        walk (suc fuel) is_read tid root (a ∷ locks) cur_ts
        ≡ walk fuel is_read tid root' (find_from a root' (dec64 n.start) locks) (dec64 n.start)
  unfolding walk
  walk-pass p = rw (
    at,
    walk,
    le→ltb cur_ts n.start low,
    le→ltb n.end cur_ts high,
    (visit-passes n.status is_read tid cur_ts n refl p).0,
    (==_iff (dec64 n.start) (dec64 n.start)).1 refl,
  )

-- `find` called again on a node that was written to goes on with the nodes before it.
pub find_from-PathTo :
    (f : Lock → Lock) (root : Tree) (locks : List ℕ) (upper d1 : List Lock) (n : Lock) (lh rh : ℕ)
    (l r : Tree)
    → ((m : Lock) → (f m).addr ≡ m.addr)
    → (f n).start ≡ n.start
    → get n.addr root ≡ some (node n lh rh l r)
    → Within root l
    → PathTo root locks d1
    → Covers 0 n.start (descending l ++ d1)
    → 0 < n.start
    → Distinct (upper ++ (n ∷ (descending l ++ d1)))
    → PathTo
        (modify n.addr f root)
        (find_from n.addr (modify n.addr f root) (n.start - 1) locks)
        (descending l ++ d1)
unfolding find_from
find_from-PathTo f root locks upper d1 n lh rh l r k same at w p c pos d =
    let a = n.addr in
    let own = Distinct-right upper (n ∷ (descending l ++ d1)) d in
    let parts = has_addr-append a (descending l) d1 in
    let kept_l : descending (modify a f l) ≡ descending l =
      descending-modify a f l ∙ write_at-absent a f (descending l) (ground (arith, parts, own.0)) in
    let kept_d : write_at a f d1 ≡ d1 = write_at-absent a f d1 (ground (arith, parts, own.0)) in
    let (mid, left, rest) = Covers-split 0 n.start (descending l) d1 c in
    let w' = modify-Within a f root l k w in
    let p' : PathTo (modify a f root) locks d1 =
      subst (PathTo (modify a f root) locks) kept_d (modify-PathTo a f root locks d1 k p) in
    let c' : Covers mid n.start (descending (modify a f l)) = rw kept_l left in
    let q =
      find_last (modify a f root) (modify a f l) mid n.start (n.start - 1) locks d1 w' c'
        (omega arith) p' in
    rw
      (
        get-modify_node a a f root n lh rh l r k at,
        find_from,
        (==_iff a a).1 refl,
        find-below (f n) lh rh (modify a f l) (modify a f r) (n.start - 1) locks (omega arith),
      )
      (rw kept_l at q)

-- The first lock of a list holds a time.
abbrev pub Holds : ℕ → List Lock → Type 0
Holds ts [] = ⊥
Holds ts (n ∷ d) = (n.start ≤ ts) × (ts ≤ n.end)

pub Covers-Holds : (lo hi : ℕ) (ls : List Lock) → Covers lo hi ls → lo < hi → Holds (hi - 1) ls
Covers-Holds lo hi [] c p = absurd (omega arith)
Covers-Holds lo hi (n ∷ ls) c p = omega arith

pub passes-pos :
    (n : Lock) (is_read : Bool) → IsGrounded n → passes n.status is_read ≡ true → 0 < n.start
passes-pos n is_read (inl h) p = h
passes-pos n is_read (inr (frozen, _)) p =
    let q = subst (λ x. passes x is_read ≡ true) frozen p in cc

stops-apart :
    (n : Lock) (cur_ts : ℕ)
    → IsGrounded n
    → n.start ≤ cur_ts
    → cur_ts ≤ n.end
    → cur_ts < 2 ^ 64
    → (cur_ts == dec64 n.start) ≡ false
stops-apart n cur_ts (inl h) low high small = ground arith
stops-apart n cur_ts (inr (frozen, last)) low high small = ground arith

pub dec64-pos : (x : ℕ) → 0 < x → x < 2 ^ 64 → dec64 x ≡ x - 1
dec64-pos x p q = omega arith

-- A write to one node, in a tree whose list is known.
pub descending-modify_one :
    (f : Lock → Lock) (root : Tree) (upper tail : List Lock) (n : Lock)
    → descending root ≡ upper ++ (n ∷ tail)
    → Distinct (upper ++ (n ∷ tail))
    → descending (modify n.addr f root) ≡ upper ++ (f n ∷ tail)
descending-modify_one f root upper tail n s dist =
    descending-modify n.addr f root ∙ ap (write_at n.addr f) s ∙ write_at-one f upper tail n dist

pub modify_one-Distinct :
    (f : Lock → Lock) (upper tail : List Lock) (n : Lock)
    → ((m : Lock) → (f m).addr ≡ m.addr)
    → Distinct (upper ++ (n ∷ tail))
    → Distinct (upper ++ (f n ∷ tail))
modify_one-Distinct f upper tail n k dist =
    subst Distinct (write_at-one f upper tail n dist)
      (write_at-Distinct n.addr f (upper ++ (n ∷ tail)) k dist)

-- The loop of `tryBackwardLock`, from a vector that is a path to the descending nodes `d`, of which the
-- first holds the current time, with distinct addresses, intervals without gaps down to 0 and 0 frozen:
-- with one unit of fuel for each node it ends, without an error, in the tree, at the time and with the
-- interval to wait for that the descriptions on the list `d` give.
pub walk-Walked :
    (fuel : ℕ) (is_read : Bool) (tid cur_ts hi : ℕ) (root : Tree) (locks : List ℕ)
    (upper d : List Lock)
    → PathTo root locks d
    → descending root ≡ upper ++ d
    → Distinct (upper ++ d)
    → Covers 0 hi d
    → All IsGrounded d
    → Holds cur_ts d
    → cur_ts < 2 ^ 64
    → length d < fuel + 1
    → Walked root upper d is_read tid cur_ts (walk fuel is_read tid root locks cur_ts)
walk-Walked fuel is_read tid cur_ts hi root locks upper d bottom s dist c g h small enough =
    absurd h
walk-Walked zero is_read tid cur_ts hi root locks upper d (entry at here w split p) s dist c g h
      small enough =
    absurd (omega (arith, ap length split))
walk-Walked (suc fuel) is_read tid cur_ts hi root locks upper d
      (entry {n} {lh} {rh} {a} {l} {r} {locks = rest} {d = d1} at here w split p) s dist c g h small
      enough =
    let tail = descending l ++ d1 in
    let s' = subst (λ x. descending root ≡ upper ++ x) split s in
    let dist' = subst (λ x. Distinct (upper ++ x)) split dist in
    let c' = subst (Covers 0 hi) split c in
    let g' = subst (All IsGrounded) split g in
    let h' = subst (Holds cur_ts) split h in
    let at' = subst (λ x. get x root ≡ some (node n lh rh l r)) here at in
    let v = visit n.status is_read tid cur_ts n in
    let f = with_state v.status v.tids in
    let root' = modify n.addr f root in
    rw (split, here)
      (elim (Bool-cases (passes n.status is_read)) [
        | inl go ↦
            let pos = passes-pos n is_read g'.0 go in
            let dec = dec64-pos n.start pos (omega arith) in
            let path =
              find_from-PathTo f root rest upper d1 n lh rh l r (λ m. refl) refl at' w p c'.2 pos
                dist' in
            let nodes = descending-modify_one f root upper tail n s' dist' in
            let rest_walk =
              walk-Walked fuel is_read tid (n.start - 1) n.start root'
                (find_from n.addr root' (n.start - 1) rest) (upper ++ (f n ∷ [])) tail path
                (nodes ∙ sym (append_assoc upper (f n ∷ []) tail))
                (rw (append_assoc upper (f n ∷ []) tail)
                  (modify_one-Distinct f upper tail n (λ m. refl) dist'))
                c'.2 g'.1 (Covers-Holds 0 n.start tail c'.2 pos) (omega arith)
                (omega (arith, ap length split)) in
            record {
              root' = rest_walk.root';
              runs = rw go (
                  walk-pass fuel is_read tid cur_ts root n.addr rest n lh rh l r at' h'.0 h'.1 go
                  ∙ rw dec rest_walk.runs);
              nodes = rw go (
                  rest_walk.nodes
                  ∙ append_assoc upper (f n ∷ []) (walked is_read tid tail)
                  ∙ ap (λ x. upper ++ (x ∷ walked is_read tid tail))
                      (visit-passes n.status is_read tid cur_ts n refl go).1);
              balanced = λ b. rest_walk.balanced (modify-IsBalanced n.addr f root b);
            }
        | inr stop ↦
            let same = with_state n.status n.tids in
            record {
              root' = modify n.addr same root;
              runs = rw stop (
                  walk-stop fuel is_read tid cur_ts root n.addr rest n lh rh l r at' h'.0 h'.1 stop
                    (stops-apart n cur_ts g'.0 h'.0 h'.1 small));
              nodes = rw stop (descending-modify_one same root upper tail n s' dist');
              balanced = modify-IsBalanced n.addr same root;
            }
      ])
