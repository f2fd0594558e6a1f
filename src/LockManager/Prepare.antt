-- ===== src/LockManager/Prepare.antt =====
-- The start of `tryBackwardLock` in src/AVLTreeLockManager.cc: the node that holds `ts_end` is found,
-- and cut at `ts_end` if its lower part may be locked.
use mvtx.Prelude.{
  ℕ, ◌<◌, ◌≤◌, ◌^◌, ◌≡◌, refl, ap, sym, ◌∙◌, subst, Bool, true, false, ◌&&◌, inl, inr, some,
  Bool-cases, List, [], ◌∷◌, ◌++◌, append-nil, append_assoc, arith, ltb, All, All-right,
}
use mvtx.Prelude.Run.{Run, ok}
use mvtx.LockNode.{Lock, Tree, node, find, get}
use mvtx.LockNode.Descending.{descending}
use mvtx.LockNode.Find.{Covers, PathTo, bottom, entry, Within-self, Found, find-Found}
use mvtx.LockManager.Valid.{IsGrounded, IsValid, holder, state_at, holder-eq}
use mvtx.LockManager.Split.{split_above-Cut}
use mvtx.LockManager.{is_available, with_interval, split_above, prepare_walk}

pub record Prepared (root : Tree) (is_read : Bool) (ts : ℕ) (out : Run (Tree × List ℕ))
    : Type 0 where
  pub root' : Tree
  pub locks : List ℕ
  pub upper : List Lock
  pub hit : Lock
  pub lower : List Lock
  pub runs : out ≡ ok (root', locks)
  pub valid : IsValid root'
  pub nodes : descending root' ≡ upper ++ (hit ∷ lower)
  pub path : PathTo root' locks (hit ∷ lower)
  pub low : hit.start ≤ ts
  pub high : ts ≤ hit.end
  pub same : (t : ℕ) → state_at t root' ≡ state_at t root
  pub tight : is_available hit.status is_read ≡ true → hit.end ≡ ts

found : (root : Tree) (ts : ℕ) → IsValid root → ts < 2 ^ 64 → Found root root 0 (2 ^ 64) ts [] []
found root ts v p =
    find-Found root root 0 (2 ^ 64) ts [] [] (Within-self root v.distinct) v.covers (omega arith) p
      bottom

available-pos :
    (n : Lock) (is_read : Bool) → IsGrounded n → is_available n.status is_read ≡ true → 0 < n.start
unfolding is_available
available-pos n is_read (inl h) p = h
available-pos n is_read (inr (frozen, _)) p =
    let q = subst (λ x. is_available x is_read ≡ true) frozen p in cc

some-inj : (a b : Lock) → some a ≡ some b → a ≡ b
some-inj a b e = cc

-- The holder of a time is the second of two nodes after `upper`.
holder-second :
    (ts lo hi : ℕ) (upper lower : List Lock) (m n : Lock)
    → Covers lo hi (upper ++ (m ∷ n ∷ lower))
    → n.start ≤ ts
    → ts ≤ n.end
    → holder ts (upper ++ (m ∷ n ∷ lower)) ≡ some n
holder-second ts lo hi upper lower m n c p q =
    let e = append_assoc upper (m ∷ []) (n ∷ lower) in
    ap (holder ts) (sym e)
    ∙ holder-eq ts lo hi (upper ++ (m ∷ [])) lower n (subst (Covers lo hi) (sym e) c) p q

module _ (root : Tree) (is_read : Bool) (ts : ℕ) (rest : List ℕ) (upper lower : List Lock)
    (n : Lock) (lh rh : ℕ) (l r : Tree) (v : IsValid root) (small : ts < 2 ^ 64)
    (at : find root ts [] ≡ n.addr ∷ rest) (leads : get n.addr root ≡ some (node n lh rh l r))
    (path : PathTo root (n.addr ∷ rest) (n ∷ lower))
    (nodes : descending root ≡ upper ++ (n ∷ lower)) (low : n.start ≤ ts) (high : ts ≤ n.end) where
  prepare_whole :
      (is_available n.status is_read && ltb ts n.end) ≡ false
      → Prepared root is_read ts (prepare_walk is_read ts root)
  unfolding prepare_walk
  prepare_whole b = record {
    root' = root;
    locks = n.addr ∷ rest;
    upper = upper;
    hit = n;
    lower = lower;
    runs = rw (at, leads, prepare_walk, b);
    valid = v;
    nodes = nodes;
    path = path;
    low = low;
    high = high;
    same = λ t. refl;
    tight = λ yes_. ground arith;
  }

  prepare_cut :
      (is_available n.status is_read && ltb ts n.end) ≡ true
      → Prepared root is_read ts (prepare_walk is_read ts root)
  unfolding prepare_walk
  prepare_cut b =
      let before : ts < n.end = ground arith in
      let open_ : is_available n.status is_read ≡ true = ground arith in
      let g = subst (All IsGrounded) nodes v.grounded in
      let pos = available-pos n is_read (All-right IsGrounded upper (n ∷ lower) g).0 open_ in
      let cut = split_above-Cut root upper lower n ts v nodes low before pos in
      let root1 = split_above n.addr n ts root in
      let f = found root1 ts cut.valid small in
      let c1 = subst (Covers 0 (2 ^ 64)) cut.nodes cut.valid.covers in
      let c2 = subst (Covers 0 (2 ^ 64)) f.split cut.valid.covers in
      let n' = with_interval n.start ts n in
      let same_hit : some f.hit ≡ some n' =
        sym (holder-eq ts 0 (2 ^ 64) f.upper f.lower f.hit c2 f.starts f.ends)
        ∙ ap (holder ts) (sym f.split ∙ cut.nodes)
        ∙ holder-second ts 0 (2 ^ 64) upper lower cut.new n' c1 low (omega arith) in
      record {
        root' = root1;
        locks = find root1 ts [];
        upper = f.upper;
        hit = f.hit;
        lower = f.lower;
        runs = rw (at, leads, prepare_walk, b);
        valid = cut.valid;
        nodes = f.split;
        path = rw append-nil at f.path;
        low = f.starts;
        high = f.ends;
        same = cut.same;
        tight = λ yes_. ap (λ (m : Lock). m.end) (some-inj f.hit n' same_hit);
      }

prepare-Prepared :
    (root : Tree) (is_read : Bool) (ts : ℕ) (locks : List ℕ) (upper lower all : List Lock)
    (n : Lock)
    → IsValid root
    → ts < 2 ^ 64
    → find root ts [] ≡ locks
    → PathTo root locks all
    → all ≡ n ∷ lower
    → descending root ≡ upper ++ (n ∷ lower)
    → n.start ≤ ts
    → ts ≤ n.end
    → Prepared root is_read ts (prepare_walk is_read ts root)
prepare-Prepared root is_read ts locks upper lower all n v small at bottom e s low high = cc
prepare-Prepared root is_read ts locks upper lower all n v small at
      (entry {n = m} {lh} {rh} {a} {l} {r} {locks = rest} {d = d1} leads here w split p) e s low
      high =
    let m_n : m ≡ n = cc in
    let a_n : a ≡ n.addr = here ∙ ap (λ (x : Lock). x.addr) m_n in
    let at' : find root ts [] ≡ n.addr ∷ rest = subst (λ x. find root ts [] ≡ x ∷ rest) a_n at in
    let leads' =
      subst (λ x. get x root ≡ some (node n lh rh l r)) a_n
        (leads ∙ ap (λ x. some (node x lh rh l r)) m_n) in
    let path : PathTo root (n.addr ∷ rest) (n ∷ lower) =
      subst (λ x. PathTo root (x ∷ rest) (n ∷ lower)) a_n (entry leads here w (sym e ∙ split) p) in
    elim (Bool-cases (is_available n.status is_read && ltb ts n.end)) [
      | inl cut ↦
          prepare_cut root is_read ts rest upper lower n lh rh l r v small at' leads' path s low
            high cut
      | inr whole ↦
          prepare_whole root is_read ts rest upper lower n lh rh l r v small at' leads' path s low
            high whole
    ]

-- On a valid tree and for `ts` below 2^64 the loop of `tryBackwardLock` starts, without an error, at the
-- node that holds `ts`, in a valid tree with the same state at every time. If that node may be locked,
-- it ends at `ts`.
pub prepare_walk-Prepared :
    (root : Tree) (is_read : Bool) (ts : ℕ)
    → IsValid root
    → ts < 2 ^ 64
    → Prepared root is_read ts (prepare_walk is_read ts root)
prepare_walk-Prepared root is_read ts v small =
    let f = found root ts v small in
    prepare-Prepared root is_read ts (find root ts []) f.upper f.lower (f.hit ∷ f.lower) f.hit v
      small refl (rw append-nil at f.path) refl f.split f.starts f.ends
