-- ===== src/LockNode/Find.antt =====
-- Reads and writes through pointers, and the path that `find` of src/AVLTreeLockNode.cc leaves in its
-- vector: popped from the back, with `find` called again on each popped node, it enumerates the nodes
-- from a time downwards.
use native.Mathlib.Decide.{dec_lt}
use mvtx.Prelude.{
  ℕ, ◌+◌, ◌<◌, ◌≤◌, ◌≡◌, refl, ap, sym, ◌∙◌, Bool, true, false, inl, inr, Option, some, none, List,
  [], ◌∷◌, ◌++◌, append_assoc, arith, ◌==◌, if◌then◌else◌, Bool-cases, lt→ltb, le→ltb, length,
  length-append,
}
use mvtx.LockNode.{Lock, Tree, nil, node, find, get, modify, size, is_nil, fresh, max_addr}
use mvtx.LockNode.Descending.{
  descending, has_addr, Distinct, Distinct-left, Distinct-right, Distinct-apart, has_addr-append,
}

-- A write to the locks with an address.
abbrev pub write_at : ℕ → (Lock → Lock) → List Lock → List Lock
write_at a f [] = []
write_at a f (n ∷ ls) = (if n.addr == a then f n else n) ∷ write_at a f ls

pub write_at-append :
    (a : ℕ) (f : Lock → Lock) (xs ys : List Lock)
    → write_at a f (xs ++ ys) ≡ write_at a f xs ++ write_at a f ys
write_at-append a f [] ys = refl
write_at-append a f (x ∷ xs) ys = rw (write_at-append a f xs ys)

pub descending-modify :
    (a : ℕ) (f : Lock → Lock) (t : Tree) → descending (modify a f t) ≡ write_at a f (descending t)
unfolding modify
descending-modify a f nil = refl
descending-modify a f (node n lh rh l r) = rw (
  descending-modify a f l,
  descending-modify a f r,
  write_at-append a f (descending r) (n ∷ descending l),
)

pub write_at-absent :
    (a : ℕ) (f : Lock → Lock) (ls : List Lock) → has_addr a ls ≡ false → write_at a f ls ≡ ls
unfolding has_addr
write_at-absent a f [] h = refl
write_at-absent a f (n ∷ ls) h = ground (arith, write_at-absent a f ls)

pub has_addr-write_at :
    (a b : ℕ) (f : Lock → Lock) (ls : List Lock)
    → ((n : Lock) → (f n).addr ≡ n.addr)
    → has_addr b (write_at a f ls) ≡ has_addr b ls
unfolding has_addr
has_addr-write_at a b f [] k = refl
has_addr-write_at a b f (n ∷ ls) k = ground (arith, has_addr-write_at a b f ls k, k n)

pub write_at-Distinct :
    (a : ℕ) (f : Lock → Lock) (ls : List Lock)
    → ((n : Lock) → (f n).addr ≡ n.addr)
    → Distinct ls
    → Distinct (write_at a f ls)
write_at-Distinct a f [] k d = tt
write_at-Distinct a f (n ∷ ls) k d =
    (ground (arith, has_addr-write_at a n.addr f ls k, k n), write_at-Distinct a f ls k d.1)

abbrev over : (Tree → Tree) → Option Tree → Option Tree
over g none = none
over g (some t) = some (g t)

addr_kept :
    (c : Bool) (f : Lock → Lock) (n : Lock)
    → ((m : Lock) → (f m).addr ≡ m.addr)
    → (if c then f n else n).addr ≡ n.addr
addr_kept true f n k = k n
addr_kept false f n k = refl

get-modify-over :
    (a b : ℕ) (f : Lock → Lock) (t : Tree)
    → ((n : Lock) → (f n).addr ≡ n.addr)
    → get b (modify a f t) ≡ over (modify a f) (get b t)
unfolding get modify
get-modify-over a b f nil k = refl
get-modify-over a b f (node n lh rh l r) k =
    rw (addr_kept (n.addr == a) f n k, get-modify-over a b f l k)
      (ground (arith, get-modify-over a b f r k))

-- After a write a pointer leads to the written version of the node that it led to.
pub get-modify :
    (a b : ℕ) (f : Lock → Lock) (t s : Tree)
    → ((n : Lock) → (f n).addr ≡ n.addr)
    → get b t ≡ some s
    → get b (modify a f t) ≡ some (modify a f s)
get-modify a b f t s k e = get-modify-over a b f t k ∙ rw e

get_absent : (a : ℕ) (t : Tree) → has_addr a (descending t) ≡ false → get a t ≡ none
unfolding get has_addr
get_absent a nil h = refl
get_absent a (node n lh rh l r) h =
    ground
      (arith, has_addr-append a (descending r) (n ∷ descending l), get_absent a l, get_absent a r)

-- In the tree `t` the pointers to the nodes of `s` lead to the subtrees of `s`.
abbrev pub Within : Tree → Tree → Type 0
Within t nil = Unit {0}
Within t (node n lh rh l r) = (get n.addr t ≡ some (node n lh rh l r)) × Within t l × Within t r

pub get-modify_node :
    (a b : ℕ) (f : Lock → Lock) (t : Tree) (n : Lock) (lh rh : ℕ) (l r : Tree)
    → ((m : Lock) → (f m).addr ≡ m.addr)
    → get b t ≡ some (node n lh rh l r)
    → get b (modify a f t)
      ≡ some (node (if n.addr == a then f n else n) lh rh (modify a f l) (modify a f r))
unfolding modify
get-modify_node a b f t n lh rh l r k e = get-modify a b f t (node n lh rh l r) k e

pub modify-Within :
    (a : ℕ) (f : Lock → Lock) (t s : Tree)
    → ((n : Lock) → (f n).addr ≡ n.addr)
    → Within t s
    → Within (modify a f t) (modify a f s)
unfolding modify
modify-Within a f t nil k w = tt
modify-Within a f t (node n lh rh l r) k w = (
  ap (λ x. get x (modify a f t)) (addr_kept (n.addr == a) f n k)
      ∙ get-modify a n.addr f t (node n lh rh l r) k w.0,
  modify-Within a f t l k w.1,
  modify-Within a f t r k w.2,
)

Within-left :
    (n : Lock) (lh rh : ℕ) (l r s : Tree)
    → has_addr n.addr (descending s) ≡ false
    → Within l s
    → Within (node n lh rh l r) s
unfolding get has_addr
Within-left n lh rh l r nil h w = tt
Within-left n lh rh l r (node m mlh mrh ml mr) h w =
    let parts = has_addr-append n.addr (descending mr) (m ∷ descending ml) in
    (
      ground (arith, parts),
      Within-left n lh rh l r ml (ground (arith, parts)) w.1,
      Within-left n lh rh l r mr (ground (arith, parts)) w.2,
    )

Within-right :
    (n : Lock) (lh rh : ℕ) (l r s : Tree)
    → ((a : ℕ) → has_addr a (descending s) ≡ true → has_addr a (n ∷ descending l) ≡ false)
    → Within r s
    → Within (node n lh rh l r) s
unfolding get has_addr
Within-right n lh rh l r nil h w = tt
Within-right n lh rh l r (node m mlh mrh ml mr) h w =
    let parts = λ (a : ℕ). has_addr-append a (descending mr) (m ∷ descending ml) in
    (
      ground (arith, parts m.addr, h m.addr, get_absent m.addr l),
      Within-right n lh rh l r ml (λ a e. h a (ground (arith, parts a))) w.1,
      Within-right n lh rh l r mr (λ a e. h a (ground (arith, parts a))) w.2,
    )

-- With distinct addresses every node can be reached by its address.
pub Within-self : (t : Tree) → Distinct (descending t) → Within t t
unfolding get has_addr
Within-self nil d = tt
Within-self (node n lh rh l r) d =
    let xs = descending r in
    let ys = descending l in
    let low = Distinct-right xs (n ∷ ys) d in
    (
      ground arith,
      Within-left n lh rh l r l low.0 (Within-self l low.1),
      Within-right n lh rh l r r
          (λ a e. elim (Bool-cases (has_addr a (n ∷ ys))) [
            | inl both ↦ ground (arith, Distinct-apart a xs (n ∷ ys) d both)
            | inr neither ↦ neither
          ])
          (Within-self r (Distinct-left xs (n ∷ ys) d)),
    )

-- The intervals of a descending list follow one another without a gap and fill [lo, hi).
abbrev pub Covers : ℕ → ℕ → List Lock → Type 0
Covers lo hi [] = lo ≡ hi
Covers lo hi (n ∷ ls) = (n.end + 1 ≡ hi) × (n.start ≤ n.end) × Covers lo n.start ls

pub Covers-le : (lo hi : ℕ) (ls : List Lock) → Covers lo hi ls → lo ≤ hi
Covers-le lo hi [] c = omega arith
Covers-le lo hi (n ∷ ls) c = omega (arith, Covers-le lo n.start ls c.2)

-- A vector of pointers whose pops, each followed by `find` in the popped node, give the list.
pub data PathTo (t : Tree) : List ℕ → List Lock → Type 0 where
  bottom : PathTo t [] []
  entry :
      {n : Lock} {lh rh a : ℕ} {l r : Tree} {locks : List ℕ} {d all : List Lock}
      → get a t ≡ some (node n lh rh l r)
      → a ≡ n.addr
      → Within t l
      → all ≡ n ∷ (descending l ++ d)
      → PathTo t locks d
      → PathTo t (a ∷ locks) all

pub Covers-split :
    (lo hi : ℕ) (xs ys : List Lock)
    → Covers lo hi (xs ++ ys)
    → (mid : ℕ) × Covers mid hi xs × Covers lo mid ys
Covers-split lo hi [] ys c = (hi, refl, c)
Covers-split lo hi (n ∷ xs) ys c =
    let (mid, above, below) = Covers-split lo n.start xs ys c.2 in (mid, (c.0, c.1, above), below)

Covers-lt : (lo hi : ℕ) (xs ys : List Lock) (n : Lock) → Covers lo hi (xs ++ n ∷ ys) → lo < hi
Covers-lt lo hi [] ys n c = omega (arith, Covers-le lo n.start ys c.2)
Covers-lt lo hi (x ∷ xs) ys n c = omega (arith, Covers-lt lo x.start xs ys n c.2)

-- The three branches of `find`.
module _ (n : Lock) (lh rh : ℕ) (l r : Tree) (ts : ℕ) (locks : List ℕ) where
  pub find-here : n.start ≤ ts → ts ≤ n.end → find (node n lh rh l r) ts locks ≡ n.addr ∷ locks
  unfolding find
  find-here p q = rw (le→ltb ts n.start p, le→ltb n.end ts q)

  pub find-below : ts < n.start → find (node n lh rh l r) ts locks ≡ find l ts locks
  unfolding find
  find-below p = rw (lt→ltb ts n.start p)

  find-above :
      n.start ≤ ts
      → n.end < ts
      → is_nil r ≡ false
      → find (node n lh rh l r) ts locks ≡ find r ts (n.addr ∷ locks)
  unfolding find
  find-above p q some_right = rw (le→ltb ts n.start p, lt→ltb n.end ts q, some_right)

-- `find` with a time that directly precedes an end of the subtree adds the whole subtree.
pub find_last :
    (t s : Tree) (lo hi ts : ℕ) (locks : List ℕ) (d : List Lock)
    → Within t s
    → Covers lo hi (descending s)
    → ts + 1 ≡ hi
    → PathTo t locks d
    → PathTo t (find s ts locks) (descending s ++ d)
find_last t nil lo hi ts locks d w c e p = unfold find in p
find_last t (node n lh rh l nil) lo hi ts locks d w c e p =
    rw (find-here n lh rh l nil ts locks (omega arith) (omega arith)) (entry w.0 refl w.1 refl p)
find_last t (node n lh rh l (node m mlh mrh ml mr)) lo hi ts locks d w c e p =
    let r = node m mlh mrh ml mr in
    let (mid, above, below) = Covers-split lo hi (descending r) (n ∷ descending l) c in
    let lt = Covers-lt mid hi (descending mr) (descending ml) m above in
    rw
      (
        find-above n lh rh l r ts locks (omega arith) (omega arith) refl,
        append_assoc (descending r) (n ∷ descending l) d,
      )
      (find_last t (node m mlh mrh ml mr) mid hi ts (n.addr ∷ locks) (n ∷ (descending l ++ d)) w.2
        above e (entry w.0 refl w.1 refl p))

is_nil-false : (r : Tree) (lo hi : ℕ) → Covers lo hi (descending r) → lo < hi → is_nil r ≡ false
is_nil-false nil lo hi c p = absurd (omega arith)
is_nil-false (node m lh rh l r) lo hi c p = refl

-- The outcome of `find`: the path leads to the nodes of `s` from the one that holds `ts` downwards.
pub record Found (t s : Tree) (lo hi ts : ℕ) (locks : List ℕ) (d : List Lock) : Type 0 where
  pub upper : List Lock
  pub hit : Lock
  pub lower : List Lock
  pub split : descending s ≡ upper ++ (hit ∷ lower)
  pub starts : hit.start ≤ ts
  pub ends : ts ≤ hit.end
  pub path : PathTo t (find s ts locks) (hit ∷ (lower ++ d))

-- In a subtree `s` that its addresses lead to and whose intervals fill [lo, hi), `find` for a time of
-- [lo, hi) leaves a vector that leads through the node that holds the time and the nodes below it.
pub find-Found :
    (t s : Tree) (lo hi ts : ℕ) (locks : List ℕ) (d : List Lock)
    → Within t s
    → Covers lo hi (descending s)
    → lo ≤ ts
    → ts < hi
    → PathTo t locks d
    → Found t s lo hi ts locks d
find-Found t nil lo hi ts locks d w c p q path = absurd (omega arith)
find-Found t (node n lh rh l r) lo hi ts locks d w c p q path =
    let (mid, above, below) = Covers-split lo hi (descending r) (n ∷ descending l) c in
    elim (dec_lt ts n.start) [
      | yes early ↦
          let f = find-Found t l lo n.start ts locks d w.1 below.2 p early path in
          record {
            upper = descending r ++ (n ∷ f.upper);
            hit = f.hit;
            lower = f.lower;
            split = rw f.split (sym (append_assoc (descending r) (n ∷ f.upper) (f.hit ∷ f.lower)));
            starts = f.starts;
            ends = f.ends;
            path = rw (find-below n lh rh l r ts locks early) f.path;
          }
      | no late ↦ elim (dec_lt n.end ts) [
        | yes later ↦
            let f =
              find-Found t r mid hi ts (n.addr ∷ locks) (n ∷ (descending l ++ d)) w.2 above
                (omega arith) q (entry w.0 refl w.1 refl path) in
            record {
              upper = f.upper;
              hit = f.hit;
              lower = f.lower ++ (n ∷ descending l);
              split = rw f.split (append_assoc f.upper (f.hit ∷ f.lower) (n ∷ descending l));
              starts = f.starts;
              ends = f.ends;
              path =
                  rw
                    (
                      find-above n lh rh l r ts locks (omega arith) later
                          (is_nil-false r mid hi above (omega arith)),
                      append_assoc f.lower (n ∷ descending l) d,
                    )
                    f.path;
            }
        | no here ↦ record {
          upper = descending r;
          hit = n;
          lower = descending l;
          split = refl;
          starts = omega arith;
          ends = omega arith;
          path =
              rw (find-here n lh rh l r ts locks (omega arith) (omega arith))
                (entry w.0 refl w.1 refl path);
        }
      ]
    ]

-- A write keeps a path, and changes what it leads to.
pub modify-PathTo :
    (a : ℕ) (f : Lock → Lock) (t : Tree) (locks : List ℕ) (d : List Lock)
    → ((n : Lock) → (f n).addr ≡ n.addr)
    → PathTo t locks d
    → PathTo (modify a f t) locks (write_at a f d)
modify-PathTo a f t locks d k bottom = bottom
modify-PathTo a f t locks all k
      (entry {n} {lh} {rh} {a = b} {l} {r} {locks = rest} {d} e here w split p) =
    entry {r = modify a f r} (get-modify_node a b f t n lh rh l r k e)
      (here ∙ sym (addr_kept (n.addr == a) f n k)) (modify-Within a f t l k w)
      (rw split (
        ap (◌∷◌ (if n.addr == a then f n else n))
          (write_at-append a f (descending l) d ∙ rw (descending-modify a f l))))
      (modify-PathTo a f t rest d k p)

pub length-descending : (t : Tree) → length (descending t) ≡ size t
unfolding size
length-descending nil = refl
length-descending (node n lh rh l r) = omega (
  arith,
  length-append (descending r) (n ∷ descending l),
  length-descending l,
  length-descending r,
)

addr-fresh : (t : Tree) (k : ℕ) → max_addr t < k → has_addr k (descending t) ≡ false
unfolding max_addr has_addr
addr-fresh nil k h = refl
addr-fresh (node n lh rh l r) k h = ground (
  arith,
  has_addr-append k (descending r) (n ∷ descending l),
  addr-fresh l k (ground arith),
  addr-fresh r k (ground arith),
)

-- The address of a new node is not in use.
pub has_addr-fresh : (t : Tree) → has_addr (fresh t) (descending t) ≡ false
unfolding fresh
has_addr-fresh t = addr-fresh t (fresh t) (omega arith)

-- With distinct addresses a write changes one node.
pub write_at-one :
    (f : Lock → Lock) (xs ys : List Lock) (n : Lock)
    → Distinct (xs ++ (n ∷ ys))
    → write_at n.addr f (xs ++ (n ∷ ys)) ≡ xs ++ (f n ∷ ys)
unfolding has_addr
write_at-one f [] ys n d = ground (arith, write_at-absent n.addr f ys d.0)
write_at-one f (x ∷ xs) ys n d =
    ground (arith, write_at-one f xs ys n d.1, has_addr-append x.addr xs (n ∷ ys))
