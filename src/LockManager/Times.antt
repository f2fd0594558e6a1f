-- ===== src/LockManager/Times.antt =====
-- The walk of `tryBackwardLock` in src/AVLTreeLockManager.cc time by time: where it stops, which times
-- it grants, and which it leaves alone.
use mvtx.Prelude.{
  ℕ, ◌-◌, ◌<◌, ◌≤◌, ◌≡◌, refl, sym, ◌∙◌, subst, Bool, true, false, inl, inr, none, some, List, [],
  ◌∷◌, Bool-cases, arith, ltb, All, if◌then◌else◌,
}
use mvtx.LockNode.{Lock}
use mvtx.LockNode.Find.{Covers}
use mvtx.LockManager.Valid.{IsGrounded, state_of, holder}
use mvtx.LockManager.Backward.{
  passes, shared, walked, reached, waits, is_held, Holds, Covers-Holds, passes-pos,
}
use mvtx.LockManager.Granted.{share, shared-keeps, shared-share}

pub reached-le :
    (is_read : Bool) (ts hi : ℕ) (d : List Lock)
    → Covers 0 hi d
    → All IsGrounded d
    → Holds ts d
    → reached is_read d ts ≤ ts
reached-le is_read ts hi [] c g h = omega arith
reached-le is_read ts hi (n ∷ d) c g h = elim (Bool-cases (passes n.status is_read)) [
  | inl go ↦
      let pos = passes-pos n is_read g.0 go in
      rw go (
        omega (
          arith,
          h,
          reached-le is_read (n.start - 1) n.start d c.2 g.1 (Covers-Holds 0 n.start d c.2 pos),
        ))
  | inr stop ↦ rw stop (omega arith)
]

reached-stops :
    (is_read : Bool) (ts : ℕ) (n : Lock) (d : List Lock)
    → passes n.status is_read ≡ false
    → reached is_read (n ∷ d) ts ≡ ts
reached-stops is_read ts n d stop = rw stop refl

-- The lock at which the walk stops.
pub record Stop (is_read : Bool) (d : List Lock) (r : ℕ) : Type 0 where
  pub at : Lock
  pub held : holder r d ≡ some at
  pub closed : passes at.status is_read ≡ false
  pub waiting : waits is_read d ≡ (if is_held at.status then some at.end else none)

holder-next : (t : ℕ) (n : Lock) (d : List Lock) → t < n.start → holder t (n ∷ d) ≡ holder t d
holder-next t n d p = ground arith

holder-head : (t : ℕ) (n : Lock) (d : List Lock) → n.start ≤ t → holder t (n ∷ d) ≡ some n
holder-head t n d p = ground arith

reached-passes :
    (is_read : Bool) (ts : ℕ) (n : Lock) (d : List Lock)
    → passes n.status is_read ≡ true
    → reached is_read (n ∷ d) ts ≡ reached is_read d (n.start - 1)
reached-passes is_read ts n d go = rw go refl

pub walk-Stop :
    (is_read : Bool) (ts hi : ℕ) (d : List Lock)
    → Covers 0 hi d
    → All IsGrounded d
    → Holds ts d
    → Stop is_read d (reached is_read d ts)
walk-Stop is_read ts hi [] c g h = absurd h
walk-Stop is_read ts hi (n ∷ d) c g h = elim (Bool-cases (passes n.status is_read)) [
  | inl go ↦
      let pos = passes-pos n is_read g.0 go in
      let holds = Covers-Holds 0 n.start d c.2 pos in
      let s = walk-Stop is_read (n.start - 1) n.start d c.2 g.1 holds in
      let le = reached-le is_read (n.start - 1) n.start d c.2 g.1 holds in
      record {
        at = s.at;
        held =
            subst (λ x. holder x (n ∷ d) ≡ some s.at) (sym (reached-passes is_read ts n d go))
              (holder-next (reached is_read d (n.start - 1)) n d (omega arith) ∙ s.held);
        closed = s.closed;
        waiting = rw go s.waiting;
      }
  | inr stop ↦ record {
    at = n;
    held =
        subst (λ x. holder x (n ∷ d) ≡ some n) (sym (reached-stops is_read ts n d stop))
          (holder-head ts n d h.0);
    closed = stop;
    waiting = rw stop refl;
  }
]

-- A time that the walk has passed.
pub record Grant (is_read : Bool) (tid : ℕ) (d : List Lock) (t : ℕ) : Type 0 where
  pub at : Lock
  pub held : holder t d ≡ some at
  pub open_ : passes at.status is_read ≡ true
  pub now : state_of (holder t (walked is_read tid d)) ≡ some (share at.status is_read tid at.tids)

pub walk-Grant :
    (is_read : Bool) (tid ts hi t : ℕ) (d : List Lock)
    → Covers 0 hi d
    → All IsGrounded d
    → Holds ts d
    → t ≤ ts
    → reached is_read d ts < t
    → Grant is_read tid d t
walk-Grant is_read tid ts hi t [] c g h p q = absurd h
walk-Grant is_read tid ts hi t (n ∷ d) c g h p q = elim (Bool-cases (passes n.status is_read)) [
  | inl go ↦
      let pos = passes-pos n is_read g.0 go in
      let q' : reached is_read d (n.start - 1) < t = rw go at q in
      let k = (shared-keeps n.status is_read tid n).0.1 in
      elim (Bool-cases (ltb t n.start)) [
        | inl below ↦
            let holds = Covers-Holds 0 n.start d c.2 pos in
            let e =
              walk-Grant is_read tid (n.start - 1) n.start t d c.2 g.1 holds (ground arith) q' in
            let lt : t < n.start = ground arith in
            record {
              at = e.at;
              held = rw (holder-next t n d lt) e.held;
              open_ = e.open_;
              now =
                  rw
                    (
                      go,
                      holder-next t (shared n.status is_read tid n) (walked is_read tid d)
                          (omega (arith, k, lt)),
                    )
                    e.now;
            }
        | inr above ↦
            let le : n.start ≤ t = ground arith in
            record {
              at = n;
              held = holder-head t n d le;
              open_ = go;
              now =
                  rw
                    (
                      go,
                      holder-head t (shared n.status is_read tid n) (walked is_read tid d)
                          (omega (arith, k, le)),
                    )
                    (shared-share n.status is_read tid n refl);
            }
      ]
  | inr stop ↦ absurd (omega (arith, (rw stop at q), p))
]

-- At and below the time where it stops, nothing changes.
pub walk-below :
    (is_read : Bool) (tid ts hi t : ℕ) (d : List Lock)
    → Covers 0 hi d
    → All IsGrounded d
    → Holds ts d
    → t ≤ reached is_read d ts
    → state_of (holder t (walked is_read tid d)) ≡ state_of (holder t d)
walk-below is_read tid ts hi t [] c g h p = refl
walk-below is_read tid ts hi t (n ∷ d) c g h p = elim (Bool-cases (passes n.status is_read)) [
  | inl go ↦
      let pos = passes-pos n is_read g.0 go in
      let holds = Covers-Holds 0 n.start d c.2 pos in
      let le = reached-le is_read (n.start - 1) n.start d c.2 g.1 holds in
      let p' : t ≤ reached is_read d (n.start - 1) = rw go at p in
      let k = (shared-keeps n.status is_read tid n).0.1 in
      rw
        (
          go,
          holder-next t n d (omega arith),
          holder-next t (shared n.status is_read tid n) (walked is_read tid d) (omega (arith, k)),
        )
        (walk-below is_read tid (n.start - 1) n.start t d c.2 g.1 holds p')
  | inr stop ↦ rw stop refl
]
