-- ===== src/LockManager/Granted.antt =====
-- What the walk of `tryBackwardLock` in src/AVLTreeLockManager.cc does to each time.
use mvtx.Prelude.{ℕ, ◌≡◌, refl, ◌∙◌, Bool, inl, inr, some, List, [], ◌∷◌, ◌++◌, Bool-cases, All}
use mvtx.Prelude.Set
use mvtx.LockNode.{
  LockStatus, free, read_lock, write_lock, freeze_read_lock, freeze_write_lock, Lock,
}
use mvtx.LockNode.Descending.{has_addr, Distinct}
use mvtx.LockNode.Find.{Covers}
use mvtx.LockManager.{requested}
use mvtx.LockManager.Valid.{IsGrounded, State, state_of}
use mvtx.LockManager.Backward.{passes, shared, walked, passes-pos}

-- The state of a time that a transaction has locked.
abbrev pub share : LockStatus → Bool → ℕ → List ℕ → State
share free is_read tid tids = record { status = requested is_read; tids = Set.insert tid tids }
share read_lock is_read tid tids = record { status = read_lock; tids = Set.insert tid tids }
share s is_read tid tids = record { status = s; tids = tids }

pub shared-keeps :
    (s : LockStatus) (is_read : Bool) (tid : ℕ) (n : Lock)
    → (((shared s is_read tid n).addr ≡ n.addr) × ((shared s is_read tid n).start ≡ n.start))
      × ((shared s is_read tid n).end ≡ n.end)
shared-keeps free is_read tid n = ((refl, refl), refl)
shared-keeps read_lock is_read tid n = ((refl, refl), refl)
shared-keeps write_lock is_read tid n = ((refl, refl), refl)
shared-keeps freeze_read_lock is_read tid n = ((refl, refl), refl)
shared-keeps freeze_write_lock is_read tid n = ((refl, refl), refl)

pub shared-share :
    (s : LockStatus) (is_read : Bool) (tid : ℕ) (n : Lock)
    → s ≡ n.status
    → state_of (some (shared s is_read tid n)) ≡ some (share s is_read tid n.tids)
shared-share free is_read tid n e = refl
shared-share read_lock is_read tid n e = refl
shared-share write_lock is_read tid n e = cc
shared-share freeze_read_lock is_read tid n e = cc
shared-share freeze_write_lock is_read tid n e = cc

pub walked-Covers :
    (is_read : Bool) (tid lo hi : ℕ) (upper d : List Lock)
    → Covers lo hi (upper ++ d)
    → Covers lo hi (upper ++ walked is_read tid d)
walked-Covers is_read tid lo hi (x ∷ xs) d c =
    (c.0, c.1, walked-Covers is_read tid lo x.start xs d c.2)
walked-Covers is_read tid lo hi [] [] c = c
walked-Covers is_read tid lo hi [] (n ∷ d) c =
    let k = shared-keeps n.status is_read tid n in
    elim (Bool-cases (passes n.status is_read)) [
      | inl go ↦ rw (go, k.0.1, k.1) (c.0, c.1, walked-Covers is_read tid lo n.start [] d c.2)
      | inr stop ↦ rw stop c
    ]

walked-has_addr :
    (is_read : Bool) (tid a : ℕ) (upper d : List Lock)
    → has_addr a (upper ++ walked is_read tid d) ≡ has_addr a (upper ++ d)
unfolding has_addr
walked-has_addr is_read tid a (x ∷ xs) d = rw (walked-has_addr is_read tid a xs d) refl
walked-has_addr is_read tid a [] [] = refl
walked-has_addr is_read tid a [] (n ∷ d) = elim (Bool-cases (passes n.status is_read)) [
  | inl go ↦
      rw (go, (shared-keeps n.status is_read tid n).0.0, walked-has_addr is_read tid a [] d) refl
  | inr stop ↦ rw stop refl
]

pub walked-Distinct :
    (is_read : Bool) (tid : ℕ) (upper d : List Lock)
    → Distinct (upper ++ d)
    → Distinct (upper ++ walked is_read tid d)
walked-Distinct is_read tid (x ∷ xs) d h =
    (walked-has_addr is_read tid x.addr xs d ∙ h.0, walked-Distinct is_read tid xs d h.1)
walked-Distinct is_read tid [] [] h = h
walked-Distinct is_read tid [] (n ∷ d) h = elim (Bool-cases (passes n.status is_read)) [
  | inl go ↦
      rw (go, (shared-keeps n.status is_read tid n).0.0)
        (walked-has_addr is_read tid n.addr [] d ∙ h.0, walked-Distinct is_read tid [] d h.1)
  | inr stop ↦ rw stop h
]

pub walked-IsGrounded :
    (is_read : Bool) (tid : ℕ) (upper d : List Lock)
    → All IsGrounded (upper ++ d)
    → All IsGrounded (upper ++ walked is_read tid d)
walked-IsGrounded is_read tid (x ∷ xs) d g = (g.0, walked-IsGrounded is_read tid xs d g.1)
walked-IsGrounded is_read tid [] [] g = g
walked-IsGrounded is_read tid [] (n ∷ d) g = elim (Bool-cases (passes n.status is_read)) [
  | inl go ↦
      let pos = passes-pos n is_read g.0 go in
      rw go (
        inl (rw (shared-keeps n.status is_read tid n).0.1 pos),
        walked-IsGrounded is_read tid [] d g.1,
      )
  | inr stop ↦ rw stop g
]
