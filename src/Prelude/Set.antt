-- ===== src/Prelude/Set.antt =====
-- `std::set<uint64_t>`: a list in increasing order, which is the order of iteration.
use Prim.Native.Nat.{ℕ, ◌<◌}
use mathlib.Core.Path.{◌≡◌, refl, sym, ◌∙◌, subst}
use mathlib.Core.Bool.{Bool, false, ◌||◌}
use mathlib.Core.List.{List, [], ◌∷◌, ◌++◌, append-nil, append_assoc}
use native.Mathlib.Omega.{arith}
use mathlib.Core.Logic.{inl, inr}
use mvtx.Prelude.Lists.{All, All-right}
use mvtx.Prelude.Tests.{ltb, ◌==◌, if◌then◌else◌, Bool-cases, ltb→lt}

-- `s.find(x) != s.end()`
unfoldable pub contains : ℕ → List ℕ → Bool
contains x [] = false
contains x (y ∷ s) = y == x || contains x s

-- `s.insert(x)`
unfoldable pub insert : ℕ → List ℕ → List ℕ
insert x [] = x ∷ []
insert x (y ∷ s) = if ltb x y then x ∷ y ∷ s else if y == x then y ∷ s else y ∷ insert x s

-- `s.insert(t.begin(), t.end())`
unfoldable pub insert_all : List ℕ → List ℕ → List ℕ
insert_all [] s = s
insert_all (x ∷ t) s = insert_all t (insert x s)

-- `s.erase(x)`
unfoldable pub erase : ℕ → List ℕ → List ℕ
erase x [] = []
erase x (y ∷ s) = let rest = erase x s in if y == x then rest else y ∷ rest

pub contains-insert : (x y : ℕ) (s : List ℕ) → contains y (insert x s) ≡ (x == y || contains y s)
unfolding contains insert
contains-insert x y [] = refl
contains-insert x y (z ∷ s) = ground (arith, contains-insert x y s)

pub contains-erase :
    (x y : ℕ) (s : List ℕ) → contains y (erase x s) ≡ (if x == y then false else contains y s)
unfolding contains erase
contains-erase x y [] = ground arith
contains-erase x y (z ∷ s) = ground (arith, contains-erase x y s)

pub contains-insert_all :
    (t s : List ℕ) (y : ℕ) → contains y (insert_all t s) ≡ (contains y t || contains y s)
unfolding contains insert_all
contains-insert_all [] s y = refl
contains-insert_all (x ∷ t) s y =
    ground (arith, contains-insert_all t (insert x s) y, contains-insert x y s)

-- The lists that stand for sets: each element once, in increasing order.
abbrev pub IsSorted : List ℕ → Type 0
IsSorted [] = Unit {0}
IsSorted (x ∷ s) = All (λ y. x < y) s × IsSorted s

insert_last : (x : ℕ) (s : List ℕ) → All (λ y. y < x) s → insert x s ≡ s ++ (x ∷ [])
unfolding insert
insert_last x [] h = refl
insert_last x (y ∷ s) h = ground (arith, insert_last x s h.1, h.0)

IsSorted-below : (x : ℕ) (s t : List ℕ) → IsSorted (s ++ (x ∷ t)) → All (λ y. y < x) s
IsSorted-below x [] t h = tt
IsSorted-below x (y ∷ s) t h = ((All-right (λ z. y < z) s (x ∷ t) h.0).0, IsSorted-below x s t h.1)

-- A set that is inserted in order, element by element, below its end.
insert_all-append : (t s : List ℕ) → IsSorted (s ++ t) → insert_all t s ≡ s ++ t
unfolding insert_all
insert_all-append [] s h = sym (append-nil s)
insert_all-append (x ∷ t) s h =
    let e = append_assoc s (x ∷ []) t in
    rw (insert_last x s (IsSorted-below x s t h))
      (insert_all-append t (s ++ (x ∷ [])) (subst IsSorted (sym e) h) ∙ e)

pub insert_all-nil : (t : List ℕ) → IsSorted t → insert_all t [] ≡ t
insert_all-nil t h = insert_all-append t [] h

insert_keeps {κ} : (P : ℕ → Type κ) (x : ℕ) (s : List ℕ) → P x → All P s → All P (insert x s)
unfolding insert
insert_keeps P x [] p h = (p, tt)
insert_keeps P x (y ∷ s) p h =
    let rest = insert_keeps P x s p h.1 in
    elim (Bool-cases (ltb x y)) [
      | inl lt ↦ rw lt (p, h)
      | inr ge ↦ elim (Bool-cases (y == x)) [
        | inl same ↦ rw (ge, same) h
        | inr other ↦ rw (ge, other) (h.0, rest)
      ]
    ]

above_less : (x y : ℕ) (s : List ℕ) → x < y → All (λ z. y < z) s → All (λ z. x < z) s
above_less x y [] p h = tt
above_less x y (z ∷ s) p h = (omega arith, above_less x y s p h.1)

pub insert-IsSorted : (x : ℕ) (s : List ℕ) → IsSorted s → IsSorted (insert x s)
unfolding insert
insert-IsSorted x [] h = (tt, tt)
insert-IsSorted x (y ∷ s) h =
    let rest = insert-IsSorted x s h.1 in
    elim (Bool-cases (ltb x y)) [
      | inl lt ↦ rw lt ((ltb→lt x y lt, above_less x y s (ltb→lt x y lt) h.0), h)
      | inr ge ↦ elim (Bool-cases (y == x)) [
        | inl same ↦ rw (ge, same) h
        | inr other ↦ rw (ge, other) (insert_keeps (λ z. y < z) x s (ground arith) h.0, rest)
      ]
    ]

pub insert_all-IsSorted : (t s : List ℕ) → IsSorted s → IsSorted (insert_all t s)
unfolding insert_all
insert_all-IsSorted [] s h = h
insert_all-IsSorted (x ∷ t) s h = insert_all-IsSorted t (insert x s) (insert-IsSorted x s h)
