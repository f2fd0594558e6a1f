-- ===== src/Prelude/Map.antt =====
-- `std::map<uint64_t, V>`: an association list in the order of its keys, which is the order in
-- which the program iterates.
use Prim.Native.Nat.{ℕ, ◌<◌}
use mathlib.Core.Path.{◌≡◌, refl, subst}
use mathlib.Core.Option.{Option, none, some}
use mathlib.Core.List.{List, [], ◌∷◌}
use native.Mathlib.Omega.{arith}
use mathlib.Core.Logic.{inl, inr}
use mvtx.Prelude.Lists.{All}
use mvtx.Prelude.Tests.{ltb, ◌==◌, if◌then◌else◌, Bool-cases, ltb→lt}

abbrev pub Map {ℓ} : Type ℓ → Type ℓ
Map V = List (ℕ × V)

module _ {ℓ} {V : Type ℓ} where
  -- `m.find(k)`
  unfoldable pub find : ℕ → Map V → Option V
  find k [] = none
  find k ((j, v) ∷ m) = if j == k then some v else find k m

  -- `m[k] = v`
  unfoldable pub set : ℕ → V → Map V → Map V
  set k v [] = (k, v) ∷ []
  set k v ((j, w) ∷ m) =
      if ltb k j then (k, v) ∷ (j, w) ∷ m else if j == k then (k, v) ∷ m else (j, w) ∷ set k v m

  -- `m.erase(k)`
  unfoldable pub erase : ℕ → Map V → Map V
  erase k [] = []
  erase k ((j, v) ∷ m) = let rest = erase k m in if j == k then rest else (j, v) ∷ rest

  pub find-set :
      (k j : ℕ) (v : V) (m : Map V) → find j (set k v m) ≡ (if k == j then some v else find j m)
  unfolding find set
  find-set k j v [] = refl
  find-set k j v ((i, w) ∷ m) = ground (arith, find-set k j v m)

  pub find-erase : (k j : ℕ) (m : Map V) → find j (erase k m) ≡ (if k == j then none else find j m)
  unfolding find erase
  find-erase k j [] = ground arith
  find-erase k j ((i, w) ∷ m) = ground (arith, find-erase k j m)

  pub find-set_self : (k : ℕ) (v : V) (m : Map V) → find k (set k v m) ≡ some v
  find-set_self k v m = ground (arith, find-set k k v m)

  -- The keys in increasing order, each once.
  abbrev pub IsSorted : Map V → Type 0
  IsSorted [] = Unit {0}
  IsSorted ((k, v) ∷ m) = All (λ entry. k < entry.0) m × IsSorted m

  pub find-below : (k : ℕ) (m : Map V) → All (λ entry. k < entry.0) m → find k m ≡ none
  unfolding find
  find-below k [] h = refl
  find-below k ((j, v) ∷ m) h = ground (arith, find-below k m h.1, h.0)

  pub All-set {κ} :
      (P : ℕ × V → Type κ) (k : ℕ) (v : V) (m : Map V) → P (k, v) → All P m → All P (set k v m)
  unfolding set
  All-set P k v [] p h = (p, tt)
  All-set P k v ((j, w) ∷ m) p h =
      let rest = All-set P k v m p h.1 in
      elim (Bool-cases (ltb k j)) [
        | inl lt ↦ rw lt (p, h)
        | inr ge ↦ elim (Bool-cases (j == k)) [
          | inl same ↦ rw (ge, same) (p, h.1)
          | inr other ↦ rw (ge, other) (h.0, rest)
        ]
      ]

  above_less :
      (x y : ℕ) (m : Map V) → x < y → All (λ entry. y < entry.0) m → All (λ entry. x < entry.0) m
  above_less x y [] p h = tt
  above_less x y (e ∷ m) p h = (omega arith, above_less x y m p h.1)

  pub set-IsSorted : (k : ℕ) (v : V) (m : Map V) → IsSorted m → IsSorted (set k v m)
  unfolding set
  set-IsSorted k v [] h = (tt, tt)
  set-IsSorted k v ((j, w) ∷ m) h =
      let rest = set-IsSorted k v m h.1 in
      elim (Bool-cases (ltb k j)) [
        | inl lt ↦ rw lt ((ltb→lt k j lt, above_less k j m (ltb→lt k j lt) h.0), h)
        | inr ge ↦ elim (Bool-cases (j == k)) [
          | inl same ↦
              rw (ge, same) (subst (λ x. All (λ entry. x < entry.0) m) (ground arith) h.0, h.1)
          | inr other ↦
              rw (ge, other) (All-set (λ entry. j < entry.0) k v m (ground arith) h.0, rest)
        ]
      ]

pub ruleset map_laws = (find-set, find-erase, find-set_self)
