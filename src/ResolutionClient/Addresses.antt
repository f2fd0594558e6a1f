-- ===== src/ResolutionClient/Addresses.antt =====
-- The addresses that src/SimpleResolutionClient.cc finds for the nodes of a request.
use mvtx.Prelude.{
  ℕ, ◌≡◌, refl, ap, sym, ◌∙◌, subst, true, inl, inr, Option, none, some, List, [], ◌∷◌, arith, ◌==◌,
  ==_iff, Bool-cases, Option-cases,
}
use mvtx.Prelude.Map
use mvtx.Prelude.Map.{Map, find-set}
use mvtx.Prelude.Set
use mvtx.Prelude.Set.{contains-insert}
use mvtx.ResolutionClient.{default_address, find_addresses}

-- The address at which a node is looked for.
abbrev pub or_default : Option ℕ → ℕ
or_default none = default_address
or_default (some addr) = addr

abbrev pub address_of : ℕ → Map ℕ → ℕ
address_of node cache = or_default (Map.find node cache)

address_of-default :
    (node x : ℕ) (cache : Map ℕ)
    → Map.find node cache ≡ none
    → address_of x (Map.set node default_address cache) ≡ address_of x cache
address_of-default node x cache absent =
    let e = ap or_default (find-set node x default_address cache) in
    elim (Bool-cases (node == x)) [
      | inl same ↦
          let eq : node ≡ x = (==_iff node x).0 same in
          let gone : Map.find x cache ≡ none = subst (λ y. Map.find y cache ≡ none) eq absent in
          e ∙ rw (same, gone) refl
      | inr other ↦ e ∙ rw other refl
    ]

insert_self : (x : ℕ) (s : List ℕ) → Set.contains x (Set.insert x s) ≡ true
insert_self x s = contains-insert x x s ∙ ground arith

insert-keeps :
    (x y : ℕ) (s : List ℕ) → Set.contains y s ≡ true → Set.contains y (Set.insert x s) ≡ true
insert-keeps x y s h = contains-insert x y s ∙ ground arith

-- The addresses hold those that were there, and those of all nodes.
find_addresses-keeps :
    (x : ℕ) (nodes addresses : List ℕ) (cache : Map ℕ)
    → Set.contains x addresses ≡ true
    → Set.contains x (find_addresses nodes addresses cache).0 ≡ true
unfolding find_addresses
find_addresses-keeps x [] addresses cache h = h
find_addresses-keeps x (n ∷ nodes) addresses cache h = elim (Option-cases (Map.find n cache)) [
  | inl absent ↦
      rw (absent, find_addresses)
        (find_addresses-keeps x nodes (Set.insert default_address addresses)
          (Map.set n default_address cache) (insert-keeps default_address x addresses h))
  | inr (addr, there) ↦
      rw (there, find_addresses)
        (find_addresses-keeps x nodes (Set.insert addr addresses) cache
          (insert-keeps addr x addresses h))
]

pub find_addresses-contains :
    (x : ℕ) (nodes addresses : List ℕ) (cache : Map ℕ)
    → Set.contains x nodes ≡ true
    → Set.contains (address_of x cache) (find_addresses nodes addresses cache).0 ≡ true
unfolding find_addresses Set.contains
find_addresses-contains x [] addresses cache h = cc
find_addresses-contains x (n ∷ nodes) addresses cache h = elim (Option-cases (Map.find n cache)) [
  | inl absent ↦
      let cache' = Map.set n default_address cache in
      let addresses' = Set.insert default_address addresses in
      rw (absent, find_addresses)
        (elim (Bool-cases (n == x)) [
          | inl same ↦
              let eq : n ≡ x = (==_iff n x).0 same in
              let at : default_address ≡ address_of x cache =
                subst (λ y. default_address ≡ address_of y cache) eq (sym (ap or_default absent)) in
              subst (λ y. Set.contains y (find_addresses nodes addresses' cache').0 ≡ true) at
                (find_addresses-keeps default_address nodes addresses' cache'
                  (insert_self default_address addresses))
          | inr other ↦
              subst (λ y. Set.contains y (find_addresses nodes addresses' cache').0 ≡ true)
                (address_of-default n x cache absent)
                (find_addresses-contains x nodes addresses' cache' (rw other at h))
        ])
  | inr (addr, there) ↦
      let addresses' = Set.insert addr addresses in
      rw (there, find_addresses)
        (elim (Bool-cases (n == x)) [
          | inl same ↦
              let eq : n ≡ x = (==_iff n x).0 same in
              let at : addr ≡ address_of x cache =
                subst (λ y. addr ≡ address_of y cache) eq (sym (ap or_default there)) in
              subst (λ y. Set.contains y (find_addresses nodes addresses' cache).0 ≡ true) at
                (find_addresses-keeps addr nodes addresses' cache (insert_self addr addresses))
          | inr other ↦ find_addresses-contains x nodes addresses' cache (rw other at h)
        ])
]

-- No node is looked for elsewhere afterwards.
pub address_of-find_addresses :
    (x : ℕ) (nodes addresses : List ℕ) (cache : Map ℕ)
    → address_of x (find_addresses nodes addresses cache).1 ≡ address_of x cache
unfolding find_addresses
address_of-find_addresses x [] addresses cache = refl
address_of-find_addresses x (n ∷ nodes) addresses cache = elim (Option-cases (Map.find n cache)) [
  | inl absent ↦
      rw (absent, find_addresses)
        (address_of-find_addresses x nodes (Set.insert default_address addresses)
            (Map.set n default_address cache)
          ∙ address_of-default n x cache absent)
  | inr (addr, there) ↦
      rw (there, find_addresses)
        (address_of-find_addresses x nodes (Set.insert addr addresses) cache)
]
