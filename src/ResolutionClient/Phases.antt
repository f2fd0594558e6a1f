-- ===== src/ResolutionClient/Phases.antt =====
-- Phase one and phase two of a commit in src/SimpleResolutionClient.cc, over servers that answer.
use mvtx.Prelude.{
  ℕ, zero, suc, ◌+◌, ◌<◌, ◌≡◌, refl, sym, ◌∙◌, subst, Bool, true, false, ◌&&◌, inl, inr, List, [],
  ◌∷◌, arith, if◌then◌else◌, ◌==◌, ==_iff, Bool-cases,
}
use mvtx.Prelude.Map.{Map}
use mvtx.Prelude.Set
use mvtx.Prelude.Set.{contains-insert, contains-erase}
use mvtx.Prelude.Run.{Run, ok}
use mvtx.Request.{RslP1cArgs, RslP2cArgs, RpcArgs}
use mvtx.ResolutionClient.Addresses.{address_of, find_addresses-contains, address_of-find_addresses}
use mvtx.ResolutionClient.{
  RpcClient, ResolutionClient, Uninitialised, find_addresses, invalidate_addresses, nodes_of,
  vote_of, erase_all, send_all, wait_for, collect, rounds, request_p2c,
}

-- What the client relies on: a call is sent, the call of its tag is answered once, by the server at the
-- address, and calls with other tags are not disturbed.
pub record Answering {C : Type 0} (rpc : RpcClient C) : Type 1 where
  pub reply : ℕ → RpcArgs → RpcArgs
  pub Pending : C → ℕ → RpcArgs → Type 0
  pub sent :
      (addr tag : ℕ) (args : RpcArgs) (c : C)
      → (c' : C) × (rpc.async_rpc addr tag args c ≡ ok c')
        × Pending c' tag (reply addr args)
        × ((t : ℕ) (r : RpcArgs) → t < tag → Pending c t r → Pending c' t r)
  pub answered :
      (tag : ℕ) (r : RpcArgs) (c : C)
      → Pending c tag r
      → (c' : C) × (rpc.wait_async_reply tag c ≡ ok (true, r, c'))
        × ((t : ℕ) (r' : RpcArgs) → tag < t → Pending c t r' → Pending c' t r')

contains-erase_all :
    (x : ℕ) (nodes rem : List ℕ)
    → Set.contains x (erase_all nodes rem)
      ≡ (if Set.contains x nodes then false else Set.contains x rem)
unfolding erase_all Set.contains
contains-erase_all x [] rem = refl
contains-erase_all x (n ∷ nodes) rem =
    ground (arith, contains-erase_all x nodes (Set.erase n rem), contains-erase n x rem)

no_elements : (s : List ℕ) → ((x : ℕ) → Set.contains x s ≡ false) → s ≡ []
unfolding Set.contains
no_elements [] h = refl
no_elements (y ∷ s) h = let e = h y in absurd (ground arith)

module _ {C : Type 0} (rpc : RpcClient C) (u : Uninitialised) (net : Answering rpc) where
  open net use {reply, Pending, sent, answered}

  AllPending : RpcArgs → C → ℕ → List ℕ → Type 0
  AllPending args c tag [] = Unit {0}
  AllPending args c tag (addr ∷ addresses) =
      Pending c tag (reply addr args) × AllPending args c (tag + 1) addresses

  record Sent (args : RpcArgs) (addresses : List ℕ) (tag : ℕ) (c : C) (out : Run (ℕ × C))
      : Type 0 where
    tag' : ℕ
    c' : C
    runs : out ≡ ok (tag', c')
    pending : AllPending args c' tag addresses
    keeps : (t : ℕ) (r : RpcArgs) → t < tag → Pending c t r → Pending c' t r

  send_all-Sent :
      (args : RpcArgs) (addresses : List ℕ) (tag : ℕ) (c : C)
      → Sent args addresses tag c (send_all rpc u args addresses tag c)
  unfolding send_all AllPending
  send_all-Sent args [] tag c = record {
    tag' = tag;
    c' = c;
    runs = refl;
    pending = tt;
    keeps = λ t r lt p. p;
  }
  send_all-Sent args (addr ∷ addresses) tag c =
      let (c1, runs, mine, others) = sent addr tag args c in
      let rest = send_all-Sent args addresses (tag + 1) c1 in
      record {
        tag' = rest.tag';
        c' = rest.c';
        runs = rw runs rest.runs;
        pending = (rest.keeps tag (reply addr args) (omega arith) mine, rest.pending);
        keeps = λ t r lt p. rest.keeps t r (omega arith) (others t r lt p);
      }

  -- The votes of the servers, and the nodes for which none of them answers.
  abbrev pub all_vote : RpcArgs → List ℕ → Bool
  all_vote args [] = true
  all_vote args (addr ∷ addresses) = vote_of (reply addr args) && all_vote args addresses

  abbrev pub unanswered : RpcArgs → List ℕ → List ℕ → List ℕ
  unanswered args [] rem = rem
  unanswered args (addr ∷ addresses) rem =
      unanswered args addresses (erase_all (nodes_of (reply addr args)) rem)

  AllPending-keeps :
      (args : RpcArgs) (c c' : C) (low tag : ℕ) (addresses : List ℕ)
      → ((t : ℕ) (r : RpcArgs) → low < t → Pending c t r → Pending c' t r)
      → low < tag
      → AllPending args c tag addresses
      → AllPending args c' tag addresses
  unfolding AllPending
  AllPending-keeps args c c' low tag [] keeps lt p = tt
  AllPending-keeps args c c' low tag (addr ∷ addresses) keeps lt p = (
    keeps tag (reply addr args) lt p.0,
    AllPending-keeps args c c' low (tag + 1) addresses keeps (omega arith) p.1,
  )

  collect-answers :
      (fuel : ℕ) (args : RpcArgs) (addresses : List ℕ) (tag : ℕ) (rem : List ℕ) (vote : Bool)
      (c : C)
      → AllPending args c tag addresses
      → (c' : C) × (collect rpc u (suc fuel) addresses tag rem vote c
          ≡ ok (unanswered args addresses rem, vote && all_vote args addresses, c'))
  unfolding collect AllPending wait_for
  collect-answers fuel args [] tag rem vote c p = (c, ground arith)
  collect-answers fuel args (addr ∷ addresses) tag rem vote c p =
      let r = reply addr args in
      let (c1, runs, keeps) = answered tag r c p.0 in
      let (c2, rest) =
        collect-answers fuel args addresses (tag + 1) (erase_all (nodes_of r) rem)
          (vote && vote_of r) c1
          (AllPending-keeps args c c1 tag (tag + 1) addresses keeps (omega arith) p.1) in
      (c2, rw runs (rest ∙ ground arith))

  unanswered-absent :
      (x : ℕ) (args : RpcArgs) (addresses rem : List ℕ)
      → Set.contains x rem ≡ false
      → Set.contains x (unanswered args addresses rem) ≡ false
  unanswered-absent x args [] rem h = h
  unanswered-absent x args (addr ∷ addresses) rem h =
      let nodes = nodes_of (reply addr args) in
      unanswered-absent x args addresses (erase_all nodes rem)
        (contains-erase_all x nodes rem ∙ ground arith)

  unanswered-contains :
      (x at : ℕ) (args : RpcArgs) (addresses rem : List ℕ)
      → Set.contains at addresses ≡ true
      → Set.contains x (nodes_of (reply at args)) ≡ true
      → Set.contains x (unanswered args addresses rem) ≡ false
  unfolding Set.contains
  unanswered-contains x at args [] rem h k = cc
  unanswered-contains x at args (addr ∷ addresses) rem h k =
      let nodes = nodes_of (reply addr args) in
      elim (Bool-cases (addr == at)) [
        | inl same ↦
            let eq : addr ≡ at = (==_iff addr at).0 same in
            let k' = subst (λ y. Set.contains x (nodes_of (reply y args)) ≡ true) (sym eq) k in
            unanswered-absent x args addresses (erase_all nodes rem)
              (contains-erase_all x nodes rem ∙ rw k' refl)
        | inr other ↦
            unanswered-contains x at args addresses (erase_all nodes rem) (rw other at h) k
      ]

  -- If each node is answered for by the server at its address, no node is left after one round.
  all_answered :
      (args : RpcArgs) (nodes : List ℕ) (cache : Map ℕ)
      → ((x : ℕ)
          → Set.contains x nodes ≡ true
          → Set.contains x (nodes_of (reply (address_of x cache) args)) ≡ true)
      → unanswered args (find_addresses nodes [] cache).0 nodes ≡ []
  all_answered args nodes cache h =
      no_elements (unanswered args (find_addresses nodes [] cache).0 nodes) λ x.
        elim (Bool-cases (Set.contains x nodes)) [
          | inr out ↦ unanswered-absent x args (find_addresses nodes [] cache).0 nodes out
          | inl inside ↦
              unanswered-contains x (address_of x cache) args (find_addresses nodes [] cache).0
                nodes (find_addresses-contains x nodes [] cache inside) (h x inside)
        ]

  -- The outcome of phase one.
  pub record Voted (nodes : List ℕ) (a : RslP1cArgs) (c : ResolutionClient C)
      (out : Run (RslP1cArgs × ResolutionClient C)) : Type 0 where
    pub client : ResolutionClient C
    pub same_addresses :
        (x : ℕ) → address_of x client.node_to_address ≡ address_of x c.node_to_address
    pub runs :
        out
        ≡ ok (
          record a {
            vote =
                all_vote
                  (RpcArgs.p1c (record { p1c_args = a.p1c_args; nodes = []; vote = u.flag }))
                  (find_addresses nodes [] c.node_to_address).0;
          },
          client,
        )

  rounds-nil :
      (fuel : ℕ) (args : RpcArgs) (addresses : List ℕ) (vote : Bool) (c : ResolutionClient C)
      → rounds rpc u fuel args [] addresses vote c ≡ ok (vote, c)
  unfolding rounds
  rounds-nil zero args addresses vote c = refl
  rounds-nil (suc fuel) args addresses vote c = refl

  rounds-one :
      (fuel : ℕ) (args : RpcArgs) (n : ℕ) (nodes : List ℕ) (vote : Bool) (c : ResolutionClient C)
      → unanswered args (find_addresses (n ∷ nodes) [] c.node_to_address).0 (n ∷ nodes) ≡ []
      → (c' : ResolutionClient C) × (rounds rpc u (suc fuel) args (n ∷ nodes) [] vote c
          ≡ ok (vote && all_vote args (find_addresses (n ∷ nodes) [] c.node_to_address).0, c'))
        × ((x : ℕ) → address_of x c'.node_to_address ≡ address_of x c.node_to_address)
  unfolding rounds invalidate_addresses
  rounds-one fuel args n nodes vote c none_left =
      let found = find_addresses (n ∷ nodes) [] c.node_to_address in
      let s = send_all-Sent args found.0 c.tag c.rpc_client in
      let (c2, collected) =
        collect-answers fuel args found.0 c.tag (n ∷ nodes) vote s.c' s.pending in
      let client : ResolutionClient C = record {
        node_to_address = invalidate_addresses [] found.1;
        tag = s.tag';
        rpc_client = c2;
      } in
      (
        client,
        rw (s.runs, collected, none_left)
            (rounds-nil fuel args found.0 (vote && all_vote args found.0) client),
        λ x. address_of-find_addresses x (n ∷ nodes) [] c.node_to_address,
      )

  -- The servers at the addresses of the nodes answer for them.
  abbrev pub Answers : RpcArgs → List ℕ → Map ℕ → Type 0
  Answers args nodes cache =
      (x : ℕ)
      → Set.contains x nodes ≡ true
      → Set.contains x (nodes_of (reply (address_of x cache) args)) ≡ true

  abbrev pub p1c_call : RslP1cArgs → RpcArgs
  p1c_call a = RpcArgs.p1c (record { p1c_args = a.p1c_args; nodes = []; vote = u.flag })

  abbrev pub p2c_call : RslP2cArgs → RpcArgs
  p2c_call a = RpcArgs.p2c (record { p2c_args = a.p2c_args; nodes = [] })

  -- Phase two ends in the same way.
  pub request_p2c-ends :
      (fuel : ℕ) (nodes : List ℕ) (a : RslP2cArgs) (c : ResolutionClient C)
      → Answers (p2c_call a) nodes c.node_to_address
      → (c' : ResolutionClient C) × (request_p2c rpc u (suc fuel) nodes a c ≡ ok (a, c'))
  unfolding request_p2c
  request_p2c-ends fuel [] a c h = (c, unfold rounds in refl)
  request_p2c-ends fuel (n ∷ nodes) a c h =
      let args = p2c_call a in
      let (c', out, same) =
        rounds-one fuel args n nodes true c (all_answered args (n ∷ nodes) c.node_to_address h) in
      (c', rw out refl)
