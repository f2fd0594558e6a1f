-- ===== src/Coordinator/Commit.antt =====
-- The participants of a transaction of src/Coordinator.cc: the nodes that its phase two commit goes to.
use mvtx.Prelude.{
  ℕ, ◌≡◌, refl, ap, sym, ◌∙◌, subst, Bool, true, Option, none, some, List, [], ◌==◌, ==_iff, arith,
  Option-cases, Bool-cases, inl, inr,
}
use mvtx.Prelude.Map
use mvtx.Prelude.Map.{find-set, find-set_self}
use mvtx.Prelude.Set
use mvtx.Prelude.Set.{contains-insert, contains-insert_all}
use mvtx.Prelude.Run.{Run, ok, >>=-ok, ok-injective}
use mvtx.Request.{ReadArgs, WriteArgs, P1cArgs, RslArgs, Bytes}
use mvtx.Coordinator.{
  Coordinator, Requests, Uninitialised, value_of, vote_of, read, write, send_p1c, send_p2c, commit,
}

-- The nodes of the phase two commit.
abbrev pub participants : {R : Type 0} → Coordinator R → List ℕ
participants c = Set.insert_all c.read_nodes c.write_nodes

module _ {R : Type 0} (request : Requests R) (get_node : ℕ → ℕ) where
  -- Every key that was written has its node among those of the writes.
  abbrev pub IsCovered : Coordinator R → Type 0
  IsCovered c =
      (k : ℕ) (v : Bytes)
      → Map.find k c.pend_writes ≡ some v
      → Set.contains (get_node k) c.write_nodes ≡ true

  covered_set :
      (c : Coordinator R) (key : ℕ) (value : Bytes)
      → IsCovered c
      → (k : ℕ) (w : Bytes) → Map.find k (Map.set key value c.pend_writes) ≡ some w
      → Set.contains (get_node k) (Set.insert (get_node key) c.write_nodes) ≡ true
  covered_set c key value v k w at =
      rw (contains-insert (get_node key) (get_node k) c.write_nodes) (elim (Bool-cases (key == k)) [
        | inl same ↦
            let e = ap get_node ((==_iff key k).0 same) in
            let t = (==_iff (get_node key) (get_node k)).1 e in rw t refl
        | inr other ↦
            let at' = rw (find-set key k value c.pend_writes, other) at at in
            rw (v k w at') (ground arith)
      ])

  -- What an operation on `key` leaves.
  pub record Touched (key : ℕ) (c c' : Coordinator R) : Type 0 where
    pub covered : IsCovered c'
    pub joined : Set.contains (get_node key) (participants c') ≡ true
    pub stay :
        (n : ℕ) → Set.contains n (participants c) ≡ true → Set.contains n (participants c') ≡ true

  -- A read that returns, in a transaction whose written keys have their nodes among those of the writes:
  -- that still holds, the node of the key is a participant, and the participants stay.
  pub read-Touched :
      (key : ℕ) (c : Coordinator R) (out : Option Bytes × Coordinator R)
      → IsCovered c
      → read request get_node key c ≡ ok out
      → Touched key c out.1
  unfolding read
  read-Touched key c out v e = elim (Option-cases (Map.find key c.pend_writes)) [
    | inr (value, at) ↦
        let e' : c ≡ out.1 =
          ap (λ (x : Option Bytes × Coordinator R). x.1)
            (ok-injective (some value, c) out (rw (at, read) at e)) in
        subst (λ x. Touched key c x) e'
          (record {
            covered = v;
            joined =
                rw (contains-insert_all c.read_nodes c.write_nodes (get_node key), v key value at)
                  (ground arith);
            stay = λ n h. h;
          })
    | inl absent ↦
        let node = get_node key in
        let a : ReadArgs = record { tid = c.tid; start_ts = c.start_ts; key = key } in
        let sent =
          request (Set.insert node []) (RslArgs.read (record { read_args = a; value = none }))
            c.rsl_client in
        let f : RslArgs × R → Run (Option Bytes × Coordinator R) = λ x. ok (
          value_of x.0,
          record c { read_nodes = Set.insert node c.read_nodes; rsl_client = x.1 },
        ) in
        let b = >>=-ok sent f out (rw (absent, read) at e) in
        let new : Coordinator R = record c {
          read_nodes = Set.insert node c.read_nodes;
          rsl_client = b.0.1;
        } in
        let e' : new ≡ out.1 =
          ap (λ (x : Option Bytes × Coordinator R). x.1)
            (ok-injective (value_of b.0.0, new) out b.2) in
        subst (λ x. Touched key c x) e'
          (record {
            covered = v;
            joined =
                rw
                  (
                    contains-insert_all (Set.insert node c.read_nodes) c.write_nodes node,
                    contains-insert node node c.read_nodes,
                  )
                  (ground arith);
            stay = λ n h. ground (
              arith,
              contains-insert_all (Set.insert node c.read_nodes) c.write_nodes n,
              contains-insert node n c.read_nodes,
              contains-insert_all c.read_nodes c.write_nodes n,
            );
          })
  ]

  -- A write that returns, in a transaction whose written keys have their nodes among those of the writes:
  -- that still holds, the node of the key is a participant, the participants stay, and a read of the key
  -- gives the value and changes nothing.
  pub write-Touched :
      (key : ℕ) (value : Bytes) (c c' : Coordinator R)
      → IsCovered c
      → write request get_node key value c ≡ ok c'
      → Touched key c c' × (read request get_node key c' ≡ ok (some value, c'))
  unfolding read write
  write-Touched key value c c' v e =
      let node = get_node key in
      let a : WriteArgs = record { tid = c.tid; key = key; value = value } in
      let sent =
        request (Set.insert node []) (RslArgs.write (record { write_args = a })) c.rsl_client in
      let f : RslArgs × R → Run (Coordinator R) = λ x. ok (record c {
        pend_writes = Map.set key value c.pend_writes;
        write_nodes = Set.insert node c.write_nodes;
        rsl_client = x.1;
      }) in
      let b = >>=-ok sent f c' e in
      let new : Coordinator R = record c {
        pend_writes = Map.set key value c.pend_writes;
        write_nodes = Set.insert node c.write_nodes;
        rsl_client = b.0.1;
      } in
      let e' : new ≡ c' = ok-injective new c' b.2 in
      let found = find-set_self key value c.pend_writes in
      subst (λ x. Touched key c x × (read request get_node key x ≡ ok (some value, x))) e'
        (
          record {
            covered = λ k w at. covered_set c key value v k w at;
            joined =
                rw
                  (
                    contains-insert_all c.read_nodes (Set.insert node c.write_nodes) node,
                    contains-insert node node c.write_nodes,
                  )
                  (ground arith);
            stay = λ n h. ground (
              arith,
              contains-insert_all c.read_nodes (Set.insert node c.write_nodes) n,
              contains-insert node n c.write_nodes,
              contains-insert_all c.read_nodes c.write_nodes n,
            );
          },
          rw (found, read) refl,
        )

-- What the nodes of the writes are asked: the transaction, its start as both times, and its nodes.
abbrev pub question : {R : Type 0} → Coordinator R → P1cArgs
question c = record {
  tid = c.tid;
  start_ts = c.start_ts;
  commit_ts = c.start_ts;
  read_nodes = c.read_nodes;
  write_nodes = c.write_nodes;
}

-- How a commit is decided: by the answer of the nodes of the writes to phase one, of which all
-- participants are told.
pub record Decided {R : Type 0} (request : Requests R) (u : Uninitialised) (c : Coordinator R)
    (vote : Bool) (c' : Coordinator R) : Type 0 where
  pub answer : RslArgs × R
  pub phase_one :
      request c.write_nodes
        (RslArgs.p1c (record { p1c_args = question c; vote = u.flag }))
        c.rsl_client
      ≡ ok answer
  pub voted : vote ≡ vote_of answer.0
  pub told : RslArgs
  pub phase_two :
      request
        (participants c)
        (RslArgs.p2c (record { p2c_args = record { tid = c.tid; vote = vote } }))
        answer.1
      ≡ ok (told, c'.rsl_client)
  pub unchanged : (c'.pend_writes ≡ c.pend_writes) × (participants c' ≡ participants c)

-- A commit that returns has sent a phase one commit with its identifier, its start as both times, and its nodes
-- to the nodes of the writes; its result is the vote of the answer, and a phase two commit with that vote went to all
-- participants. The pending writes and the participants are unchanged.
pub commit-Decided :
    {R : Type 0} (request : Requests R) (u : Uninitialised) (c : Coordinator R) (vote : Bool)
    (c' : Coordinator R)
    → commit request u c ≡ ok (vote, c')
    → Decided request u c vote c'
unfolding commit send_p1c send_p2c
commit-Decided {R} request u c vote c' e =
    let sent =
      request c.write_nodes (RslArgs.p1c (record { p1c_args = question c; vote = u.flag }))
        c.rsl_client in
    let (one, e1, v1) = >>=-ok (send_p1c request u c) _ (vote, c') e in
    let (two, e2, v2) = >>=-ok (send_p2c request u one.0 c one.1) _ (vote, c') v1 in
    let (ans, e3, v3) = >>=-ok sent _ one e1 in
    let (told, e4, v4) =
      >>=-ok
        (request (participants c)
          (RslArgs.p2c (record { p2c_args = record { tid = c.tid; vote = one.0 } })) one.1)
        _ two e2 in
    let d1 = ok-injective (vote_of ans.0, ans.1) one v3 in
    let d2 = ok-injective (one.0, record c { rsl_client = two }) (vote, c') v2 in
    let q0 : one.0 ≡ vote = ap (λ (x : Bool × Coordinator R). x.0) d2 in
    let q1 : ans.1 ≡ one.1 = ap (λ (x : Bool × R). x.1) d1 in
    let q2 : told.1 ≡ c'.rsl_client =
      ok-injective told.1 two v4 ∙ ap (λ (x : Bool × Coordinator R). x.1.rsl_client) d2 in
    let ask : Bool → R → Run (RslArgs × R) = λ v r.
      request (participants c)
        (RslArgs.p2c (record { p2c_args = record { tid = c.tid; vote = v } })) r in
    record {
      answer = ans;
      phase_one = e3;
      voted = sym q0 ∙ sym (ap (λ (x : Bool × R). x.0) d1);
      told = told.0;
      phase_two =
          ap (λ v. ask v ans.1) (sym q0) ∙ ap (ask one.0) q1 ∙ e4 ∙ ap (λ x. ok (told.0, x)) q2;
      unchanged = (
        ap (λ (x : Bool × Coordinator R). x.1.pend_writes) (sym d2),
        ap (λ (x : Bool × Coordinator R). participants x.1) (sym d2),
      );
    }
