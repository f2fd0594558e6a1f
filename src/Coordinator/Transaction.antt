-- ===== src/Coordinator/Transaction.antt =====
-- Whole transactions of src/Coordinator.cc: reads and writes in any order, and then a commit.
use mvtx.Prelude.{
  ℕ, ◌≡◌, refl, ap, ◌∙◌, subst, Bool, true, false, ◌&&◌, ◌||◌, Option, none, some, List, [], ◌∷◌,
  ◌==◌, ==_iff, arith, Option-cases, Bool-cases, inl, inr, any,
}
use mvtx.Prelude.Map
use mvtx.Prelude.Set
use mvtx.Prelude.Set.{contains-insert, contains-insert_all}
use mvtx.Prelude.Run.{Run, ok, ◌>>=◌, >>=-ok, ok-injective}
use mvtx.Request.{ReadArgs, WriteArgs, RslArgs, Bytes}
use mvtx.Coordinator.{
  Coordinator, Requests, Uninitialised, new_coordinator, value_of, read, write, commit,
}
use mvtx.Coordinator.Commit.{participants, IsCovered, write-Touched, Decided, commit-Decided}

-- What a transaction does before its commit.
pub data Operation : Type 0 where
  read_of : (key : ℕ) → Operation
  write_of : (key : ℕ) → Bytes → Operation

abbrev pub key_of : Operation → ℕ
key_of (read_of key) = key
key_of (write_of key value) = key

abbrev pub is_write : Operation → Bool
is_write (read_of key) = false
is_write (write_of key value) = true

module _ {R : Type 0} (request : Requests R) (get_node : ℕ → ℕ) where
  unfoldable pub apply : Operation → Coordinator R → Run (Coordinator R)
  apply (read_of key) c = do (value, c') ← read request get_node key c; ok c'
  apply (write_of key value) c = write request get_node key value c

  unfoldable pub apply_all : List Operation → Coordinator R → Run (Coordinator R)
  unfolding apply
  apply_all [] c = ok c
  apply_all (op ∷ ops) c = do c' ← apply op c; apply_all ops c'

  -- Whether a node has to do with an operation, and whether it has to do with a write.
  abbrev pub touches : ℕ → Operation → Bool
  touches n op = get_node (key_of op) == n

  abbrev pub writes_to : ℕ → Operation → Bool
  writes_to n op = is_write op && touches n op

  -- What operations leave of a transaction.
  record Effect (ops : List Operation) (c c' : Coordinator R) : Type 0 where
    same : (c'.tid ≡ c.tid) × (c'.start_ts ≡ c.start_ts)
    covered : IsCovered request get_node c'
    written :
        (n : ℕ)
        → Set.contains n c'.write_nodes ≡ (Set.contains n c.write_nodes || any (writes_to n) ops)
    touched :
        (n : ℕ)
        → Set.contains n (participants c')
          ≡ (Set.contains n (participants c) || any (touches n) ops)

  read-Effect :
      (key : ℕ) (c : Coordinator R) (out : Option Bytes × Coordinator R)
      → IsCovered request get_node c
      → read request get_node key c ≡ ok out
      → Effect (read_of key ∷ []) c out.1
  unfolding read
  read-Effect key c out v e = elim (Option-cases (Map.find key c.pend_writes)) [
    | inr (value, at) ↦
        let e' : c ≡ out.1 =
          ap (λ (x : Option Bytes × Coordinator R). x.1)
            (ok-injective (some value, c) out (rw (at, read) at e)) in
        let inside = v key value at in
        let joined : Set.contains (get_node key) (participants c) ≡ true =
          rw (contains-insert_all c.read_nodes c.write_nodes (get_node key), inside)
            (ground arith) in
        subst (λ x. Effect (read_of key ∷ []) c x) e'
          (record {
            same = (refl, refl);
            covered = v;
            written = λ n. ground arith;
            touched = λ n. elim (Bool-cases (get_node key == n)) [
              | inl same ↦
                  let eq = (==_iff (get_node key) n).0 same in
                  let j = subst (λ x. Set.contains x (participants c) ≡ true) eq joined in
                  ground arith
              | inr other ↦ ground arith
            ];
          })
    | inl absent ↦
        let node = get_node key in
        let a : ReadArgs = record { tid = c.tid; start_ts = c.start_ts; key = key } in
        let sent =
          request (Set.insert node []) (RslArgs.read (record { read_args = a; value = none }))
            c.rsl_client in
        let f : RslArgs × R → Run (Option Bytes × Coordinator R) = λ x. ok (
          value_of x.0,
          record c { read_nodes = Set.insert node c.read_nodes; rsl_client = x.1 },
        ) in
        let b = >>=-ok sent f out (rw (absent, read) at e) in
        let new : Coordinator R = record c {
          read_nodes = Set.insert node c.read_nodes;
          rsl_client = b.0.1;
        } in
        let e' : new ≡ out.1 =
          ap (λ (x : Option Bytes × Coordinator R). x.1)
            (ok-injective (value_of b.0.0, new) out b.2) in
        subst (λ x. Effect (read_of key ∷ []) c x) e'
          (record {
            same = (refl, refl);
            covered = v;
            written = λ n. ground arith;
            touched = λ n. ground (
              arith,
              contains-insert_all (Set.insert node c.read_nodes) c.write_nodes n,
              contains-insert node n c.read_nodes,
              contains-insert_all c.read_nodes c.write_nodes n,
            );
          })
  ]

  write-Effect :
      (key : ℕ) (value : Bytes) (c c' : Coordinator R)
      → IsCovered request get_node c
      → write request get_node key value c ≡ ok c'
      → Effect (write_of key value ∷ []) c c'
  unfolding write
  write-Effect key value c c' v e =
      let node = get_node key in
      let a : WriteArgs = record { tid = c.tid; key = key; value = value } in
      let sent =
        request (Set.insert node []) (RslArgs.write (record { write_args = a })) c.rsl_client in
      let f : RslArgs × R → Run (Coordinator R) = λ x. ok (record c {
        pend_writes = Map.set key value c.pend_writes;
        write_nodes = Set.insert node c.write_nodes;
        rsl_client = x.1;
      }) in
      let b = >>=-ok sent f c' e in
      let new : Coordinator R = record c {
        pend_writes = Map.set key value c.pend_writes;
        write_nodes = Set.insert node c.write_nodes;
        rsl_client = b.0.1;
      } in
      let e' : new ≡ c' = ok-injective new c' b.2 in
      let known = (write-Touched request get_node key value c c' v e).0 in
      record {
        same =
            subst (λ (x : Coordinator R). (x.tid ≡ c.tid) × (x.start_ts ≡ c.start_ts)) e'
              (refl, refl);
        covered = known.covered;
        written = λ n.
            subst
              (λ (x : Coordinator R).
                Set.contains n x.write_nodes
                ≡ (Set.contains n c.write_nodes || any (writes_to n) (write_of key value ∷ [])))
              e' (ground (arith, contains-insert node n c.write_nodes));
        touched = λ n.
            subst
              (λ (x : Coordinator R).
                Set.contains n (participants x)
                ≡ (Set.contains n (participants c) || any (touches n) (write_of key value ∷ [])))
              e'
              (ground (
                arith,
                contains-insert_all c.read_nodes (Set.insert node c.write_nodes) n,
                contains-insert node n c.write_nodes,
                contains-insert_all c.read_nodes c.write_nodes n,
              ));
      }

  apply-Effect :
      (op : Operation) (c c' : Coordinator R)
      → IsCovered request get_node c
      → apply op c ≡ ok c'
      → Effect (op ∷ []) c c'
  unfolding apply
  apply-Effect (read_of key) c c' v e =
      let f : Option Bytes × Coordinator R → Run (Coordinator R) = λ x. ok x.1 in
      let b = >>=-ok (read request get_node key c) f c' e in
      subst (λ x. Effect (read_of key ∷ []) c x) (ok-injective b.0.1 c' b.2)
        (read-Effect key c b.0 v b.1)
  apply-Effect (write_of key value) c c' v e = write-Effect key value c c' v e

  apply_all-Effect :
      (ops : List Operation) (c c' : Coordinator R)
      → IsCovered request get_node c
      → apply_all ops c ≡ ok c'
      → Effect ops c c'
  unfolding apply_all
  apply_all-Effect [] c c' v e =
      subst (λ x. Effect [] c x) (ok-injective c c' e)
        (record {
          same = (refl, refl);
          covered = v;
          written = λ n. ground arith;
          touched = λ n. ground arith;
        })
  apply_all-Effect (op ∷ ops) c c' v e =
      let b = >>=-ok (apply op c) (apply_all ops) c' e in
      let one = apply-Effect op c b.0 v b.1 in
      let rest = apply_all-Effect ops b.0 c' one.covered b.2 in
      record {
        same = (rest.same.0 ∙ one.same.0, rest.same.1 ∙ one.same.1);
        covered = rest.covered;
        written = λ n. ground (arith, rest.written n, one.written n);
        touched = λ n. ground (arith, rest.touched n, one.touched n);
      }

  -- How a transaction with these operations ends: `c` is the transaction at its commit.
  pub record Ended (u : Uninitialised) (tid start_ts : ℕ) (ops : List Operation) (c : Coordinator R)
      (vote : Bool) (c' : Coordinator R) : Type 0 where
    pub decided : Decided request u c vote c'
    pub same : (c.tid ≡ tid) × (c.start_ts ≡ start_ts)
    pub asked : (n : ℕ) → Set.contains n c.write_nodes ≡ any (writes_to n) ops
    pub told : (n : ℕ) → Set.contains n (participants c) ≡ any (touches n) ops

  -- For a new transaction whose reads and writes, in any order, and whose commit return: the phase one
  -- commit, with the identifier and the start that the transaction was made with and its sets of nodes,
  -- goes to exactly the nodes of the keys that it wrote; the result is the vote of the answer; and the
  -- phase two commit with that vote goes to exactly the nodes of the keys that it read or wrote.
  pub transaction-Ended :
      (u : Uninitialised) (tid start_ts : ℕ) (r : R) (ops : List Operation) (c : Coordinator R)
      (vote : Bool) (c' : Coordinator R)
      → apply_all ops (new_coordinator tid start_ts r) ≡ ok c
      → commit request u c ≡ ok (vote, c')
      → Ended u tid start_ts ops c vote c'
  unfolding new_coordinator Map.find Set.contains Set.insert_all
  transaction-Ended u tid start_ts r ops c vote c' e d =
      let k = apply_all-Effect ops (new_coordinator tid start_ts r) c (λ k v at. cc) e in
      record {
        decided = commit-Decided request u c vote c' d;
        same = k.same;
        asked = k.written;
        told = k.touched;
      }
