-- ===== src/Coordinator/Withdraw/Balance.antt =====
-- What a withdrawal of src/WithdrawCoordinator.cc does to the balances, over a resolution client that answers.
use mvtx.Prelude.{
  ℕ, ◌+◌, ◌%◌, ◌^◌, ◌≤◌, ◌<◌, ◌≡◌, refl, Bool, true, false, none, some, List, [], leb, ltb, ==_iff,
  arith, Bool-cases, inl, inr,
}
use mvtx.Prelude.Map
use mvtx.Prelude.Map.{find-set_self}
use mvtx.Prelude.Set
use mvtx.Prelude.Set.{contains-insert, contains-insert_all}
use mvtx.Prelude.Run.{Run, ok}
use mvtx.Request.{RslArgs, Bytes}
use mvtx.Coordinator.{Coordinator, Requests, Uninitialised, value_of, read, write, commit}
use mvtx.Coordinator.Commit.{participants, Decided, commit-Decided}
use mvtx.Coordinator.Withdraw.{
  WithdrawCoordinator, new_withdraw, biased, add_int, to_int, subtract, balance, withdraw, run,
}

biased-small : (x : ℕ) → x < 2 ^ 31 → biased x ≡ x + 2 ^ 31
unfolding biased
biased-small x p = omega arith

-- Two `int`s do not overflow together if their sum lies in [-2^31, 2^31): in these terms, in
-- [2^31, 2^31 + 2^32).
abbrev pub Fits : ℕ → ℕ → Type 0
Fits x y = (2 ^ 31 ≤ biased x + biased y) × (biased x + biased y < 2 ^ 31 + 2 ^ 32)

abbrev total : ℕ → ℕ → ℕ
total x y = (x + y) % 2 ^ 32

add_int-Fits : (x y : ℕ) → Fits x y → add_int x y ≡ ok (total x y)
unfolding add_int
add_int-Fits x y p =
    let low : leb (2 ^ 31) (biased x + biased y) ≡ true = ground (arith, p.0) in
    let high : ltb (biased x + biased y) (2 ^ 31 + 2 ^ 32) ≡ true = ground (arith, p.1) in
    rw (low, high) refl

biased-total :
    (x y : ℕ)
    → x < 2 ^ 32
    → y < 2 ^ 32
    → Fits x y
    → biased (total x y) + 2 ^ 31 ≡ biased x + biased y
unfolding biased
biased-total x y p q f = omega arith

subtract-add :
    (x amount : ℕ) → x < 2 ^ 32 → amount < 2 ^ 31 → (subtract x amount + amount) % 2 ^ 32 ≡ x
unfolding subtract
subtract-add x amount p q = omega arith

subtract-lt : (x amount : ℕ) → subtract x amount < 2 ^ 32
unfolding subtract
subtract-lt x amount = omega arith

-- The client that answers each request with what `serve` gives.
abbrev pub answering : {R : Type 0} → (List ℕ → RslArgs → R → RslArgs × R) → Requests R
answering serve nodes args r = ok (serve nodes args r)

-- How a withdrawal with these two balances runs: `before` is the transaction when it commits. An `int` with
-- the bits x is `biased x` - 2^31.
pub record Withdrawn {R : Type 0} (request : Requests R) (get_node : ℕ → ℕ) (u : Uninitialised)
    (atoi : Bytes → ℕ) (balance1 balance2 : ℕ) (w : WithdrawCoordinator R)
    (out : Run (Bool × WithdrawCoordinator R)) : Type 0 where
  pub before : Coordinator R
  pub vote : Bool
  pub after : Coordinator R
  pub runs : out ≡ ok (vote, record w { base = after })
  pub committed : Decided request u before vote after
  pub joined :
      (Set.contains (get_node 1) (participants before) ≡ true)
      × (Set.contains (get_node 2) (participants before) ≡ true)
  pub paid :
      w.amount + 2 ^ 32 ≤ biased balance1 + biased balance2
      → (s : Bytes) × (Map.find 1 before.pend_writes ≡ some s)
        × ((atoi s + w.amount) % 2 ^ 32 ≡ balance1)
        × (Map.find 2 before.pend_writes ≡ none)
  pub refused : biased balance1 + biased balance2 < w.amount + 2 ^ 32 → before.pend_writes ≡ []

module _ {R : Type 0} (serve : List ℕ → RslArgs → R → RslArgs × R) (get_node : ℕ → ℕ)
    (u : Uninitialised) (atoi : Bytes → ℕ) (to_string : ℕ → Bytes) where
  -- What the client answers to a read of a transaction.
  abbrev pub asked : ℕ → (tid start_ts : ℕ) → R → RslArgs × R
  asked key tid start_ts r =
      serve (Set.insert (get_node key) [])
        (RslArgs.read (record {
          read_args = record { tid = tid; start_ts = start_ts; key = key };
          value = none;
        }))
        r

  -- The transaction after a read.
  abbrev seen : ℕ → Coordinator R → Coordinator R
  seen key c = record c {
    read_nodes = Set.insert (get_node key) c.read_nodes;
    rsl_client = (asked key c.tid c.start_ts c.rsl_client).1;
  }

  balance-fresh :
      (key : ℕ) (c : Coordinator R) (s : Bytes)
      → Map.find key c.pend_writes ≡ none
      → value_of (asked key c.tid c.start_ts c.rsl_client).0 ≡ some s
      → balance (answering serve) get_node u atoi to_string key c ≡ ok (atoi s, seen key c)
  unfolding balance read
  balance-fresh key c s absent e = rw (absent, balance, read) (rw e refl)

  -- A run whose steps before the commit leave `before`.
  finish :
      (w : WithdrawCoordinator R) (b1 b2 : ℕ) (c1 c2 before : Coordinator R)
      → balance (answering serve) get_node u atoi to_string 1 w.base ≡ ok (b1, c1)
      → balance (answering serve) get_node u atoi to_string 2 c1 ≡ ok (b2, c2)
      → Fits b1 b2
      → withdraw (answering serve) get_node u atoi to_string w.amount b1 (total b1 b2) c2
        ≡ ok before
      → (vote : Bool) × (after : Coordinator R) × (run (answering serve) get_node u atoi to_string w
          ≡ ok (vote, record w { base = after }))
        × Decided (answering serve) u before vote after
  unfolding run commit
  finish w b1 b2 c1 c2 before first second fits third =
      let e = add_int-Fits b1 b2 fits in
      (
        _,
        _,
        rw (first, run, second, e, third) refl,
        commit-Decided (answering serve) u before _ _ refl,
      )

  -- The transaction after the write of a value to key 1.
  abbrev written : Bytes → Coordinator R → Coordinator R
  written s c = record c {
    pend_writes = Map.set 1 s c.pend_writes;
    write_nodes = Set.insert (get_node 1) c.write_nodes;
    rsl_client =
        (serve (Set.insert (get_node 1) [])
          (RslArgs.write (record { write_args = record { tid = c.tid; key = 1; value = s } }))
          c.rsl_client).1;
  }

  withdraw-paid :
      (amount b1 sum : ℕ) (c : Coordinator R)
      → amount < 2 ^ 31
      → amount + 2 ^ 31 ≤ biased sum
      → withdraw (answering serve) get_node u atoi to_string amount b1 sum c
        ≡ ok (written (to_string (subtract b1 amount)) c)
  unfolding withdraw write to_int
  withdraw-paid amount b1 sum c p q =
      let small : to_int amount ≡ amount = omega arith in
      let e : leb (biased (to_int amount)) (biased sum) ≡ true =
        rw (small, biased-small amount p) (ground arith) in
      rw e refl

  withdraw-refused :
      (amount b1 sum : ℕ) (c : Coordinator R)
      → amount < 2 ^ 31
      → biased sum < amount + 2 ^ 31
      → withdraw (answering serve) get_node u atoi to_string amount b1 sum c ≡ ok c
  unfolding withdraw to_int
  withdraw-refused amount b1 sum c p q =
      let small : to_int amount ≡ amount = omega arith in
      let e : leb (biased (to_int amount)) (biased sum) ≡ false =
        rw (small, biased-small amount p) (ground arith) in
      rw e refl

  -- The nodes of both reads are participants, whatever is added to the nodes of the writes.
  seen-joined :
      (c : Coordinator R) (writes : List ℕ)
      → let both = Set.insert (get_node 2) (Set.insert (get_node 1) c.read_nodes) in
        (Set.contains (get_node 1) (Set.insert_all both writes) ≡ true)
        × (Set.contains (get_node 2) (Set.insert_all both writes) ≡ true)
  seen-joined c writes =
      let n1 = get_node 1 in
      let n2 = get_node 2 in
      let reads = Set.insert n1 c.read_nodes in
      let both = Set.insert n2 reads in
      let self1 = (==_iff n1 n1).1 refl in
      let self2 = (==_iff n2 n2).1 refl in
      let a1 = contains-insert_all both writes n1 in
      let a2 = contains-insert_all both writes n2 in
      let b1 = contains-insert n2 n1 reads in
      let b2 = contains-insert n2 n2 reads in
      let b3 = contains-insert n1 n1 c.read_nodes in (ground arith, ground arith)

  -- Over a client that answers the two reads of a new transaction with values, whose balances are `int`s of
  -- either sign that do not overflow together, and for an amount below 2^31, a withdrawal returns. The nodes
  -- of both accounts are participants of its commit. If the accounts together have the amount, the commit
  -- has a write of account 1 that is less by the amount, modulo 2^32, and none of account 2; otherwise it has
  -- no write.
  -- `atoi` gives back what `to_string` was given.
  pub run-Withdrawn :
      (tid start_ts amount : ℕ) (r : R) (s1 s2 : Bytes)
      → value_of (asked 1 tid start_ts r).0 ≡ some s1
      → value_of (asked 2 tid start_ts (asked 1 tid start_ts r).1).0 ≡ some s2
      → atoi s1 < 2 ^ 32
      → atoi s2 < 2 ^ 32
      → Fits (atoi s1) (atoi s2)
      → amount < 2 ^ 31
      → ((x : ℕ) → x < 2 ^ 32 → atoi (to_string x) ≡ x)
      → Withdrawn
          (answering serve)
          get_node
          u
          atoi
          (atoi s1)
          (atoi s2)
          (new_withdraw tid start_ts r amount)
          (run (answering serve) get_node u atoi to_string (new_withdraw tid start_ts r amount))
  unfolding new_withdraw Map.find Map.set
  run-Withdrawn tid start_ts amount r s1 s2 e1 e2 int1 int2 fits small back =
      let w = new_withdraw tid start_ts r amount in
      let c1 = seen 1 w.base in
      let c2 = seen 2 c1 in
      let sum = total (atoi s1) (atoi s2) in
      let both = biased-total (atoi s1) (atoi s2) int1 int2 fits in
      let left = subtract (atoi s1) amount in
      let first = balance-fresh 1 w.base s1 refl e1 in
      let second = balance-fresh 2 c1 s2 refl e2 in
      elim (Bool-cases (leb (amount + 2 ^ 31) (biased sum))) [
        | inl enough ↦
            let p : amount + 2 ^ 31 ≤ biased sum = ground arith in
            let c3 = written (to_string left) c2 in
            let out =
              finish w (atoi s1) (atoi s2) c1 c2 c3 first second fits
                (withdraw-paid amount (atoi s1) sum c2 small p) in
            record {
              before = c3;
              vote = out.0;
              after = out.1;
              runs = out.2;
              committed = out.3;
              joined = seen-joined w.base c3.write_nodes;
              paid = λ q. (
                to_string left,
                refl,
                rw (back left (subtract-lt (atoi s1) amount))
                    (subtract-add (atoi s1) amount int1 small),
                refl,
              );
              refused = λ q. absurd (omega arith);
            }
        | inr short ↦
            let p : biased sum < amount + 2 ^ 31 = ground arith in
            let out =
              finish w (atoi s1) (atoi s2) c1 c2 c2 first second fits
                (withdraw-refused amount (atoi s1) sum c2 small p) in
            record {
              before = c2;
              vote = out.0;
              after = out.1;
              runs = out.2;
              committed = out.3;
              joined = seen-joined w.base [];
              paid = λ q. absurd (omega arith);
              refused = λ q. refl;
            }
      ]
