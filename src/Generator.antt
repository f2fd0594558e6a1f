-- ===== src/Generator.antt =====
-- src/SimpleTransactionIDGenerator.{h,cc} and src/SimpleKeyMapper.{h,cc}. A call of the generator holds its
-- mutex, so the calls of all threads are one sequence.
pub mod Tests
use mvtx.Prelude.{ℕ, zero, suc, ◌+◌, ◌%◌, ◌^◌, ◌<◌, ◌≡◌, refl, inc64, arith}

pub record TransactionIdGenerator : Type 0 where
  pub cur_id : ℕ

-- The constructor.
abbrev pub new_generator : TransactionIdGenerator
new_generator = record { cur_id = 0 }

-- The old number, and the generator with the next one.
unfoldable pub gen_transaction_id : TransactionIdGenerator → ℕ × TransactionIdGenerator
gen_transaction_id g = (g.cur_id, record { cur_id = inc64 g.cur_id })

-- Every key is on node 0.
unfoldable pub get_node : ℕ → ℕ
get_node key = 0

-- The generator after a number of calls.
unfoldable pub after : ℕ → TransactionIdGenerator
after zero = new_generator
after (suc k) = (gen_transaction_id (after k)).1

after_lem : (k : ℕ) → (after k).cur_id ≡ k % 2 ^ 64
unfolding after gen_transaction_id
after_lem zero = refl
after_lem (suc k) = let h = after_lem k in omega arith

-- Two calls of the generator that are fewer than 2^64 calls apart give different identifiers, and a call
-- that comes 2^64 calls after another gives the same identifier again.
pub gen_transaction_id-Fresh :
    (i j : ℕ)
    → i < j
    → j < i + 2 ^ 64
    → ¬ ((gen_transaction_id (after i)).0 ≡ (gen_transaction_id (after j)).0)
      × ((gen_transaction_id (after (i + 2 ^ 64))).0 ≡ (gen_transaction_id (after i)).0)
unfolding gen_transaction_id
gen_transaction_id-Fresh i j before near =
    let hi = after_lem i in
    let hj = after_lem j in let hk = after_lem (i + 2 ^ 64) in ((λ same. omega arith), omega arith)
