-- ===== src/Coordinator/Withdraw.antt =====
-- src/WithdrawCoordinator.{h,cc}: the transaction that withdraws an amount. An `int` is the number below 2^32
-- with its bits; `atoi` and `std::to_string`, of the C++ library, are parameters on such numbers.
pub mod Balance
pub mod Tests
use mvtx.Prelude.{
  ℕ, ◌+◌, ◌-◌, ◌%◌, ◌^◌, Bool, true, false, Option, none, some, List, [], leb, ltb, ◌&&◌,
  if◌then◌else◌,
}
use mvtx.Prelude.Run.{Run, ok, fault, ◌>>=◌}
use mvtx.Request.{Bytes}
use mvtx.Coordinator.{Coordinator, Requests, Uninitialised, new_coordinator, read, write, commit}

pub record WithdrawCoordinator (R : Type 0) : Type 0 where
  pub base : Coordinator R
  pub amount : ℕ
  pub account_numbers : List ℕ

unfoldable pub new_withdraw : {R : Type 0} → (tid start_ts : ℕ) → R → ℕ → WithdrawCoordinator R
unfolding new_coordinator
new_withdraw tid start_ts r amount = record {
  base = new_coordinator tid start_ts r;
  amount = amount;
  account_numbers = [];
}

-- An `int` above -2^31, as a number: the order of these is the order of the `int`s.
unfoldable pub biased : ℕ → ℕ
biased x = (x + 2 ^ 31) % 2 ^ 32

-- The sum of two `int`s, undefined if it overflows.
unfoldable pub add_int : ℕ → ℕ → Run ℕ
unfolding biased
add_int x y =
    if leb (2 ^ 31) (biased x + biased y) && ltb (biased x + biased y) (2 ^ 31 + 2 ^ 32)
    then ok ((x + y) % 2 ^ 32)
    else fault

-- `(int) _amount`, and `balance1 -= _amount`, which is computed on 64 bits and cut to 32.
unfoldable pub to_int : ℕ → ℕ
to_int x = x % 2 ^ 32

unfoldable pub subtract : ℕ → ℕ → ℕ
subtract x amount = (x + (2 ^ 32 - amount % 2 ^ 32)) % 2 ^ 32

module _ {R : Type 0} (request : Requests R) (get_node : ℕ → ℕ) (u : Uninitialised)
    (atoi : Bytes → ℕ) (to_string : ℕ → Bytes) where
  -- `atoi(read(key)->c_str())`
  unfoldable pub balance : ℕ → Coordinator R → Run (ℕ × Coordinator R)
  unfolding read
  balance key c = do
    (value, c') ← read request get_node key c
    elim value [ none ↦ fault | some s ↦ ok (atoi s, c') ]

  -- The write of the new balance, if the accounts have enough.
  unfoldable pub withdraw : (amount balance1 sum : ℕ) → Coordinator R → Run (Coordinator R)
  unfolding write biased to_int subtract
  withdraw amount balance1 sum c =
      let written = write request get_node 1 (to_string (subtract balance1 amount)) c in
      if leb (biased (to_int amount)) (biased sum) then written else ok c

  unfoldable pub run : WithdrawCoordinator R → Run (Bool × WithdrawCoordinator R)
  unfolding balance add_int withdraw commit
  run w = do
    (balance1, c1) ← balance 1 w.base
    (balance2, c2) ← balance 2 c1
    sum ← add_int balance1 balance2
    c3 ← withdraw w.amount balance1 sum c2
    (vote, c4) ← commit request u c3
    ok (vote, record w { base = c4 })
