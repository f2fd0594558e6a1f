-- ===== src/Coordinator/Withdraw/Tests.antt =====
-- Withdrawals of src/WithdrawCoordinator.cc.
use mvtx.Prelude.{
  ℕ, ◌+◌, ◌^◌, ◌≡◌, refl, true, false, some, List, [], ◌∷◌, ◌-◌, ◌==◌, if◌then◌else◌, arith,
}
use mvtx.Prelude.Map
use mvtx.Prelude.Run.{Run, ok, ◌>>=◌}
use mvtx.Request.{RslArgs, Bytes}
use mvtx.Coordinator.{Uninitialised}
use mvtx.Coordinator.Withdraw.{new_withdraw, biased, run}
use mvtx.Coordinator.Withdraw.Balance.{answering, Withdrawn, run-Withdrawn}

-- The balances are one byte each, 20 for every account, and all vote to commit.
abbrev serve : List ℕ → RslArgs → ℕ → RslArgs × ℕ
serve nodes (RslArgs.read a) n = (RslArgs.read (record a { value = some (20 ∷ []) }), n + 1)
serve nodes (RslArgs.p1c a) n = (RslArgs.p1c (record a { vote = true }), n + 1)
serve nodes args n = (args, n + 1)

-- Numbers as strings of one symbol, in place of the decimal digits of the C++ library.
abbrev first_symbol : Bytes → ℕ
first_symbol [] = 0
first_symbol (x ∷ s) = x

abbrev one_symbol : ℕ → Bytes
one_symbol x = x ∷ []

abbrev node_of : ℕ → ℕ
node_of key = key + 1

abbrev junk : Uninitialised
junk = record { flag = false }

-- The same with a balance of -5 in account 1 and one of 40 in account 2.
abbrev owing : ℕ → ℕ
owing key = if key == 1 then 2 ^ 32 - 5 else 40

abbrev serve_owing : List ℕ → RslArgs → ℕ → RslArgs × ℕ
serve_owing nodes (RslArgs.read a) n =
    (RslArgs.read (record a { value = some (owing a.read_args.key ∷ []) }), n + 1)
serve_owing nodes (RslArgs.p1c a) n = (RslArgs.p1c (record a { vote = true }), n + 1)
serve_owing nodes args n = (args, n + 1)

run-Withdrawn_example :
    Withdrawn
      (answering serve_owing)
      node_of
      junk
      first_symbol
      (2 ^ 32 - 5)
      40
      (new_withdraw 6 30 0 25)
      (run (answering serve_owing) node_of junk first_symbol one_symbol (new_withdraw 6 30 0 25))
unfolding biased
run-Withdrawn_example =
    run-Withdrawn serve_owing node_of junk first_symbol one_symbol 6 30 25 0 ((2 ^ 32 - 5) ∷ [])
      (40 ∷ []) refl refl (omega arith) (omega arith) (omega arith, omega arith) (omega arith)
      (λ x p. refl)

-- The writes that are pending after a withdrawal of an amount.
abbrev pending : ℕ → Run (Map.Map Bytes)
pending amount = do
  (vote, w) ←
      run (answering serve) node_of junk first_symbol one_symbol (new_withdraw 6 30 0 amount)
  ok w.base.pend_writes

-- An amount of 2^31 is negative as an `int`: it is withdrawn from two accounts with 20 each.
pending_lem :
    (pending 41 ≡ ok [])
    × (pending 25 ≡ ok ((1, (2 ^ 32 - 5) ∷ []) ∷ []))
    × (pending (2 ^ 31) ≡ ok ((1, (2 ^ 31 + 20) ∷ []) ∷ []))
unfolding run new_withdraw Map.set Map.find
pending_lem = (refl, refl, refl)
