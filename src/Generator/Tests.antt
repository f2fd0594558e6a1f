-- ===== src/Generator/Tests.antt =====
-- Runs of the generator of src/SimpleTransactionIDGenerator.cc.
use mvtx.Prelude.{◌+◌, ◌^◌, ◌≡◌, arith}
use mvtx.Generator.{gen_transaction_id, after, gen_transaction_id-Fresh}

gen_transaction_id-Fresh_example :
    ¬ ((gen_transaction_id (after 1)).0 ≡ (gen_transaction_id (after 4)).0)
    × ((gen_transaction_id (after (1 + 2 ^ 64))).0 ≡ (gen_transaction_id (after 1)).0)
gen_transaction_id-Fresh_example = gen_transaction_id-Fresh 1 4 (omega arith) (omega arith)
