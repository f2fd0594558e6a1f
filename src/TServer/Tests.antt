-- ===== src/TServer/Tests.antt =====
-- A transaction of src/SimpleTServer.cc with two writes to one key.
use mvtx.Prelude.{◌≡◌, refl, true, some, List, [], ◌∷◌}
use mvtx.Prelude.Map
use mvtx.TServer.{Write, TServer, new_tserver, add, prepare, get, finalize}
use mvtx.TServer.Store.{Finalized, finalize-Finalized}

abbrev two_writes : List Write
two_writes = record { key = 3; value = 65 ∷ [] } ∷ record { key = 3; value = 66 ∷ [] } ∷ []

abbrev prepared : TServer
prepared = record new_tserver { pend_writes = (8, two_writes) ∷ []; rdy_to_commit = (8, 10) ∷ [] }

prepared_lem : prepare 8 10 (add 8 3 (66 ∷ []) (add 8 3 (65 ∷ []) new_tserver)) ≡ prepared
unfolding prepare add Map.find Map.set
prepared_lem = refl

last_write_wins : get 3 10 (finalize 8 true prepared) ≡ some (66 ∷ [])
unfolding get finalize Map.find Map.set Map.erase
last_write_wins = refl

finalize-Finalized_example : Finalized 8 10 true prepared
unfolding Map.find
finalize-Finalized_example = finalize-Finalized 8 10 true prepared two_writes refl refl
