-- ===== src/Examples/Queue.antt =====
-- The theorems on the loop of Run at a queue of two tasks.
use game_database_server.Prelude.{◌≡◌, ◌⊎◌, true, false, [], ◌∷◌, arith}
use game_database_server.Packet.{Task}
use game_database_server.Action.{ok, crash}
use game_database_server.Database.Tasks.{run}
use game_database_server.Database.Traffic.Order.{InOrder, run-InOrder}
use game_database_server.Database.Traffic.Drain.{idle, run-drains}
use game_database_server.Examples.{demo, demo-Builds, world, task}

abbrev other_task : Task
other_task = record task { client_socket = 8 }

-- The second task arrives in the second round, in which the connection is checked.
run-InOrder_example :
    InOrder
      (task ∷ other_task ∷ [])
      []
      (run ⦃p = demo⦄ ((false, []) ∷ (true, other_task ∷ []) ∷ []) (task ∷ []) world).1.sent
      (run ⦃p = demo⦄ ((false, []) ∷ (true, other_task ∷ []) ∷ []) (task ∷ []) world).0
run-InOrder_example =
    run-InOrder ⦃p = demo⦄ demo-Builds ((false, []) ∷ (true, other_task ∷ []) ∷ []) (task ∷ [])
      world

run-drains_example :
    ((run ⦃p = demo⦄ (idle 2) (task ∷ other_task ∷ []) world).0 ≡ ok [])
    ⊎ ((run ⦃p = demo⦄ (idle 2) (task ∷ other_task ∷ []) world).0 ≡ crash)
run-drains_example = run-drains ⦃p = demo⦄ 2 (task ∷ other_task ∷ []) world (omega arith)
