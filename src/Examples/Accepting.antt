-- ===== src/Examples/Accepting.antt =====
-- The theorem on main, for two clients.
use game_database_server.Prelude.{true, false, List, [], ◌∷◌, some, ◌==◌}
use game_database_server.Worker.Transfer.{SendResult, RecvResult}
use game_database_server.Worker.Serving.{SelectResult}
use game_database_server.Server.Loop.{AcceptResult, ServerEvent}
use game_database_server.Action.{◌>>=◌}
use game_database_server.Connector.{
  init, set_conn, set_init, connect, is_connected, execute_query, get_affected_rows,
}
use game_database_server.Database.Session.{
  connect_db, initialize_user_sessions, check_db_connection, execute_and_count,
}
use game_database_server.Server.Start.{Startup}
use game_database_server.Server.Main.{main}
use game_database_server.Server.Exit.{Exits, main-Exits}
use game_database_server.Examples.{demo}

-- The second client closes its connection; the third is not accepted any more.
abbrev events : List ServerEvent
events =
    ServerEvent.accepting (AcceptResult.accepted 7)
    ∷ ServerEvent.accepting AcceptResult.would_block
    ∷ ServerEvent.accepting (AcceptResult.accepted 8)
    ∷ ServerEvent.serving 0 (SelectResult.ready (λ s. s == 8) (λ s. false))
        (λ s. RecvResult.closed false ∷ [])
    ∷ ServerEvent.responding (SendResult.failed ∷ [])
    ∷ ServerEvent.stopping
    ∷ ServerEvent.accepting (AcceptResult.accepted 9)
    ∷ ServerEvent.cleaning
    ∷ []

abbrev startup : Startup
startup = record { starts = true; socket = some 1; binds = true; listens = true }

main-Exits_example : Exits true events (main ⦃p = demo⦄ startup events)
unfolding connect_db ◌>>=◌ init set_conn set_init connect initialize_user_sessions
    check_db_connection is_connected execute_and_count execute_query get_affected_rows
main-Exits_example =
    main-Exits ⦃p = demo⦄ startup events (tt, (tt, (tt, ((λ s. tt), (tt, (tt, (tt, (tt, tt))))))))
