-- ===== src/Database/Traffic/Servers.antt =====
-- Game servers.
use game_database_server.Prelude.{String, ℕ, Bool, true, false, List, [], Option, none, some, ◌∷◌}
use game_database_server.Packet.{Task}
use game_database_server.Packet.ResultCode.{ResultCode}
use game_database_server.Packet.Request.{
  C2sCreateGameServer, C2sGameServerList, C2sJoinGameServer, C2sCloseGameServer,
}
use game_database_server.Platform.{Platform, Row, ResultSet}
use game_database_server.Action.Traffic.{Quiet, Answers, Answers-bind}
use game_database_server.PacketManager.Parse.{
  parse_create_game_server_request, parse_game_server_list_request, parse_join_game_server_request,
  parse_close_game_server_request,
}
use game_database_server.PacketManager.Validate.{
  validate_create_game_server_request, validate_game_server_list_request,
  validate_join_game_server_request, validate_close_game_server_request,
}
use game_database_server.Database.GameServer.{
  server_created, create_game_server, handle_create_game_server_request, game_server_list,
  handle_game_server_list_request, fail_join, refuse_join, password_differs, admit, join_server,
  join_rows, join_result, join_game_server, handle_join_game_server_request, close_game_server,
  handle_close_game_server_request,
}
use game_database_server.Database.Traffic.Calls.{call_rules, parse_request-Quiet}
use game_database_server.Database.Traffic.Packets.{
  Builds, create_game_server_response-Packs, create_join_game_server_response-Packs,
  create_close_game_server_response-Packs, create_game_server_error_response-Packs,
  create_join_game_server_error_response-Packs, create_close_game_server_error_response-Packs,
  create_game_server_list_response_from_db-Packs,
}
use game_database_server.Database.Traffic.Steps.{
  Answers-with_request, send_error_response-Answers, step_rules,
}

module _ ⦃p : Platform⦄ (works : Builds p) where
  server_created-Answers :
      (task : Task) (r : Option ℕ) → Answers task.client_socket (server_created task r)
  unfolding server_created
  server_created-Answers task none =
      search (step_rules, create_game_server_error_response-Packs works)
  server_created-Answers task (some n) =
      search (step_rules, create_game_server_response-Packs works)

  create_game_server-Answers :
      (task : Task) (request : C2sCreateGameServer)
      → Answers task.client_socket (create_game_server task request)
  unfolding create_game_server
  create_game_server-Answers task request = search (step_rules, server_created-Answers) depth 10

  pub handle_create_game_server_request-Answers :
      (task : Task) → Answers task.client_socket (handle_create_game_server_request task)
  unfolding handle_create_game_server_request parse_create_game_server_request
      validate_create_game_server_request
  handle_create_game_server_request-Answers task = Answers-bind (parse_request-Quiet _ _ _ _) λ r.
      Answers-with_request _ _ r (send_error_response-Answers works task _ _)
        (λ request _. create_game_server-Answers task request)

  game_server_list-Answers :
      (task : Task) (request : C2sGameServerList)
      → Answers task.client_socket (game_server_list task request)
  unfolding game_server_list
  game_server_list-Answers task request =
      search
        (
          step_rules,
          send_error_response-Answers works,
          create_game_server_list_response_from_db-Packs works,
        )
        depth 8

  pub handle_game_server_list_request-Answers :
      (task : Task) → Answers task.client_socket (handle_game_server_list_request task)
  unfolding handle_game_server_list_request parse_game_server_list_request
      validate_game_server_list_request
  handle_game_server_list_request-Answers task = Answers-bind (parse_request-Quiet _ _ _ _) λ r.
      Answers-with_request _ _ r (send_error_response-Answers works task _ _)
        (λ request _. game_server_list-Answers task request)

  fail_join-Answers : (task : Task) → Answers task.client_socket (fail_join task)
  unfolding fail_join
  fail_join-Answers task = send_error_response-Answers works task _ _

  refuse_join-Answers :
      (task : Task) (code : ResultCode) (message : String)
      → Answers task.client_socket (refuse_join task code message)
  unfolding refuse_join
  refuse_join-Answers task code message =
      search (step_rules, create_join_game_server_error_response-Packs works)

  password_differs-Quiet :
      (is_owner : Bool) (password : String) (given : Option String)
      → Quiet (password_differs is_owner password given)
  unfolding password_differs
  password_differs-Quiet true password given = search call_rules
  password_differs-Quiet false password given = search call_rules depth 8

  admit-Answers :
      (task : Task) (request : C2sJoinGameServer) (password ip : String) (port now most : ℕ)
      (is_active is_owner : Bool)
      → Answers task.client_socket (admit task request password ip port now most is_active is_owner)
  unfolding admit
  admit-Answers task request password ip port now most is_active is_owner =
      search
        (
          step_rules,
          refuse_join-Answers,
          password_differs-Quiet,
          create_join_game_server_response-Packs works,
        )
        depth 8

  join_server-Answers :
      (task : Task) (request : C2sJoinGameServer) (password ip : String) (port now most : ℕ)
      (is_active is_owner : Bool)
      → Answers task.client_socket
          (join_server task request password ip port now most is_active is_owner)
  unfolding join_server
  join_server-Answers task request password ip port now most is_active is_owner =
      search (step_rules, refuse_join-Answers, fail_join-Answers, admit-Answers) depth 8

  join_rows-Answers :
      (task : Task) (request : C2sJoinGameServer) (rows : List Row)
      → Answers task.client_socket (join_rows task request rows)
  unfolding join_rows
  join_rows-Answers task request [] = search (step_rules, refuse_join-Answers)
  join_rows-Answers task request (row ∷ rows) = search (step_rules, join_server-Answers) depth 16

  join_result-Answers :
      (task : Task) (request : C2sJoinGameServer) (r : Option ResultSet)
      → Answers task.client_socket (join_result task request r)
  unfolding join_result
  join_result-Answers task request none = fail_join-Answers task
  join_result-Answers task request (some r) = join_rows-Answers task request r.rows

  join_game_server-Answers :
      (task : Task) (request : C2sJoinGameServer)
      → Answers task.client_socket (join_game_server task request)
  unfolding join_game_server
  join_game_server-Answers task request = search (step_rules, join_result-Answers) depth 8

  pub handle_join_game_server_request-Answers :
      (task : Task) → Answers task.client_socket (handle_join_game_server_request task)
  unfolding handle_join_game_server_request parse_join_game_server_request
      validate_join_game_server_request fail_join
  handle_join_game_server_request-Answers task = Answers-bind (parse_request-Quiet _ _ _ _) λ r.
      Answers-with_request _ _ r (send_error_response-Answers works task _ _)
        (λ request _. join_game_server-Answers task request)

  close_game_server-Answers :
      (task : Task) (request : C2sCloseGameServer)
      → Answers task.client_socket (close_game_server task request)
  unfolding close_game_server
  close_game_server-Answers task request =
      search
        (
          step_rules,
          create_close_game_server_response-Packs works,
          create_close_game_server_error_response-Packs works,
        )
        depth 8

  pub handle_close_game_server_request-Answers :
      (task : Task) → Answers task.client_socket (handle_close_game_server_request task)
  unfolding handle_close_game_server_request parse_close_game_server_request
      validate_close_game_server_request
  handle_close_game_server_request-Answers task = Answers-bind (parse_request-Quiet _ _ _ _) λ r.
      Answers-with_request _ _ r (send_error_response-Answers works task _ _)
        (λ request _. close_game_server-Answers task request)
