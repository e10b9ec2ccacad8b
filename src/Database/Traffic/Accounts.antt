-- ===== src/Database/Traffic/Accounts.antt =====
-- Login, logout and new accounts.
use game_database_server.Prelude.{String, ℕ, Bool, true, false, List, [], Option, none, some, ◌∷◌}
use game_database_server.Packet.{Task}
use game_database_server.Packet.Request.{C2sLogin, C2sLogout, C2sCreateAccount}
use game_database_server.Platform.{Platform, Row, ResultSet}
use game_database_server.Action.Traffic.{Answers, Answers-bind}
use game_database_server.PacketManager.Parse.{
  parse_login_request, parse_logout_request, parse_create_account_request,
}
use game_database_server.PacketManager.Validate.{
  validate_login_request, validate_create_account_request,
}
use game_database_server.Database.Account.{
  finish_login, login_rows, login_result, login, handle_login_request, logout,
  handle_logout_request, account_created, create_account, handle_create_account_request,
}
use game_database_server.Database.Traffic.Calls.{parse_request-Quiet}
use game_database_server.Database.Traffic.Packets.{
  Builds, create_login_response-Packs, create_account_response-Packs,
  create_login_error_response-Packs, create_account_error_response-Packs,
}
use game_database_server.Database.Traffic.Steps.{
  Answers-with_request, execute_and_count-Quiet, set_user_online_status-Quiet,
  send_error_response-Answers, logout_packet-Answers, step_rules,
}

module _ ⦃p : Platform⦄ (works : Builds p) where
  finish_login-Answers :
      (task : Task) (username : _) (user_id : ℕ) (nickname : _) (level : ℕ) (online : Bool)
      → Answers task.client_socket (finish_login task username user_id nickname level online)
  unfolding finish_login
  finish_login-Answers task username user_id nickname level true =
      search (step_rules, create_login_error_response-Packs works) depth 8
  finish_login-Answers task username user_id nickname level false =
      search (step_rules, send_error_response-Answers works, create_login_response-Packs works)
        depth 8

  login_rows-Answers :
      (task : Task) (username : String) (rows : List Row)
      → Answers task.client_socket (login_rows task username rows)
  unfolding login_rows
  login_rows-Answers task username [] = search (step_rules, send_error_response-Answers works)
  login_rows-Answers task username (row ∷ rows) = search (step_rules, finish_login-Answers) depth 12

  login_result-Answers :
      (task : Task) (username : String) (r : Option ResultSet)
      → Answers task.client_socket (login_result task username r)
  unfolding login_result
  login_result-Answers task username none = send_error_response-Answers works task _ _
  login_result-Answers task username (some r) = login_rows-Answers task username r.rows

  login-Answers :
      (task : Task) (request : C2sLogin) → Answers task.client_socket (login task request)
  unfolding login
  login-Answers task request = search (step_rules, login_result-Answers) depth 8

  pub handle_login_request-Answers :
      (task : Task) → Answers task.client_socket (handle_login_request task)
  unfolding handle_login_request parse_login_request validate_login_request
  handle_login_request-Answers task = Answers-bind (parse_request-Quiet _ _ _ _) λ r.
      Answers-with_request _ _ r (send_error_response-Answers works task _ _)
        (λ request _. login-Answers task request)

  logout-Answers : (task : Task) (r : Option C2sLogout) → Answers task.client_socket (logout task r)
  unfolding logout
  logout-Answers task none = send_error_response-Answers works task _ _
  logout-Answers task (some request) =
      Answers-bind (execute_and_count-Quiet _)
        λ _. Answers-bind (set_user_online_status-Quiet _ _ _) λ _. logout_packet-Answers works task

  pub handle_logout_request-Answers :
      (task : Task) → Answers task.client_socket (handle_logout_request task)
  unfolding handle_logout_request parse_logout_request
  handle_logout_request-Answers task =
      Answers-bind (parse_request-Quiet _ _ _ _) λ r. logout-Answers task r

  account_created-Answers :
      (task : Task) (r : Option ℕ) → Answers task.client_socket (account_created task r)
  unfolding account_created
  account_created-Answers task none = search (step_rules, create_account_error_response-Packs works)
  account_created-Answers task (some n) = search (step_rules, create_account_response-Packs works)

  create_account-Answers :
      (task : Task) (request : C2sCreateAccount)
      → Answers task.client_socket (create_account task request)
  unfolding create_account
  create_account-Answers task request = search (step_rules, account_created-Answers) depth 10

  pub handle_create_account_request-Answers :
      (task : Task) → Answers task.client_socket (handle_create_account_request task)
  unfolding handle_create_account_request parse_create_account_request
      validate_create_account_request
  handle_create_account_request-Answers task = Answers-bind (parse_request-Quiet _ _ _ _) λ r.
      Answers-with_request _ _ r (send_error_response-Answers works task _ _)
        (λ request _. create_account-Answers task request)
