-- ===== src/Database/Session/Reconnect.antt =====
-- ReconnectIfNeeded without a connection.
use game_database_server.Prelude.{◌≡◌, refl, true, false, ◌∷◌, if◌then◌else◌}
use game_database_server.Platform.{Platform, Call, History}
use game_database_server.Action.{World, ok, ◌>>=◌}
use game_database_server.Connector.{init, connect, is_connected, renew, set_conn, set_init}
use game_database_server.Database.Session.{check_db_connection, reconnect_if_needed}

-- The calls made when the new connector is initialised: the old connection is closed before.
abbrev pub renewed : World → History
renewed w = if w.conn then Call.close ∷ w.history else w.history

-- What mysql_real_connect is asked behind.
abbrev pub prepared : World → History
prepared w = Call.options ∷ Call.options ∷ Call.init ∷ renewed w

both_lem : (w : World) → w.conn ≡ true → w.is_init ≡ true → is_connected w ≡ true
unfolding is_connected
both_lem w c i = rw (c, i)

module _ ⦃p : Platform⦄ where
  -- Without a connection, and where mysql_init works, ReconnectIfNeeded tells whether the server
  -- could be reached, and in both cases leaves a connector that counts as connected: a failed try
  -- is the last one.
  pub reconnect_if_needed-counts :
      (w : World)
      → is_connected w ≡ false
      → p.init_succeeds (renewed w) ≡ true
      → ((reconnect_if_needed w).0 ≡ ok (p.connect_succeeds (prepared w)))
        × (is_connected (reconnect_if_needed w).1 ≡ true)
  unfolding reconnect_if_needed check_db_connection renew init connect set_conn set_init ◌>>=◌
  reconnect_if_needed-counts w c i = rw (c, i) (refl, both_lem _ refl refl)
