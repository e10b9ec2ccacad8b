-- ===== src/Examples/Connection.antt =====
-- The theorems on a lost connection at a database that cannot be reached.
use game_database_server.Prelude.{◌≡◌, refl, true, false}
use game_database_server.Platform.{Platform}
use game_database_server.Action.{World, ok}
use game_database_server.Connector.{is_connected}
use game_database_server.Database.Session.{reconnect_if_needed}
use game_database_server.Database.Session.Reconnect.{reconnect_if_needed-counts}
use game_database_server.Examples.{demo, world}

abbrev unreachable : Platform
unreachable = record demo { connect_succeeds = λ h. false }

abbrev cut_off : World
cut_off = record world { conn = false; is_init = false }

reconnect_if_needed-counts_example :
    ((reconnect_if_needed ⦃p = unreachable⦄ cut_off).0 ≡ ok false)
    × (is_connected (reconnect_if_needed ⦃p = unreachable⦄ cut_off).1 ≡ true)
unfolding is_connected
reconnect_if_needed-counts_example = reconnect_if_needed-counts ⦃p = unreachable⦄ cut_off refl refl
