-- ===== src/Database/Reply.antt =====
-- What a response in SendQueue says: the event of the packet whose finished buffer it carries.
use game_database_server.Prelude.{ℕ, ◌≡◌, refl, ap, List, ◌∷◌, some, String}
use game_database_server.Packet.{Task, DbResponse}
use game_database_server.Packet.ResultCode.{ResultCode}
use game_database_server.Packet.Event.{Event, DatabasePacket}
use game_database_server.Platform.{Platform}
use game_database_server.Action.{World, ok, ◌>>=◌}
use game_database_server.PacketManager.Defs.{clear_error}
use game_database_server.PacketManager.Build.{
  packet_of, bytes_or_throw, build_packet, create_response,
}
use game_database_server.Database.Respond.{success_response, error_response}
use game_database_server.Database.Traffic.{Builds}

module _ ⦃p : Platform⦄ where
  -- Between two states one response is put into SendQueue: to the client of the task, and it
  -- carries the finished buffer of a packet with the event.
  pub record Says (task : Task) (before after : World) (e : Event) : Type 0 where
    pub response : DbResponse
    pub to_client : response.client_socket ≡ task.client_socket
    pub carries : p.build (packet_of e task.client_socket) ≡ some response.response_data
    pub only : after.sent ≡ response ∷ before.sent

  module _ (works : Builds p) where
    -- The finished buffer of a packet.
    unfoldable pub buffer : DatabasePacket → List ℕ
    buffer d = (works.finished d).0 ∷ (works.finished d).1

    pub create_response_lem :
        (method : String) (e : Event) (client_socket : ℕ) (w : World)
        → create_response method e client_socket w
          ≡ (ok (buffer (packet_of e client_socket)), record w { last_error = "" })
    unfolding buffer create_response clear_error build_packet bytes_or_throw ◌>>=◌
    create_response_lem method e client_socket w =
        rw ((works.finished (packet_of e client_socket)).2)

    -- The state after SendResponse of a built packet.
    abbrev pub answered : Task → Event → World → World
    answered task e w = record w {
      last_error = "";
      sent = success_response task (buffer (packet_of e task.client_socket)) ∷ w.sent;
    }

    pub Says-answered :
        (task : Task) (e : Event) (before w : World)
        → w.sent ≡ before.sent
        → Says task before (answered task e w) e
    unfolding buffer
    Says-answered task e before w same = record {
      response = success_response task (buffer (packet_of e task.client_socket));
      to_client = refl;
      carries = (works.finished (packet_of e task.client_socket)).2;
      only = ap (λ l. success_response task (buffer (packet_of e task.client_socket)) ∷ l) same;
    }

    -- The state after SendErrorResponse of a built packet.
    abbrev pub answered_error : Task → ResultCode → Event → World → World
    answered_error task code e w = record w {
      last_error = "";
      sent = error_response task code (buffer (packet_of e task.client_socket)) ∷ w.sent;
    }

    pub Says-answered_error :
        (task : Task) (code : ResultCode) (e : Event) (before w : World)
        → w.sent ≡ before.sent
        → Says task before (answered_error task code e w) e
    unfolding buffer
    Says-answered_error task code e before w same = record {
      response = error_response task code (buffer (packet_of e task.client_socket));
      to_client = refl;
      carries = (works.finished (packet_of e task.client_socket)).2;
      only = ap (λ l. error_response task code (buffer (packet_of e task.client_socket)) ∷ l) same;
    }
