-- ===== src/Examples/Rows.antt =====
-- The theorem on the rows of an inventory at two items.
use game_database_server.Prelude.{◌≡◌, refl, ◌∷◌, [], some, arith}
use game_database_server.Packet.Response.{ItemData}
use game_database_server.Action.{ok}
use game_database_server.Platform.{Platform}
use game_database_server.PacketManager.FromDb.Responses.{create_item_data_response_from_db}
use game_database_server.PacketManager.FromDb.Inventory.{
  sent_rows, Fits, create_item_data_response_from_db-sent,
}
use game_database_server.Examples.{demo, world}

abbrev sword : ItemData
sword = record {
  item_id = 12;
  item_name = "sword";
  item_count = 1;
  item_type = 0;
  base_price = 4294967295;
  attack_bonus = 30;
  defense_bonus = 0;
  hp_bonus = 0;
  mp_bonus = 5;
  description = "long";
}

abbrev potion : ItemData
potion = record sword { item_id = 7; item_name = "potion"; item_count = 99 }

sword-Fits : Fits sword
sword-Fits = record {
  item_id = omega arith;
  item_count = omega arith;
  item_type = omega arith;
  base_price = omega arith;
  attack_bonus = omega arith;
  defense_bonus = omega arith;
  hp_bonus = omega arith;
  mp_bonus = omega arith;
}

potion-Fits : Fits potion
potion-Fits = record {
  item_id = omega arith;
  item_count = omega arith;
  item_type = omega arith;
  base_price = omega arith;
  attack_bonus = omega arith;
  defense_bonus = omega arith;
  hp_bonus = omega arith;
  mp_bonus = omega arith;
}

-- The builder returns these bytes for the packet.
abbrev building : Platform
building = record demo { build = λ d. some (5 ∷ 6 ∷ []) }

create_item_data_response_from_db-sent_example :
    create_item_data_response_from_db ⦃p = building⦄
      (some (sent_rows (some 250) (sword ∷ potion ∷ [])))
      4
      7
      world
    ≡ (ok (5 ∷ 6 ∷ []), record world { last_error = "" })
create_item_data_response_from_db-sent_example =
    create_item_data_response_from_db-sent ⦃p = building⦄ (some 250) (sword ∷ potion ∷ []) 4 7
      (5 ∷ 6 ∷ []) world (sword-Fits, (potion-Fits, tt)) (omega arith) refl
