-- ===== src/PacketManager/FromDb/Inventory.antt =====
-- ServerPacketManager.cpp, CreateItemDataResponseFromDB: the items that the rows of a result set hold.
use game_database_server.Prelude.{
  ℕ, ◌<◌, ◌^◌, ◌≡◌, refl, List, [], ◌∷◌, Option, none, some, map, true, false,
}
use game_database_server.Packet.Response.{ItemData}
use game_database_server.Packet.ResultCode.{ResultCode}
use game_database_server.Packet.Event.{Event, s2c_item_data}
use game_database_server.Platform.{Platform, Row, ResultSet}
use game_database_server.Action.{World, ok, pure, ◌>>=◌}
use game_database_server.Text.{show}
use game_database_server.Text.Numbers.{stoul-show}
use game_database_server.PacketManager.Defs.{
  clear_error, cell, or_throw, stoul_or_throw, uint_of_cell, get_uint_from_row, get_string_from_row,
}
use game_database_server.PacketManager.FromDb.Rows.{item_of_row, gold_of, read_items}
use game_database_server.PacketManager.FromDb.Responses.{create_item_data_response_from_db}
use game_database_server.PacketManager.Build.{packet_of, build_packet, bytes_or_throw}

-- The row in which the database sends an item: the columns in the order of the statement, the
-- numbers in decimal.
abbrev pub item_row : ItemData → Row
item_row d =
    some (show d.item_id)
    ∷ some d.item_name
    ∷ some (show d.item_count)
    ∷ some (show d.item_type)
    ∷ some (show d.base_price)
    ∷ some (show d.attack_bonus)
    ∷ some (show d.defense_bonus)
    ∷ some (show d.hp_bonus)
    ∷ some (show d.mp_bonus)
    ∷ some d.description
    ∷ []

-- A row of the inventory, with the user's gold as the last column, or of one item without it.
abbrev pub sent_row : Option ℕ → ItemData → Row
sent_row none d = item_row d
sent_row (some gold) d =
    some (show d.item_id)
    ∷ some d.item_name
    ∷ some (show d.item_count)
    ∷ some (show d.item_type)
    ∷ some (show d.base_price)
    ∷ some (show d.attack_bonus)
    ∷ some (show d.defense_bonus)
    ∷ some (show d.hp_bonus)
    ∷ some (show d.mp_bonus)
    ∷ some d.description
    ∷ some (show gold)
    ∷ []

abbrev pub columns : Option ℕ → ℕ
columns none = 10
columns (some gold) = 11

abbrev pub sent_rows : Option ℕ → List ItemData → ResultSet
sent_rows column ds = record { num_fields = columns column; rows = map (sent_row column) ds }

abbrev pub gold_sent : Option ℕ → ℕ
gold_sent none = 0
gold_sent (some gold) = gold

abbrev pub gold_shown : Option ℕ → List ItemData → ℕ
gold_shown column [] = 0
gold_shown column (d ∷ ds) = gold_sent column

abbrev pub GoldFits : Option ℕ → Type 0
GoldFits none = Unit {0}
GoldFits (some gold) = gold < 2 ^ 32

abbrev pub item_response : (user_id : ℕ) → List ItemData → (gold : ℕ) → Event
item_response user_id ds gold =
    s2c_item_data
      (some (record { result = ResultCode.success; user_id = user_id; items = ds; gold = gold }))

-- Every number of the item is a uint32_t.
pub record Fits (d : ItemData) : Type 0 where
  pub item_id : d.item_id < 2 ^ 32
  pub item_count : d.item_count < 2 ^ 32
  pub item_type : d.item_type < 2 ^ 32
  pub base_price : d.base_price < 2 ^ 32
  pub attack_bonus : d.attack_bonus < 2 ^ 32
  pub defense_bonus : d.defense_bonus < 2 ^ 32
  pub hp_bonus : d.hp_bonus < 2 ^ 32
  pub mp_bonus : d.mp_bonus < 2 ^ 32

abbrev pub AllFit : List ItemData → Type 0
AllFit [] = Unit {0}
AllFit (d ∷ ds) = Fits d × AllFit ds

module _ ⦃p : Platform⦄ where
  uint_of_cell-show : (n : ℕ) → n < 2 ^ 32 → uint_of_cell (some (show n)) ≡ pure n
  unfolding uint_of_cell stoul_or_throw or_throw
  uint_of_cell-show n h = rw (stoul-show n h) refl

  item_of_row-item_row :
      (d : ItemData) (w : World) → Fits d → item_of_row (item_row d) w ≡ (ok d, w)
  unfolding item_of_row get_uint_from_row get_string_from_row cell ◌>>=◌
  item_of_row-item_row d w h =
      rw
        (
          uint_of_cell-show d.item_id h.item_id,
          uint_of_cell-show d.item_count h.item_count,
          uint_of_cell-show d.item_type h.item_type,
          uint_of_cell-show d.base_price h.base_price,
          uint_of_cell-show d.attack_bonus h.attack_bonus,
          uint_of_cell-show d.defense_bonus h.defense_bonus,
          uint_of_cell-show d.hp_bonus h.hp_bonus,
          uint_of_cell-show d.mp_bonus h.mp_bonus,
        )
        refl

  gold_of-first :
      (column : Option ℕ) (d : ItemData) (w : World)
      → GoldFits column
      → gold_of (columns column) true 0 (sent_row column d) w ≡ (ok (gold_sent column), w)
  unfolding gold_of get_uint_from_row cell ◌>>=◌
  gold_of-first none d w h = refl
  gold_of-first (some gold) d w h = rw (uint_of_cell-show gold h) refl

  item_of_row-sent_row :
      (column : Option ℕ) (d : ItemData) (w : World)
      → Fits d
      → item_of_row (sent_row column d) w ≡ (ok d, w)
  unfolding item_of_row get_uint_from_row get_string_from_row cell ◌>>=◌
  item_of_row-sent_row none d w h = item_of_row-item_row d w h
  item_of_row-sent_row (some gold) d w h =
      rw
        (
          uint_of_cell-show d.item_id h.item_id,
          uint_of_cell-show d.item_count h.item_count,
          uint_of_cell-show d.item_type h.item_type,
          uint_of_cell-show d.base_price h.base_price,
          uint_of_cell-show d.attack_bonus h.attack_bonus,
          uint_of_cell-show d.defense_bonus h.defense_bonus,
          uint_of_cell-show d.hp_bonus h.hp_bonus,
          uint_of_cell-show d.mp_bonus h.mp_bonus,
        )
        refl

  -- Behind the first row the gold stays.
  rest-read :
      (column : Option ℕ) (gold : ℕ) (ds : List ItemData) (w : World)
      → AllFit ds
      → read_items (columns column) false gold (map (sent_row column) ds) w ≡ (ok (ds, gold), w)
  unfolding read_items gold_of ◌>>=◌
  rest-read column gold [] w h = refl
  rest-read column gold (d ∷ ds) w (fits, h) =
      rw (item_of_row-sent_row column d w fits, rest-read column gold ds w h) refl

  all-read :
      (column : Option ℕ) (ds : List ItemData) (w : World)
      → AllFit ds
      → GoldFits column
      → read_items (columns column) true 0 (map (sent_row column) ds) w
        ≡ (ok (ds, gold_shown column ds), w)
  unfolding read_items ◌>>=◌
  all-read column [] w h g = refl
  all-read column (d ∷ ds) w (fits, h) g =
      rw
        (
          item_of_row-sent_row column d w fits,
          gold_of-first column d w g,
          rest-read column (gold_sent column) ds w h,
        )
        refl

  -- Items whose numbers have 32 bits, sent by the database as rows with the numbers in decimal, with a
  -- further column for the gold or without it, are answered as they were, in their order, with the
  -- gold of the first row, or 0 where there is none; the error text is cleared and nothing else
  -- happens, where FlatBuffers builds the packet.
  pub create_item_data_response_from_db-sent :
      (column : Option ℕ) (ds : List ItemData) (user_id client_socket : ℕ) (bytes : List ℕ)
      (w : World)
      → AllFit ds
      → GoldFits column
      → p.build (packet_of (item_response user_id ds (gold_shown column ds)) client_socket)
        ≡ some bytes
      → create_item_data_response_from_db (some (sent_rows column ds)) user_id client_socket w
        ≡ (ok bytes, record w { last_error = "" })
  unfolding create_item_data_response_from_db clear_error build_packet bytes_or_throw ◌>>=◌
  create_item_data_response_from_db-sent column ds user_id client_socket bytes w h g built =
      rw (all-read column ds (record w { last_error = "" }) h g, built) refl
