-- ===== src/Database/Sql/Items.antt =====
-- The statements about the items of players.
use game_database_server.Prelude.{ℕ, String, ◌<>◌}
use game_database_server.Text.{show}

-- HandleItemDataRequest
unfoldable pub select_inventory : ℕ → String
select_inventory user_id =
    "SELECT i.item_id, m.item_name, i.item_count, m.item_type, m.base_price, "
    <> "m.attack_bonus, m.defense_bonus, m.hp_bonus, m.mp_bonus, m.description, p.gold "
    <> "FROM player_inventory i "
    <> "JOIN item_master m ON i.item_id = m.item_id "
    <> "JOIN player_data p ON i.user_id = p.user_id "
    <> "WHERE i.user_id = "
    <> show user_id
    <> " ORDER BY i.item_id"

unfoldable pub select_item : ℕ → String
select_item item_id =
    "SELECT item_id, item_name, 0 as item_count, item_type, base_price, "
    <> "attack_bonus, defense_bonus, hp_bonus, mp_bonus, description "
    <> "FROM item_master WHERE item_id = "
    <> show item_id

-- HandleItemModification, HandleShopPurchase
unfoldable pub add_item : (user_id item_id item_count : ℕ) → String
add_item user_id item_id item_count =
    "INSERT INTO player_inventory (user_id, item_id, item_count, acquired_at) VALUES ("
    <> show user_id
    <> ", "
    <> show item_id
    <> ", "
    <> show item_count
    <> ", NOW()) "
    <> "ON DUPLICATE KEY UPDATE item_count = item_count + "
    <> show item_count

unfoldable pub remove_item : (user_id item_id item_count : ℕ) → String
remove_item user_id item_id item_count =
    "START TRANSACTION; "
    <> "UPDATE player_inventory SET item_count = GREATEST(0, item_count - "
    <> show item_count
    <> ") "
    <> "WHERE user_id = "
    <> show user_id
    <> " AND item_id = "
    <> show item_id
    <> "; "
    <> "DELETE FROM player_inventory WHERE user_id = "
    <> show user_id
    <> " AND item_id = "
    <> show item_id
    <> " AND item_count <= 0; "
    <> "COMMIT;"
