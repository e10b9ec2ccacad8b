-- ===== src/Database/Sql/Shops.antt =====
-- The statements about shops.
use game_database_server.Prelude.{ℕ, String, ◌<>◌, ◌==◌, if◌then◌else◌}
use game_database_server.Text.{show}
use game_database_server.Database.Sql.Items.{add_item}

-- HandleShopListRequest, HandleShopItemsRequest
unfoldable pub select_shops : ℕ → String
select_shops map_id =
    "SELECT shop_id, shop_name, shop_type, map_id, pos_x, pos_y "
    <> "FROM shop_master WHERE is_active = 1"
    <> (if map_id == 0 then "" else " AND map_id = " <> show map_id)
    <> " ORDER BY shop_id"

unfoldable pub select_shop_items : ℕ → String
select_shop_items shop_id =
    "SELECT i.item_id, i.item_name, i.item_type, i.base_price, "
    <> "i.attack_bonus, i.defense_bonus, i.hp_bonus, i.mp_bonus, i.description "
    <> "FROM shop_items s "
    <> "JOIN item_master i ON s.item_id = i.item_id "
    <> "WHERE s.shop_id = "
    <> show shop_id
    <> " ORDER BY i.item_id"

-- HandleShopPurchase
unfoldable pub select_price : (item_id user_id : ℕ) → String
select_price item_id user_id =
    "SELECT i.base_price, p.gold FROM item_master i, player_data p "
    <> "WHERE i.item_id = "
    <> show item_id
    <> " AND p.user_id = "
    <> show user_id

unfoldable pub purchase : (total_price user_id item_id item_count : ℕ) → String
unfolding add_item
purchase total_price user_id item_id item_count =
    "START TRANSACTION; "
    <> "UPDATE player_data SET gold = gold - "
    <> show total_price
    <> " WHERE user_id = "
    <> show user_id
    <> "; "
    <> add_item user_id item_id item_count
    <> "; "
    <> "COMMIT;"

-- HandleShopSell
unfoldable pub select_owned : (user_id item_id : ℕ) → String
select_owned user_id item_id =
    "SELECT i.item_count, m.base_price FROM player_inventory i "
    <> "JOIN item_master m ON i.item_id = m.item_id "
    <> "WHERE i.user_id = "
    <> show user_id
    <> " AND i.item_id = "
    <> show item_id

unfoldable pub take_items : (user_id item_id item_count : ℕ) → String
take_items user_id item_id item_count =
    "UPDATE player_inventory SET item_count = item_count - "
    <> show item_count
    <> " WHERE user_id = "
    <> show user_id
    <> " AND item_id = "
    <> show item_id

unfoldable pub delete_items : (user_id item_id : ℕ) → String
delete_items user_id item_id =
    "DELETE FROM player_inventory WHERE user_id = "
    <> show user_id
    <> " AND item_id = "
    <> show item_id
    <> " AND item_count = 0"

unfoldable pub add_gold : (sell_price user_id : ℕ) → String
add_gold sell_price user_id =
    "UPDATE player_data SET gold = gold + "
    <> show sell_price
    <> " WHERE user_id = "
    <> show user_id

unfoldable pub select_gold : ℕ → String
select_gold user_id = "SELECT gold FROM player_data WHERE user_id = " <> show user_id

unfoldable pub start_transaction : String
start_transaction = "START TRANSACTION"

unfoldable pub commit : String
commit = "COMMIT"

unfoldable pub rollback : String
rollback = "ROLLBACK"
