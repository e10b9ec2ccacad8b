-- ===== src/Packet/ResultCode.antt =====
-- The enum ResultCode of Common/UserEvent.fbs.

pub data ResultCode : Type 0 where
  success : ResultCode
  fail : ResultCode
  invalid_user : ResultCode
  user_not_found : ResultCode
  insufficient_gold : ResultCode
  item_not_found : ResultCode
  shop_not_found : ResultCode
  server_name_duplicate : ResultCode
  server_not_found : ResultCode
  server_password_wrong : ResultCode
  server_full : ResultCode
  not_server_owner : ResultCode
