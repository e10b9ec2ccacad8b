-- ===== src/PacketManager/FromDb.antt =====
-- ServerPacketManager.cpp, CreateLoginResponseFromDB to CreateGameServerListResponseFromDB: a result
-- set becomes a response. A null result and an exception both give the FAIL response.
pub mod Rows
pub mod Responses
pub mod Inventory
unfoldable pub use Rows.*
unfoldable pub use Responses.*
