-- ===== src/Database.antt =====
-- DatabaseThread.cpp, in the modules below.
pub mod Sql
pub mod Respond
pub mod Session
pub mod Account
pub mod Player
pub mod Item
pub mod Escape
pub mod Chat
pub mod Shop
pub mod GameServer
pub mod Tasks
pub mod Traffic
pub mod Reply
pub mod Status
