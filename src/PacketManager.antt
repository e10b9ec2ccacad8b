-- ===== src/PacketManager.antt =====
-- Project1/ServerPacketManager.cpp. Its only field is _last_error, in the world.
pub mod Defs
pub mod Parse
pub mod Validate
pub mod Build
pub mod Errors
pub mod FromDb
pub mod Names
