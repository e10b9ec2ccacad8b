-- ===== src/Database/Traffic/Packets.antt =====
-- What the methods of ServerPacketManager build is a packet that is not empty, under the assumption
pub mod Rules
pub mod Built
pub mod FromRows
pub use Rules.*
pub use Built.*
pub use FromRows.*
