-- ===== src/Database/Traffic.antt =====
-- The responses that a task causes: DatabaseThread.cpp with the methods that it calls.
mod Calls
mod Packets
mod Steps
mod Accounts
mod Players
mod Servers
mod Shops
pub mod Order
pub mod Drain
pub mod Tasks
pub use Packets.{Builds}
pub use Tasks.{IsPacket, is_request, run_task-answers_once, run_task-AtMostOne}
