-- ===== src/Server.antt =====
-- Project1/Server.cpp: the list of worker threads, the clients that are accepted, and the way of a
-- response to its client. The unique_ptrs of the list are never null, so it is a list of workers.
pub mod Workers
pub mod Placement
pub mod Delivery
pub mod Loop
pub mod Sharing
pub mod Responding
pub mod Lifetime
pub mod Destruction
pub mod Start
pub mod Main
pub mod Exit
