-- ===== src/Worker.antt =====
-- Project1/WorkerThread.cpp: the list of a worker's clients and the data to and from them. The list
-- is modelled with its nodes in memory, for one caller at a time; compare_exchange_weak succeeds
-- where the two values are equal, as it does on the server's platform.
pub mod Clients
pub mod Chain
pub mod Growth
pub mod Unlinking
pub mod Removal
pub mod Transfer
pub mod Framing
pub mod Serving
pub mod Ledger
pub mod Exchange
pub mod Lifetime
