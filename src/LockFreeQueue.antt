-- ===== src/LockFreeQueue.antt =====
-- Common/LockFreeQueue.h, the queues between the workers, the database thread and the server.
pub mod Memory
pub mod Enqueue
pub mod Dequeue
pub mod Threads
pub mod Invariant
pub mod Writes
pub mod Producing
pub mod Enqueued
pub mod Kept
pub mod Dequeued
pub mod OneProducer
pub mod Sizes
pub mod TwoProducers
pub mod Progress
pub mod History
pub mod Destruction
