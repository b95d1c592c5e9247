-- ===== src/QueueServer.antt =====
-- src/queue_server.rs: the queue server. `Errors` and `Manager` are its error type and its pair of
-- priority queues, `Operations` are its methods; the other modules prove what they do.
pub mod Errors
pub mod Manager
pub mod Runtime
pub mod Operations
pub mod Durability
pub mod Enqueue
pub mod Delivery
pub mod Held
pub mod Waiting
pub mod WellFormed
pub mod Places
pub mod Exclusive
pub mod Reach
