-- ===== src/Client.antt =====
-- src/client.rs: one connection of a client. `Framing` reads and sends messages, `Handlers` answers
-- the requests, `Connection` is the loop over them; the other modules prove what they do.
pub mod Errors
pub mod Library
pub mod Framing
pub mod Handlers
pub mod Connection
pub mod Frames
pub mod Messages
pub mod Login
pub mod Exchange
pub mod Submission
pub mod Retrieval
pub mod Relay
pub mod Held
pub mod Bounds
pub mod Tasks
pub mod Requests
pub mod Sessions
