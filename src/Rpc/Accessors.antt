-- ===== src/Rpc/Accessors.antt =====
-- The accessors of the messages of src/rpc/queue.rs.
pub mod AuthenticateRequest
pub mod AuthenticateResponse
pub mod EnqueueRequest
pub mod EnqueueResponse
pub mod PopRequest
pub mod PopResponse
pub mod AcknowledgeRequest
pub mod AcknowledgeResponse
pub mod ErrorResponse
