-- ===== src/Rpc.antt =====
-- The messages of src/rpc/queue.rs.
pub mod Messages
pub mod Accessors
pub mod Runtime
pub mod Merge
pub mod Requests
pub mod Fields
pub mod Sizes
pub mod ReadBack
pub mod RequestCodec
pub mod RequestReadBack
pub mod Ends
pub mod Responses
pub mod ResponseFields
pub mod ResponseCodec
pub mod ResponseReadBack
pub mod RequestWrapper
pub mod ResponseWrapper
