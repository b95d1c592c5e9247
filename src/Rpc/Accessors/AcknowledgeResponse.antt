-- ===== src/Rpc/Accessors/AcknowledgeResponse.antt =====
-- The accessors of `AcknowledgeResponse` of src/rpc/queue.rs.
use brqueue.Base.{Bool, true}
use brqueue.Rpc.Messages.{AcknowledgeResponse}

abbrev pub new : AcknowledgeResponse
new = record {}

abbrev pub clear : AcknowledgeResponse → AcknowledgeResponse
clear m = m

abbrev pub is_initialized : AcknowledgeResponse → Bool
is_initialized m = true
