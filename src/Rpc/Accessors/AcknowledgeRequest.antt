-- ===== src/Rpc/Accessors/AcknowledgeRequest.antt =====
-- The accessors of `AcknowledgeRequest` of src/rpc/queue.rs. A field that is changed through a mutable reference
-- takes what the caller makes of its value.
use brqueue.Base.{Bool, true, String}
use brqueue.Rpc.Messages.{AcknowledgeRequest, default_acknowledge_request}

abbrev pub new : AcknowledgeRequest
new = default_acknowledge_request

abbrev pub clear_id : AcknowledgeRequest → AcknowledgeRequest
clear_id m = record m { id = "" }

abbrev pub set_id : AcknowledgeRequest → String → AcknowledgeRequest
set_id m v = record m { id = v }

abbrev pub mut_id : AcknowledgeRequest → (String → String) → AcknowledgeRequest
mut_id m change = record m { id = change m.id }

abbrev pub take_id : AcknowledgeRequest → String × AcknowledgeRequest
take_id m = (m.id, record m { id = "" })

abbrev pub get_id : AcknowledgeRequest → String
get_id m = m.id

abbrev pub clear : AcknowledgeRequest → AcknowledgeRequest
clear m = clear_id m

abbrev pub is_initialized : AcknowledgeRequest → Bool
is_initialized m = true
