-- ===== src/Rpc/Accessors/EnqueueResponse.antt =====
-- The accessors of `EnqueueResponse` of src/rpc/queue.rs. A field that is changed through a mutable reference
-- takes what the caller makes of its value.
use brqueue.Base.{Bool, true, String}
use brqueue.Rpc.Messages.{EnqueueResponse}

abbrev pub new : EnqueueResponse
new = record { id = "" }

abbrev pub clear_id : EnqueueResponse → EnqueueResponse
clear_id m = record m { id = "" }

abbrev pub set_id : EnqueueResponse → String → EnqueueResponse
set_id m v = record m { id = v }

abbrev pub mut_id : EnqueueResponse → (String → String) → EnqueueResponse
mut_id m change = record m { id = change m.id }

abbrev pub take_id : EnqueueResponse → String × EnqueueResponse
take_id m = (m.id, record m { id = "" })

abbrev pub get_id : EnqueueResponse → String
get_id m = m.id

abbrev pub clear : EnqueueResponse → EnqueueResponse
clear m = clear_id m

abbrev pub is_initialized : EnqueueResponse → Bool
is_initialized m = true
