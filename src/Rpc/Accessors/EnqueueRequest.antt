-- ===== src/Rpc/Accessors/EnqueueRequest.antt =====
-- The accessors of `EnqueueRequest` of src/rpc/queue.rs. A field that is changed through a mutable reference
-- takes what the caller makes of its value.
use brqueue.Base.{Bool, true, String, List, []}
use brqueue.Std.Fs.{Bytes}
use brqueue.Rpc.Messages.{EnqueueRequest, Priority, low, default_enqueue_request}

abbrev pub new : EnqueueRequest
new = default_enqueue_request

abbrev pub clear_message : EnqueueRequest → EnqueueRequest
clear_message m = record m { message = [] }

abbrev pub set_message : EnqueueRequest → Bytes → EnqueueRequest
set_message m v = record m { message = v }

abbrev pub mut_message : EnqueueRequest → (Bytes → Bytes) → EnqueueRequest
mut_message m change = record m { message = change m.message }

abbrev pub take_message : EnqueueRequest → Bytes × EnqueueRequest
take_message m = (m.message, record m { message = [] })

abbrev pub get_message : EnqueueRequest → Bytes
get_message m = m.message

abbrev pub clear_priority : EnqueueRequest → EnqueueRequest
clear_priority m = record m { priority = low }

abbrev pub set_priority : EnqueueRequest → Priority → EnqueueRequest
set_priority m v = record m { priority = v }

abbrev pub get_priority : EnqueueRequest → Priority
get_priority m = m.priority

abbrev pub clear_required_capabilities : EnqueueRequest → EnqueueRequest
clear_required_capabilities m = record m { required_capabilities = [] }

abbrev pub set_required_capabilities : EnqueueRequest → List String → EnqueueRequest
set_required_capabilities m v = record m { required_capabilities = v }

abbrev pub mut_required_capabilities : EnqueueRequest → (List String → List String) → EnqueueRequest
mut_required_capabilities m change = record m {
  required_capabilities = change m.required_capabilities;
}

abbrev pub take_required_capabilities : EnqueueRequest → List String × EnqueueRequest
take_required_capabilities m = (m.required_capabilities, record m { required_capabilities = [] })

abbrev pub get_required_capabilities : EnqueueRequest → List String
get_required_capabilities m = m.required_capabilities

abbrev pub clear : EnqueueRequest → EnqueueRequest
clear m = clear_required_capabilities (clear_priority (clear_message m))

abbrev pub is_initialized : EnqueueRequest → Bool
is_initialized m = true
