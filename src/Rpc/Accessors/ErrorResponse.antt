-- ===== src/Rpc/Accessors/ErrorResponse.antt =====
-- The accessors of `ErrorResponse` of src/rpc/queue.rs. A field that is changed through a mutable reference
-- takes what the caller makes of its value.
use brqueue.Base.{Bool, true, String}
use brqueue.Rpc.Messages.{ErrorResponse}

abbrev pub new : ErrorResponse
new = record { message = "" }

abbrev pub clear_message : ErrorResponse → ErrorResponse
clear_message m = record m { message = "" }

abbrev pub set_message : ErrorResponse → String → ErrorResponse
set_message m v = record m { message = v }

abbrev pub mut_message : ErrorResponse → (String → String) → ErrorResponse
mut_message m change = record m { message = change m.message }

abbrev pub take_message : ErrorResponse → String × ErrorResponse
take_message m = (m.message, record m { message = "" })

abbrev pub get_message : ErrorResponse → String
get_message m = m.message

abbrev pub clear : ErrorResponse → ErrorResponse
clear m = clear_message m

abbrev pub is_initialized : ErrorResponse → Bool
is_initialized m = true
