-- ===== src/Rpc/Accessors/PopResponse.antt =====
-- The accessors of `PopResponse` of src/rpc/queue.rs. A field that is changed through a mutable reference
-- takes what the caller makes of its value.
use brqueue.Base.{Bool, true, String, [], false}
use brqueue.Std.Fs.{Bytes}
use brqueue.Rpc.Messages.{PopResponse, default_pop_response}

abbrev pub new : PopResponse
new = default_pop_response

abbrev pub clear_had_result : PopResponse → PopResponse
clear_had_result m = record m { had_result = false }

abbrev pub set_had_result : PopResponse → Bool → PopResponse
set_had_result m v = record m { had_result = v }

abbrev pub get_had_result : PopResponse → Bool
get_had_result m = m.had_result

abbrev pub clear_message : PopResponse → PopResponse
clear_message m = record m { message = [] }

abbrev pub set_message : PopResponse → Bytes → PopResponse
set_message m v = record m { message = v }

abbrev pub mut_message : PopResponse → (Bytes → Bytes) → PopResponse
mut_message m change = record m { message = change m.message }

abbrev pub take_message : PopResponse → Bytes × PopResponse
take_message m = (m.message, record m { message = [] })

abbrev pub get_message : PopResponse → Bytes
get_message m = m.message

abbrev pub clear_id : PopResponse → PopResponse
clear_id m = record m { id = "" }

abbrev pub set_id : PopResponse → String → PopResponse
set_id m v = record m { id = v }

abbrev pub mut_id : PopResponse → (String → String) → PopResponse
mut_id m change = record m { id = change m.id }

abbrev pub take_id : PopResponse → String × PopResponse
take_id m = (m.id, record m { id = "" })

abbrev pub get_id : PopResponse → String
get_id m = m.id

abbrev pub clear : PopResponse → PopResponse
clear m = clear_id (clear_message (clear_had_result m))

abbrev pub is_initialized : PopResponse → Bool
is_initialized m = true
