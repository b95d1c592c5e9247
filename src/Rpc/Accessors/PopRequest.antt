-- ===== src/Rpc/Accessors/PopRequest.antt =====
-- The accessors of `PopRequest` of src/rpc/queue.rs. A field that is changed through a mutable reference
-- takes what the caller makes of its value.
use brqueue.Base.{Bool, true, String, List, [], false}
use brqueue.Rpc.Messages.{PopRequest, default_pop_request}

abbrev pub new : PopRequest
new = default_pop_request

abbrev pub clear_available_capabilities : PopRequest → PopRequest
clear_available_capabilities m = record m { available_capabilities = [] }

abbrev pub set_available_capabilities : PopRequest → List String → PopRequest
set_available_capabilities m v = record m { available_capabilities = v }

abbrev pub mut_available_capabilities : PopRequest → (List String → List String) → PopRequest
mut_available_capabilities m change = record m {
  available_capabilities = change m.available_capabilities;
}

abbrev pub take_available_capabilities : PopRequest → List String × PopRequest
take_available_capabilities m = (m.available_capabilities, record m { available_capabilities = [] })

abbrev pub get_available_capabilities : PopRequest → List String
get_available_capabilities m = m.available_capabilities

abbrev pub clear_wait_for_message : PopRequest → PopRequest
clear_wait_for_message m = record m { wait_for_message = false }

abbrev pub set_wait_for_message : PopRequest → Bool → PopRequest
set_wait_for_message m v = record m { wait_for_message = v }

abbrev pub get_wait_for_message : PopRequest → Bool
get_wait_for_message m = m.wait_for_message

abbrev pub clear : PopRequest → PopRequest
clear m = clear_wait_for_message (clear_available_capabilities m)

abbrev pub is_initialized : PopRequest → Bool
is_initialized m = true
