-- ===== src/Rpc/Accessors/AuthenticateRequest.antt =====
-- The accessors of `AuthenticateRequest` of src/rpc/queue.rs. A field that is changed through a mutable reference
-- takes what the caller makes of its value.
use brqueue.Base.{Bool, true, String}
use brqueue.Rpc.Messages.{AuthenticateRequest, default_authenticate_request}

abbrev pub new : AuthenticateRequest
new = default_authenticate_request

abbrev pub clear_username : AuthenticateRequest → AuthenticateRequest
clear_username m = record m { username = "" }

abbrev pub set_username : AuthenticateRequest → String → AuthenticateRequest
set_username m v = record m { username = v }

abbrev pub mut_username : AuthenticateRequest → (String → String) → AuthenticateRequest
mut_username m change = record m { username = change m.username }

abbrev pub take_username : AuthenticateRequest → String × AuthenticateRequest
take_username m = (m.username, record m { username = "" })

abbrev pub get_username : AuthenticateRequest → String
get_username m = m.username

abbrev pub clear_password : AuthenticateRequest → AuthenticateRequest
clear_password m = record m { password = "" }

abbrev pub set_password : AuthenticateRequest → String → AuthenticateRequest
set_password m v = record m { password = v }

abbrev pub mut_password : AuthenticateRequest → (String → String) → AuthenticateRequest
mut_password m change = record m { password = change m.password }

abbrev pub take_password : AuthenticateRequest → String × AuthenticateRequest
take_password m = (m.password, record m { password = "" })

abbrev pub get_password : AuthenticateRequest → String
get_password m = m.password

abbrev pub clear : AuthenticateRequest → AuthenticateRequest
clear m = clear_password (clear_username m)

abbrev pub is_initialized : AuthenticateRequest → Bool
is_initialized m = true
