-- ===== src/Rpc/Accessors/AuthenticateResponse.antt =====
-- The accessors of `AuthenticateResponse` of src/rpc/queue.rs.
use brqueue.Base.{Bool, true, false}
use brqueue.Rpc.Messages.{AuthenticateResponse}

abbrev pub new : AuthenticateResponse
new = record { success = false }

abbrev pub clear_success : AuthenticateResponse → AuthenticateResponse
clear_success m = record m { success = false }

abbrev pub set_success : AuthenticateResponse → Bool → AuthenticateResponse
set_success m v = record m { success = v }

abbrev pub get_success : AuthenticateResponse → Bool
get_success m = m.success

abbrev pub clear : AuthenticateResponse → AuthenticateResponse
clear m = clear_success m

abbrev pub is_initialized : AuthenticateResponse → Bool
is_initialized m = true
