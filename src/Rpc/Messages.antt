-- ===== src/Rpc/Messages.antt =====
-- The messages of src/rpc/queue.rs: their fields, as the client code reads and sets them. The
-- fields `unknown_fields` and `cached_size` of the runtime are left out.
use brqueue.Base.{String, Bool, false, List, []}
use brqueue.Std.Fs.{Bytes}

pub data Priority : Type 0 where
  low high : Priority

pub record AuthenticateRequest : Type 0 where
  pub username : String
  pub password : String

pub record AuthenticateResponse : Type 0 where
  pub success : Bool

pub record EnqueueRequest : Type 0 where
  pub message : Bytes
  pub priority : Priority
  pub required_capabilities : List String

pub record EnqueueResponse : Type 0 where
  pub id : String

pub record PopRequest : Type 0 where
  pub available_capabilities : List String
  pub wait_for_message : Bool

pub record PopResponse : Type 0 where
  pub had_result : Bool
  pub message : Bytes
  pub id : String

pub record AcknowledgeRequest : Type 0 where
  pub id : String

pub record AcknowledgeResponse : Type 0 where

pub record ErrorResponse : Type 0 where
  pub message : String

-- The default instances, which `new` and the getters of absent messages return.
abbrev pub default_authenticate_request : AuthenticateRequest
default_authenticate_request = record { username = ""; password = "" }

abbrev pub default_enqueue_request : EnqueueRequest
default_enqueue_request = record { message = []; priority = low; required_capabilities = [] }

abbrev pub default_pop_request : PopRequest
default_pop_request = record { available_capabilities = []; wait_for_message = false }

abbrev pub default_pop_response : PopResponse
default_pop_response = record { had_result = false; message = []; id = "" }

abbrev pub default_acknowledge_request : AcknowledgeRequest
default_acknowledge_request = record { id = "" }
