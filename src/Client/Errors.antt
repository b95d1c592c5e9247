-- ===== src/Client/Errors.antt =====
-- The errors of src/client.rs. An error of the crate protobuf is the text that it displays.
use Prim.Native.String.{◌++◌ as ◌<>◌}
use brqueue.Base.{String}
use brqueue.Std.Io.{IoError}
use brqueue.Authentication.Errors
use brqueue.Authentication.Errors.{AuthenticationError}

pub data Error : Type 0 where
  connection_error : IoError → Error
  read_error : IoError → Error
  parse_error : String → Error
  response_error : IoError → Error
  connection_reset : Error
  request_error : String → Error
  authentication_failed : AuthenticationError → Error
  invalid_login : Error

-- The `Display` of an error.
unfoldable pub display : Error → String
display (connection_error e) = "ConnectionError: " <> e.text
display (read_error e) = "ReadError: " <> e.text
display (parse_error e) = "ParseError: " <> e
display (response_error e) = "ResponseError: " <> e.text
display connection_reset = "Connection reset"
display (request_error s) = "Request error: " <> s
display (authentication_failed e) = "Authentication Failed: " <> Errors.display e
display invalid_login = "Invalid login"
