-- ===== src/Authentication/Errors.antt =====
-- The errors of src/authentication/mod.rs. Errors of bcrypt and bincode are the texts that they
-- display, which is all that the program uses of them.
use Prim.Native.String.{◌++◌ as ◌<>◌}
use brqueue.Base.{String}
use brqueue.Std.Io.{IoError}

pub data AuthenticationError : Type 0 where
  io_error : IoError → AuthenticationError
  serialization_error : String → AuthenticationError
  mutex_corrupted : AuthenticationError
  bcrypt_error : String → AuthenticationError
  user_already_exists : AuthenticationError

-- The `Display` of an error.
unfoldable pub display : AuthenticationError → String
display (io_error e) = "IOError: " <> e.text
display (serialization_error e) = "Serialization error: " <> e
display mutex_corrupted = "Mutex corrupted"
display (bcrypt_error e) = "Bcrypt error: " <> e
display user_already_exists = "User already exists"
