-- ===== src/Client/Library.antt =====
-- What src/client.rs calls and does not implement: the crates uuid, protobuf, byteorder and bcrypt.
use brqueue.Base.{String, ◌≡◌, Result, ok}
use brqueue.Std.Fs.{Bytes}
use brqueue.Binary.{ByteOrder}
use brqueue.Rpc.RequestWrapper.{RequestWrapper}
use brqueue.Rpc.ResponseWrapper.{ResponseWrapper}
use brqueue.Authentication.Crypto.{Bcrypt}

-- An identifier is read back from its text. A message is parsed and written by the generated code
-- through `parse_from_bytes` and `write_to_vec`.
pub record Library (U : Type 0) : Type 0 where
  pub to_string : U → String
  pub parse_str : String → Result String U
  pub parse_str-to_string : (id : U) → parse_str (to_string id) ≡ ok id
  pub parse_from_bytes : Bytes → Result String RequestWrapper
  pub write_to_vec : ResponseWrapper → Result String Bytes
  pub order : ByteOrder
  pub crypt : Bcrypt
