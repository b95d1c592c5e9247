-- ===== src/Client/Framing.antt =====
-- How src/client.rs reads a message from a connection and sends a reply: the size of the message as
-- four bytes, and then the message.
use brqueue.Base.{ℕ, ◌-◌, ◌%◌, ◌^◌, String, [], ◌∷◌, ◌++◌, Result, ok, err, length, dec_lt, ite}
use brqueue.Base.Int.{ℤ, pos, negsuc}
use brqueue.Std.Fs.{Bytes}
use brqueue.Std.Io.{IoError}
use brqueue.Std.Net.{TcpStream, read, write_all, replicate}
use brqueue.Binary.{get_size, get_size_array}
use brqueue.Rpc.RequestWrapper.{RequestWrapper}
use brqueue.Rpc.ResponseWrapper
use brqueue.Rpc.ResponseWrapper.{ResponseWrapper}
use brqueue.Client.Errors.{
  Error, connection_error, read_error, parse_error, response_error, connection_reset,
}
use brqueue.Client.Library.{Library}

-- `usize as i32`: the low 32 bits as a signed number.
unfoldable pub as_i32 : ℕ → ℤ
as_i32 n = let low = n % 2 ^ 32 in ite (dec_lt low (2 ^ 31)) (pos low) (negsuc (2 ^ 32 - low - 1))

-- A buffer of `n` zero bytes after a read into it.
abbrev pub filled : ℕ → Bytes → Bytes
filled n bytes = bytes ++ replicate (n - length bytes) 0

-- The result of `read_message`. A negative size, taken as a `usize`, is more than a vector can hold,
-- and `vec!` panics.
pub data Frame : Type 0 where
  message : Bytes → Frame
  failed : Error → Frame
  panicked : Frame

module _ {U : Type 0} (lib : Library U) where
  unfoldable pub read_body : ℕ → Result IoError Bytes × TcpStream → Frame × TcpStream
  read_body size (ok bytes, s) = (message (filled size bytes), s)
  read_body size (err e, s) = (failed (read_error e), s)

  unfoldable pub read_sized : TcpStream → Result IoError ℤ → Frame × TcpStream
  unfolding read_body
  read_sized s (ok (pos size)) = read_body size (read s size)
  read_sized s (ok (negsuc n)) = (panicked, s)
  read_sized s (err e) = (failed (read_error e), s)

  -- What `read_message` does once it has read the size, or a part of it.
  unfoldable pub after_size : Result IoError Bytes × TcpStream → Frame × TcpStream
  unfolding read_sized
  after_size (ok [], s) = (failed connection_reset, s)
  after_size (ok (b ∷ bytes), s) = read_sized s (get_size lib.order (filled 4 (b ∷ bytes)))
  after_size (err e, s) = (failed (connection_error e), s)

  unfoldable pub read_message : TcpStream → Frame × TcpStream
  unfolding after_size
  read_message s = after_size (read s 4)

  unfoldable pub parse_request : Bytes → Result Error RequestWrapper
  parse_request content = elim (lib.parse_from_bytes content) [
    | ok m ↦ ok m
    | err e ↦ err (parse_error e)
  ]

  unfoldable pub to_binary : ResponseWrapper → Result Error Bytes
  to_binary m = elim (lib.write_to_vec m) [ ok content ↦ ok content | err e ↦ err (parse_error e) ]

  -- The frame of a message, or the error of its size.
  unfoldable pub frame : Bytes → Result Error Bytes
  frame content = elim (get_size_array lib.order (as_i32 (length content))) [
    | ok size ↦ ok (size ++ content)
    | err e ↦ err (response_error e)
  ]

  abbrev pub wrote : Result IoError (Unit {0}) × TcpStream → Result Error (Unit {0}) × TcpStream
  wrote (ok u, s) = (ok tt, s)
  wrote (err e, s) = (err (response_error e), s)

  unfoldable pub send_reply : TcpStream → ResponseWrapper → Result Error (Unit {0}) × TcpStream
  unfolding to_binary frame
  send_reply s m = elim (to_binary m) [
    | err e ↦ (err e, s)
    | ok content ↦ elim (frame content) [
      | err e ↦ (err e, s)
      | ok bytes ↦ wrote (write_all s bytes)
    ]
  ]

  abbrev pub error_response : String → ℤ → ResponseWrapper
  error_response text ref_id =
      ResponseWrapper.set_ref_id
        (ResponseWrapper.set_error ResponseWrapper.new (record { message = text })) ref_id

  -- An error of the sending is only logged.
  unfoldable pub reply_error : TcpStream → String → ℤ → TcpStream
  unfolding send_reply
  reply_error s text ref_id = (send_reply s (error_response text ref_id)).1
