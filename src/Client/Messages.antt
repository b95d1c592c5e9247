-- ===== src/Client/Messages.antt =====
-- Whole messages over a connection of src/client.rs, through the code of src/rpc/queue.rs that reads
-- and writes them.
use brqueue.Base.{ℕ, ◌<◌, ◌^◌, ◌≡◌, refl, ap, true, none, List, ◌∷◌, ◌++◌, ok, length, arith}
use brqueue.Std.Fs.{Bytes}
use brqueue.Std.Net.{TcpStream, Arrival, chunk, leftover, write_all}
use brqueue.Rpc.Runtime.{Wire}
use brqueue.Rpc.RequestWrapper
use brqueue.Rpc.RequestWrapper.{RequestWrapper}
use brqueue.Rpc.ResponseWrapper
use brqueue.Rpc.ResponseWrapper.{ResponseWrapper}
use brqueue.Rpc.RequestCodec.{request_wrapper_write, read_request}
use brqueue.Rpc.ResponseCodec.{response_wrapper_write, read_response}
use brqueue.Rpc.RequestReadBack.{read_request-write}
use brqueue.Rpc.ResponseReadBack.{read_response-write}
use brqueue.Client.Library.{Library}
use brqueue.Client.Framing.{
  message, read_message, parse_request, frame, to_binary, wrote, send_reply,
}
use brqueue.Client.Frames.{read_message-frame}

write_all_lem :
    (s : TcpStream) (bytes : Bytes)
    → s.write_error ≡ none
    → write_all s bytes ≡ (ok tt, record s { outgoing = s.outgoing ++ bytes })
unfolding write_all
write_all_lem s bytes writable = ground arith

-- What the crate protobuf does with whole messages: `parse_from_bytes` reads into a new message, and
-- `write_to_vec` writes to a vector; both refuse a message that is not initialized.
pub record IsProtobuf {U : Type 0} (wire : Wire ℕ) (lib : Library U) : Type 0 where
  pub parse :
      (bytes : Bytes) (m : RequestWrapper)
      → read_request wire bytes ≡ ok m
      → RequestWrapper.is_initialized m ≡ true
      → lib.parse_from_bytes bytes ≡ ok m
  pub write :
      (m : ResponseWrapper)
      → ResponseWrapper.is_initialized m ≡ true
      → lib.write_to_vec m ≡ ok (response_wrapper_write wire m)

module _ {U : Type 0} (wire : Wire ℕ) (lib : Library U) (protobuf : IsProtobuf wire lib) where
  parse_lem :
      (m : RequestWrapper)
      → length (request_wrapper_write wire m) < 2 ^ 31
      → lib.parse_from_bytes (request_wrapper_write wire m) ≡ ok m
  parse_lem m fits =
      protobuf.parse (request_wrapper_write wire m) m (read_request-write wire m (omega arith))
        (ground arith)

  -- A request that is written in less than 2^31 bytes, framed, and arrives in one piece, is read and
  -- parsed as that request, and what follows it in the piece is left for the next read.
  pub request_arrives :
      (s : TcpStream) (m : RequestWrapper) (bytes more : Bytes) (rest : List Arrival)
      → length (request_wrapper_write wire m) < 2 ^ 31
      → frame lib (request_wrapper_write wire m) ≡ ok bytes
      → s.incoming ≡ chunk (bytes ++ more) ∷ rest
      → (read_message lib s
          ≡ (message (request_wrapper_write wire m), record s { incoming = leftover more rest }))
        × (parse_request lib (request_wrapper_write wire m) ≡ ok m)
  unfolding parse_request
  request_arrives s m bytes more rest fits framed h = (
    read_message-frame lib s (request_wrapper_write wire m) bytes more rest fits framed h,
    rw (parse_lem m fits, parse_request) refl,
  )

  to_binary_lem : (m : ResponseWrapper) → to_binary lib m ≡ ok (response_wrapper_write wire m)
  unfolding to_binary
  to_binary_lem m =
      let ready : ResponseWrapper.is_initialized m ≡ true = ground arith in
      rw (protobuf.write m ready, to_binary) refl

  -- A response that is written in less than 2^31 bytes is sent on a connection that can be written
  -- to, in one frame. When the frame arrives in one piece at the other end of the connection, a read
  -- with the same framing gets the bytes of the response, which are read as that response,
  -- and leaves what follows them.
  pub reply_arrives :
      (s peer : TcpStream) (m : ResponseWrapper) (bytes more : Bytes) (rest : List Arrival)
      → length (response_wrapper_write wire m) < 2 ^ 31
      → frame lib (response_wrapper_write wire m) ≡ ok bytes
      → s.write_error ≡ none
      → peer.incoming ≡ chunk (bytes ++ more) ∷ rest
      → (send_reply lib s m ≡ (ok tt, record s { outgoing = s.outgoing ++ bytes }))
        × (read_message lib peer ≡ (
          message (response_wrapper_write wire m),
          record peer { incoming = leftover more rest },
        ))
        × (read_response wire (response_wrapper_write wire m) ≡ ok m)
  unfolding send_reply
  reply_arrives s peer m bytes more rest fits framed writable h =
      let content = response_wrapper_write wire m in
      (
        rw (to_binary_lem m, framed, send_reply) (ap (wrote lib) (write_all_lem s bytes writable)),
        read_message-frame lib peer content bytes more rest fits framed h,
        read_response-write wire m (omega arith),
      )
