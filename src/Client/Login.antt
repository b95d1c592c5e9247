-- ===== src/Client/Login.antt =====
-- A login over a connection of src/client.rs, from the bytes of the request to those of the reply.
use brqueue.Base.{
  ℕ, ◌<◌, ◌^◌, ◌≡◌, ap, Bool, none, some, List, ◌∷◌, ◌++◌, ok, err, length, Eq, if◌then◌else◌,
}
use brqueue.Base.Int.{ℤ}
use brqueue.Std.Fs.{Bytes}
use brqueue.Std.Net.{TcpStream, Arrival, chunk, leftover}
use brqueue.Rpc.Runtime.{Wire}
use brqueue.Rpc.Messages.{AuthenticateRequest}
use brqueue.Rpc.RequestWrapper.{RequestWrapper, RequestMessage}
use brqueue.Rpc.RequestCodec.{request_wrapper_write}
use brqueue.Rpc.ResponseCodec.{response_wrapper_write, read_response}
use brqueue.QueueServer.Runtime.{Runtime}
use brqueue.Authentication.Operations.{verify_user}
use brqueue.Client.Errors.{invalid_login}
use brqueue.Client.Library.{Library}
use brqueue.Client.Framing.{message, read_message, frame}
use brqueue.Client.Handlers.{Client}
use brqueue.Client.Connection.{login_response, ensure_auth, after_read, check_login, admit}
use brqueue.Client.Messages.{IsProtobuf, request_arrives, reply_arrives}

abbrev pub login_request : ℤ → AuthenticateRequest → RequestWrapper
login_request ref_id request = record {
  ref_id = ref_id;
  message = some (RequestMessage.authenticate request);
}

module _ {U : Type 0} ⦃e : Eq U⦄ (R : Runtime U Bytes) (wire : Wire ℕ) (lib : Library U)
    (protobuf : IsProtobuf wire lib) where
  -- If the first bytes of a connection are, in one piece, the frame of an authentication request, the
  -- password can be checked and the connection can be written to, then `ensure_auth` lets the
  -- consumer in exactly if the password is right, and leaves what follows the request. It sends the
  -- frame of the answer, with the number of the request; when that arrives in one piece at the
  -- peer, it is read as the answer. The request and the answer are written in less than
  -- 2^31 bytes.
  pub ensure_auth-login :
      (c : Client R) (s peer : TcpStream) (ref_id : ℤ) (request : AuthenticateRequest)
      (success : Bool) (bytes more reply after : Bytes) (rest later : List Arrival)
      → length (request_wrapper_write wire (login_request ref_id request)) < 2 ^ 31
      → length (response_wrapper_write wire (login_response R lib success ref_id)) < 2 ^ 31
      → frame lib (request_wrapper_write wire (login_request ref_id request)) ≡ ok bytes
      → frame lib (response_wrapper_write wire (login_response R lib success ref_id)) ≡ ok reply
      → s.incoming ≡ chunk (bytes ++ more) ∷ rest
      → s.write_error ≡ none
      → peer.incoming ≡ chunk (reply ++ after) ∷ later
      → verify_user lib.crypt c.auth request.username request.password ≡ ok success
      → (ensure_auth R lib c s ≡ (
        some (if success then ok tt else err invalid_login),
        record s { incoming = leftover more rest; outgoing = s.outgoing ++ reply },
      ))
        × (read_message lib peer ≡ (
          message (response_wrapper_write wire (login_response R lib success ref_id)),
          record peer { incoming = leftover after later },
        ))
        × (read_response wire (response_wrapper_write wire (login_response R lib success ref_id))
            ≡ ok (login_response R lib success ref_id))
  unfolding ensure_auth
  ensure_auth-login c s peer ref_id request success bytes more reply after rest later fits short
        framed answered h writable k verified =
      let m = login_request ref_id request in
      let (arrived, parsed) = request_arrives wire lib protobuf s m bytes more rest fits framed h in
      let t : TcpStream = record s { incoming = leftover more rest } in
      let (sent, got, read) =
        reply_arrives wire lib protobuf t peer (login_response R lib success ref_id) reply after
          later short answered writable k in
      (
        rw (arrived, parsed, verified, sent, after_read, check_login, admit)
            (ap (λ p. (some (if success then ok tt else err invalid_login), p.1)) sent),
        got,
        read,
      )
