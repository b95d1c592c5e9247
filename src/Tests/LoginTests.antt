-- ===== src/Tests/LoginTests.antt =====
-- Tests of messages that go over a connection of src/client.rs.
use brqueue.Base.{
  dec_lt, Result, ℕ, String, ◌<◌, ◌^◌, ◌≡◌, refl, true, none, some, [], ◌∷◌, ◌++◌, ok, arith,
  nat_eq, string_eq, length,
}
use brqueue.Base.Int.{pos}
use brqueue.Std.Fs.{Bytes}
use brqueue.Std.HashMap
use brqueue.Std.Net.{TcpStream, chunk, read}
use brqueue.Binary.{get_size, get_size_array}
use brqueue.Rpc.RequestWrapper.{RequestWrapper}
use brqueue.Rpc.ResponseWrapper.{ResponseWrapper}
use brqueue.Rpc.Requests.{authenticate_request_write}
use brqueue.Rpc.Responses.{authenticate_response_write}
use brqueue.Rpc.RequestCodec.{request_wrapper_write, read_request}
use brqueue.Rpc.ResponseCodec.{response_wrapper_write, read_response}
use brqueue.Authentication.Operations.{verify_user}
use brqueue.Client.Library.{Library}
use brqueue.Client.Framing.{message, read_message, filled, frame, send_reply, as_i32}
use brqueue.Client.Connection.{login_response, ensure_auth}
use brqueue.Client.Messages.{IsProtobuf, reply_arrives}
use brqueue.Client.Frames.{read_message-frame}
use brqueue.Client.Bounds.{read_message-length}
use brqueue.Client.Login.{login_request, ensure_auth-login}
use brqueue.Tests.Crates.{plain, little_endian, crates}
use brqueue.Tests.ByteWire.{bytes_wire}
use brqueue.Tests.ClientTests.{runtime, client}

abbrev pub write : ResponseWrapper → Result String Bytes
write m = ok (response_wrapper_write bytes_wire m)

abbrev pub lib : Library ℕ
lib = record crates { parse_from_bytes = read_request bytes_wire; write_to_vec = write }

pub speaks : IsProtobuf bytes_wire lib
speaks = record { parse = λ bytes m h ready. h; write = λ m ready. refl }

abbrev asked : RequestWrapper
asked = login_request (pos 9) (record { username = "guest"; password = "guest" })

written_length : length (request_wrapper_write bytes_wire asked) ≡ 19
unfolding request_wrapper_write authenticate_request_write string_eq
written_length = refl

abbrev written : Bytes
written = request_wrapper_write bytes_wire asked

abbrev size : Bytes
size = 19 ∷ 0 ∷ 0 ∷ 0 ∷ []

framed : frame lib written ≡ ok (size ++ written)
unfolding frame get_size_array as_i32 dec_lt
framed = rw written_length refl

-- The request in one piece, with the first byte of another.
abbrev arriving : TcpStream
arriving = record {
  incoming = chunk ((size ++ written) ++ 1 ∷ []) ∷ [];
  outgoing = [];
  write_error = none;
}

arrived :
    read_message lib arriving
    ≡ (message written, record arriving { incoming = chunk (1 ∷ []) ∷ [] })
arrived =
    read_message-frame lib arriving written (size ++ written) (1 ∷ []) []
      (omega (arith, written_length)) framed refl

abbrev granted : ResponseWrapper
granted = login_response runtime lib true (pos 9)

short_answer : length (response_wrapper_write bytes_wire granted) < 2 ^ 31
unfolding response_wrapper_write authenticate_response_write
short_answer = omega arith

answer_length : length (response_wrapper_write bytes_wire granted) ≡ 7
unfolding response_wrapper_write authenticate_response_write
answer_length = refl

abbrev answer : Bytes
answer = (7 ∷ 0 ∷ 0 ∷ 0 ∷ []) ++ response_wrapper_write bytes_wire granted

answered : frame lib (response_wrapper_write bytes_wire granted) ≡ ok answer
unfolding frame get_size_array as_i32 dec_lt
answered = rw answer_length refl

abbrev peer : TcpStream
peer = record { incoming = chunk (answer ++ []) ∷ []; outgoing = []; write_error = none }

reply_arrives_example :
    (send_reply lib arriving granted ≡ (ok tt, record arriving { outgoing = answer }))
    × (read_message lib peer
        ≡ (message (response_wrapper_write bytes_wire granted), record peer { incoming = [] }))
    × (read_response bytes_wire (response_wrapper_write bytes_wire granted) ≡ ok granted)
reply_arrives_example =
    reply_arrives bytes_wire lib speaks arriving peer granted answer [] [] short_answer answered
      refl refl

password_right : verify_user plain client.auth "guest" "guest" ≡ ok true
unfolding verify_user HashMap.get string_eq
password_right = refl

ensure_auth-login_example :
    (ensure_auth runtime lib client arriving
      ≡ (some (ok tt), record arriving { incoming = chunk (1 ∷ []) ∷ []; outgoing = answer }))
    × (read_message lib peer
        ≡ (message (response_wrapper_write bytes_wire granted), record peer { incoming = [] }))
    × (read_response bytes_wire (response_wrapper_write bytes_wire granted) ≡ ok granted)
ensure_auth-login_example =
    ensure_auth-login runtime bytes_wire lib speaks client arriving peer (pos 9)
      (record { username = "guest"; password = "guest" }) true (size ++ written) (1 ∷ []) answer []
      [] [] (omega (arith, written_length)) short_answer framed answered refl refl refl
      password_right

read_message-length_example :
    ((head : Bytes) × ((read arriving 4).0 ≡ ok head)
      × (get_size little_endian (filled 4 head) ≡ ok (pos (length written))))
    × (length written < 2 ^ 31)
read_message-length_example =
    read_message-length lib arriving (record arriving { incoming = chunk (1 ∷ []) ∷ [] }) written
      arrived
