-- ===== src/Tests/SubmissionTests.antt =====
-- Tests of a request that goes over a connection of src/client.rs to the queue server.
use brqueue.Base.{dec_lt, ◌≡◌, refl, [], ◌∷◌, ◌++◌, ok, none, arith, length, nat_eq, string_eq}
use brqueue.Base.Int.{pos}
use brqueue.Std.Fs.{Bytes}
use brqueue.Std.Net.{TcpStream, chunk}
use brqueue.Binary.{get_size_array}
use brqueue.Rpc.Messages.{EnqueueRequest}
use brqueue.Rpc.Messages
use brqueue.Rpc.RequestCodec.{request_wrapper_write}
use brqueue.Rpc.ResponseCodec.{response_wrapper_write, read_response}
use brqueue.Rpc.Requests.{enqueue_request_write}
use brqueue.Rpc.Responses.{enqueue_response_write}
use brqueue.QueueServer.Enqueue.{queued}
use brqueue.QueueServer.Manager.Priorities.{Enqueued}
use brqueue.Client.Framing.{message, read_message, frame, as_i32}
use brqueue.Client.Handlers.{to_priority}
use brqueue.Client.Connection.{serve}
use brqueue.Client.Submission.{serve-enqueue, enqueue_message, accepted, asked, saving}
use brqueue.Tests.ByteWire.{bytes_wire}
use brqueue.Tests.ClientTests.{runtime, client, quiet, server}
use brqueue.Tests.LoginTests.{lib, speaks}

abbrev request : EnqueueRequest
request = record {
  message = 7 ∷ [];
  priority = Messages.Priority.high;
  required_capabilities = "red" ∷ [];
}

abbrev written : Bytes
written = request_wrapper_write bytes_wire (enqueue_message (pos 5) request)

length-written : length written ≡ 16
unfolding request_wrapper_write enqueue_request_write string_eq
length-written = refl

abbrev answer : Bytes
answer = response_wrapper_write bytes_wire (accepted runtime lib (pos 5) 9)

length-answer : length answer ≡ 16
unfolding response_wrapper_write enqueue_response_write string_eq
length-answer = refl

abbrev size : Bytes
size = 16 ∷ 0 ∷ 0 ∷ 0 ∷ []

framed : frame lib written ≡ ok (size ++ written)
unfolding frame get_size_array as_i32 dec_lt
framed = rw length-written refl

answered : frame lib answer ≡ ok (size ++ answer)
unfolding frame get_size_array as_i32 dec_lt
answered = rw length-answer refl

-- The request in one piece, with the first byte of another.
abbrev arriving : TcpStream
arriving = record {
  incoming = chunk ((size ++ written) ++ 1 ∷ []) ∷ [];
  outgoing = [];
  write_error = none;
}

abbrev peer : TcpStream
peer = record { incoming = chunk ((size ++ answer) ++ []) ∷ []; outgoing = []; write_error = none }

serve-enqueue_example :
    let item = asked runtime lib server 9 request in
    let t = queued runtime (saving runtime lib server (item ∷ [])) item in
    (serve runtime lib client arriving (quiet ∷ [])
      ≡ serve runtime lib
          (record client { queue_server = t })
          (record arriving { incoming = chunk (1 ∷ []) ∷ []; outgoing = size ++ answer })
          [])
    × Enqueued runtime.channel (to_priority runtime lib request.priority) server.queue item t.queue
    × (read_message lib peer ≡ (message answer, record peer { incoming = [] }))
    × (read_response bytes_wire answer ≡ ok (accepted runtime lib (pos 5) 9))
serve-enqueue_example =
    serve-enqueue runtime bytes_wire lib speaks client arriving peer quiet [] (pos 5) request _
      (size ++ written) (1 ∷ []) (size ++ answer) [] [] [] (omega (arith, length-written))
      (omega (arith, length-answer)) framed answered refl refl refl refl refl refl
