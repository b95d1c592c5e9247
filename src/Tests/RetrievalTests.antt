-- ===== src/Tests/RetrievalTests.antt =====
-- Tests of a request for an item that goes over a connection of src/client.rs.
use brqueue.Base.{
  dec_lt, ◌≡◌, refl, true, some, if◌then◌else◌, ◌||◌, ◌==◌, ℕ, [], ◌∷◌, ◌++◌, ok, none, arith,
  length, nat_eq, string_eq,
}
use brqueue.Base.Int.{pos}
use brqueue.Std.Fs.{Bytes}
use brqueue.Std.HashSet
use brqueue.Std.Net.{TcpStream, chunk}
use brqueue.Binary.{get_size_array}
use brqueue.Models.Tags
use brqueue.Models.QueueItem.{can_be_handled_by}
use brqueue.Rpc.Messages.{PopRequest}
use brqueue.Rpc.RequestCodec.{request_wrapper_write}
use brqueue.Rpc.ResponseCodec.{response_wrapper_write, read_response}
use brqueue.Rpc.Requests.{pop_request_write}
use brqueue.Rpc.Responses.{pop_response_write}
use brqueue.Queue
use brqueue.QueueServer.Manager
use brqueue.QueueServer.Manager.Priorities.{Popped}
use brqueue.QueueServer.Delivery.{in_process}
use brqueue.Client.Framing.{message, read_message, frame, as_i32}
use brqueue.Client.Connection.{serve}
use brqueue.Client.Retrieval.{serve-pop, pop_message, handed, holding}
use brqueue.Tests.ByteWire.{bytes_wire}
use brqueue.Tests.ClientTests.{runtime, client, quiet, server, task}
use brqueue.Tests.LoginTests.{lib, speaks}

abbrev request : PopRequest
request = record { available_capabilities = "red" ∷ []; wait_for_message = true }

abbrev written : Bytes
written = request_wrapper_write bytes_wire (pop_message (pos 5) request)

length-written : length written ≡ 12
unfolding request_wrapper_write pop_request_write string_eq
length-written = refl

abbrev answer : Bytes
answer = response_wrapper_write bytes_wire (handed runtime lib (pos 5) (task 1))

length-answer : length answer ≡ 13
unfolding response_wrapper_write pop_response_write string_eq
length-answer = refl

found :
    (Manager.pop runtime.channel server.queue request.available_capabilities).0 ≡ ok (some (task 1))
unfolding Manager.pop Tags.from can_be_handled_by string_eq Manager.pop_high Queue.pop
found = refl

framed : frame lib written ≡ ok ((12 ∷ 0 ∷ 0 ∷ 0 ∷ []) ++ written)
unfolding frame get_size_array as_i32 dec_lt
framed = rw length-written refl

answered : frame lib answer ≡ ok ((13 ∷ 0 ∷ 0 ∷ 0 ∷ []) ++ answer)
unfolding frame get_size_array as_i32 dec_lt
answered = rw length-answer refl

-- The request in one piece, with nothing after it.
abbrev arriving : TcpStream
arriving = record {
  incoming = chunk (((12 ∷ 0 ∷ 0 ∷ 0 ∷ []) ++ written) ++ []) ∷ [];
  outgoing = [];
  write_error = none;
}

-- The answer, with the first byte of another.
abbrev peer : TcpStream
peer = record {
  incoming = chunk (((13 ∷ 0 ∷ 0 ∷ 0 ∷ []) ++ answer) ++ 1 ∷ []) ∷ [];
  outgoing = [];
  write_error = none;
}

serve-pop_example :
    let popped = Manager.pop runtime.channel server.queue request.available_capabilities in
    let d = holding runtime lib client popped.1 (task 1) in
    (serve runtime lib client arriving (quiet ∷ [])
      ≡ serve runtime lib d
          (record arriving { incoming = []; outgoing = (13 ∷ 0 ∷ 0 ∷ 0 ∷ []) ++ answer })
          [])
    × Popped runtime.channel
        (Tags.from request.available_capabilities)
        server.queue
        d.queue_server.queue
        (some (task 1))
    × ((id : ℕ)
        → in_process runtime d.queue_server id
          ≡ (if 1 == id then some (task 1) else in_process runtime server id))
    × ((id : ℕ)
        → HashSet.contains d.outstanding_tasks.value id ≡ (1 == id || HashSet.contains (7 ∷ []) id))
    × (read_message lib peer ≡ (message answer, record peer { incoming = chunk (1 ∷ []) ∷ [] }))
    × (read_response bytes_wire answer ≡ ok (handed runtime lib (pos 5) (task 1)))
serve-pop_example =
    serve-pop runtime bytes_wire lib speaks client arriving peer quiet [] (pos 5) request (task 1)
      ((12 ∷ 0 ∷ 0 ∷ 0 ∷ []) ++ written) [] ((13 ∷ 0 ∷ 0 ∷ 0 ∷ []) ++ answer) (1 ∷ []) [] []
      (omega (arith, length-written)) (omega (arith, length-answer)) framed answered refl refl refl
      refl refl found
