-- ===== src/Tests/WireTests.antt =====
-- Tests of src/rpc/queue.rs.
use brqueue.Base.{length, ◌≡◌, true, some, [], ◌∷◌, ok, arith}
use brqueue.Base.Int.{pos}
use brqueue.Rpc.Runtime.{varint}
use brqueue.Rpc.Merge.{merge_from}
use brqueue.Rpc.Messages.{
  high, default_authenticate_request, default_enqueue_request, default_pop_request,
  default_acknowledge_request,
}
use brqueue.Rpc.RequestWrapper.{RequestWrapper, RequestMessage}
use brqueue.Rpc.RequestCodec.{
  default_request_wrapper, request_wrapper_step, request_wrapper_size, request_wrapper_write,
  read_request,
}
use brqueue.Rpc.Requests.{
  enqueue_request_write, authenticate_request_step, enqueue_request_step, pop_request_step,
  acknowledge_request_step,
}
use brqueue.Rpc.ResponseWrapper.{ResponseWrapper, ResponseMessage}
use brqueue.Rpc.RequestReadBack.{read_request-write}
use brqueue.Rpc.Sizes.{request_wrapper_size-length}
use brqueue.Rpc.Ends.{IsTotal, read_request-IsTotal}
use brqueue.Tests.Tokens.{tag, number, tokens}

abbrev asked : RequestWrapper
asked = record {
  ref_id = pos 3;
  message = some (
      RequestMessage.enqueue
        (record { message = 7 ∷ []; priority = high; required_capabilities = "a" ∷ "b" ∷ [] }));
}

read_request-write_example : read_request tokens (request_wrapper_write tokens asked) ≡ ok asked
unfolding request_wrapper_write enqueue_request_write
read_request-write_example = read_request-write tokens asked (omega arith)

read_request-IsTotal_example :
    let bytes = tag 10 varint ∷ number (pos 4) ∷ [] in
    IsTotal tokens (request_wrapper_step tokens) default_request_wrapper bytes 9
    × (merge_from tokens (request_wrapper_step tokens) default_request_wrapper bytes
        ≡ read_request tokens bytes)
    × IsTotal tokens (enqueue_request_step tokens) default_enqueue_request bytes 9
    × IsTotal tokens (pop_request_step tokens) default_pop_request bytes 9
    × IsTotal tokens (acknowledge_request_step tokens) default_acknowledge_request bytes 9
    × IsTotal tokens (authenticate_request_step tokens) default_authenticate_request bytes 9
read_request-IsTotal_example =
    read_request-IsTotal tokens (tag 10 varint ∷ number (pos 4) ∷ []) 9 (omega arith)

request_wrapper_size-length_example :
    request_wrapper_size tokens asked ≡ length (request_wrapper_write tokens asked)
unfolding request_wrapper_write enqueue_request_write
request_wrapper_size-length_example = request_wrapper_size-length tokens asked (omega arith)

abbrev answered : ResponseWrapper
answered = record {
  ref_id = pos 3;
  message = some (ResponseMessage.pop (record { had_result = true; message = 7 ∷ []; id = "x" }));
}
