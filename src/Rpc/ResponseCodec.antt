-- ===== src/Rpc/ResponseCodec.antt =====
-- How `ResponseWrapper` of src/rpc/queue.rs is read, measured and written.
use brqueue.Base.{
  ℕ, ◌==◌, ◌+◌, String, false, Option, none, some, List, [], ◌++◌, Result, if◌then◌else◌, nat_eq,
}
use brqueue.Rpc.Runtime.{Wire, varint}
use brqueue.Rpc.Merge.{Step, merge_from, into, skipped}
use brqueue.Rpc.Messages.{default_pop_response}
use brqueue.Rpc.ResponseWrapper
use brqueue.Rpc.ResponseWrapper.{ResponseWrapper, ResponseMessage}
use brqueue.Rpc.Requests.{u32, if_varint}
use brqueue.Rpc.RequestCodec.{is_zero, nested, nested_size, write_nested}
use brqueue.Rpc.Responses.{
  authenticate_response_step, authenticate_response_size, authenticate_response_write,
  enqueue_response_step, enqueue_response_size, enqueue_response_write, pop_response_step,
  pop_response_size, pop_response_write, acknowledge_response_step, acknowledge_response_size,
  acknowledge_response_write, error_response_step, error_response_size, error_response_write,
}

module _ {B : Type 0} (wire : Wire B) where
  abbrev pub response : ResponseWrapper → ResponseMessage → ResponseWrapper
  response m v = record m { message = some v }

  unfoldable pub response_wrapper_step : Step B ResponseWrapper
  response_wrapper_step m n t bytes =
      if n == 10
      then into wire (λ v. record m { ref_id = v }) (if_varint wire t (wire.read_int32 bytes))
      else if n == 1
      then into wire (λ v. response m (ResponseMessage.enqueue v))
          (nested wire (enqueue_response_step wire) (record { id = "" }) t bytes)
      else if n == 2
      then into wire (λ v. response m (ResponseMessage.pop v))
          (nested wire (pop_response_step wire) default_pop_response t bytes)
      else if n == 3
      then into wire (λ v. response m (ResponseMessage.acknowledge v))
          (nested wire (acknowledge_response_step wire) (record {}) t bytes)
      else if n == 4
      then into wire (λ v. response m (ResponseMessage.error v))
          (nested wire (error_response_step wire) (record { message = "" }) t bytes)
      else if n == 6
      then into wire (λ v. response m (ResponseMessage.authenticate v))
          (nested wire (authenticate_response_step wire) (record { success = false }) t bytes)
      else skipped wire m (wire.skip_group n t bytes)

  unfoldable pub response_size : Option ResponseMessage → ℕ
  response_size none = 0
  response_size (some (ResponseMessage.enqueue v)) = nested_size wire (enqueue_response_size wire v)
  response_size (some (ResponseMessage.pop v)) = nested_size wire (pop_response_size wire v)
  response_size (some (ResponseMessage.acknowledge v)) =
      nested_size wire (acknowledge_response_size wire v)
  response_size (some (ResponseMessage.error v)) = nested_size wire (error_response_size wire v)
  response_size (some (ResponseMessage.authenticate v)) =
      nested_size wire (authenticate_response_size wire v)

  unfoldable pub response_wrapper_size : ResponseWrapper → ℕ
  unfolding response_size
  response_wrapper_size m = u32 (
      (if is_zero m.ref_id then 0 else wire.value_size 10 m.ref_id varint)
      + response_size m.message)

  unfoldable pub response_write : Option ResponseMessage → List B
  response_write none = []
  response_write (some (ResponseMessage.enqueue v)) =
      write_nested wire 1 (enqueue_response_size wire v) (enqueue_response_write wire v)
  response_write (some (ResponseMessage.pop v)) =
      write_nested wire 2 (pop_response_size wire v) (pop_response_write wire v)
  response_write (some (ResponseMessage.acknowledge v)) =
      write_nested wire 3 (acknowledge_response_size wire v) (acknowledge_response_write wire v)
  response_write (some (ResponseMessage.error v)) =
      write_nested wire 4 (error_response_size wire v) (error_response_write wire v)
  response_write (some (ResponseMessage.authenticate v)) =
      write_nested wire 6 (authenticate_response_size wire v) (authenticate_response_write wire v)

  unfoldable pub response_wrapper_write : ResponseWrapper → List B
  unfolding response_write
  response_wrapper_write m =
      (if is_zero m.ref_id then [] else wire.write_int32 10 m.ref_id)
      ++ (response_write m.message ++ [])

  unfoldable pub read_response : List B → Result String ResponseWrapper
  read_response bytes = merge_from wire response_wrapper_step ResponseWrapper.new bytes
