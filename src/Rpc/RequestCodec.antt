-- ===== src/Rpc/RequestCodec.antt =====
-- How `RequestWrapper` of src/rpc/queue.rs is read, measured and written. The size of a nested
-- message that is written is the one that `compute_size` has cached.
use brqueue.Base.{
  ℕ, zero, suc, ◌==◌, ◌+◌, String, Bool, true, false, Option, none, some, List, [], ◌++◌, Result,
  err, if◌then◌else◌, nat_eq,
}
use brqueue.Base.Int.{ℤ, pos, negsuc}
use brqueue.Rpc.Runtime.{Wire, WireType, varint, length_delimited, Read}
use brqueue.Rpc.Merge.{Step, merge_from, into, skipped}
use brqueue.Rpc.Messages.{
  default_authenticate_request, default_enqueue_request, default_pop_request,
  default_acknowledge_request,
}
use brqueue.Rpc.RequestWrapper.{RequestWrapper, RequestMessage}
use brqueue.Rpc.Requests.{
  u32, if_varint, authenticate_request_step, authenticate_request_size, authenticate_request_write,
  enqueue_request_step, enqueue_request_size, enqueue_request_write, pop_request_step,
  pop_request_size, pop_request_write, acknowledge_request_step, acknowledge_request_size,
  acknowledge_request_write,
}

abbrev pub is_zero : ℤ → Bool
is_zero (pos zero) = true
is_zero (pos (suc n)) = false
is_zero (negsuc n) = false

abbrev pub default_request_wrapper : RequestWrapper
default_request_wrapper = record { ref_id = pos 0; message = none }

module _ {B : Type 0} (wire : Wire B) where
  -- `if wire_type != WireTypeLengthDelimited { return Err(unexpected_wire_type(wire_type)); }`
  abbrev pub if_length_delimited : {A : Type 0} → WireType → Read B A → Read B A
  if_length_delimited length_delimited r = r
  if_length_delimited t r = err (wire.unexpected_wire_type t)

  -- A nested message: it is read into a new message.
  abbrev pub nested : {M : Type 0} → Step B M → M → WireType → List B → Read B M
  nested step new t bytes =
      if_length_delimited t (wire.read_message (merge_from wire step new) bytes)

  abbrev pub request : RequestWrapper → RequestMessage → RequestWrapper
  request m v = record m { message = some v }

  unfoldable pub request_wrapper_step : Step B RequestWrapper
  request_wrapper_step m n t bytes =
      if n == 10
      then into wire (λ v. record m { ref_id = v }) (if_varint wire t (wire.read_int32 bytes))
      else if n == 1
      then into wire (λ v. request m (RequestMessage.enqueue v))
          (nested (enqueue_request_step wire) default_enqueue_request t bytes)
      else if n == 2
      then into wire (λ v. request m (RequestMessage.pop v))
          (nested (pop_request_step wire) default_pop_request t bytes)
      else if n == 3
      then into wire (λ v. request m (RequestMessage.acknowledge v))
          (nested (acknowledge_request_step wire) default_acknowledge_request t bytes)
      else if n == 6
      then into wire (λ v. request m (RequestMessage.authenticate v))
          (nested (authenticate_request_step wire) default_authenticate_request t bytes)
      else skipped wire m (wire.skip_group n t bytes)

  -- The size of a nested message with its tag and its length, and what is written of it.
  abbrev pub nested_size : ℕ → ℕ
  nested_size len = 1 + wire.compute_raw_varint32_size len + len

  abbrev pub write_nested : ℕ → ℕ → List B → List B
  write_nested n size bytes =
      wire.write_tag n length_delimited ++ (wire.write_raw_varint32 size ++ bytes)

  unfoldable pub request_size : Option RequestMessage → ℕ
  request_size none = 0
  request_size (some (RequestMessage.enqueue v)) = nested_size (enqueue_request_size wire v)
  request_size (some (RequestMessage.pop v)) = nested_size (pop_request_size wire v)
  request_size (some (RequestMessage.acknowledge v)) = nested_size (acknowledge_request_size wire v)
  request_size (some (RequestMessage.authenticate v)) =
      nested_size (authenticate_request_size wire v)

  unfoldable pub request_wrapper_size : RequestWrapper → ℕ
  unfolding request_size
  request_wrapper_size m = u32 (
      (if is_zero m.ref_id then 0 else wire.value_size 10 m.ref_id varint) + request_size m.message)

  unfoldable pub request_write : Option RequestMessage → List B
  request_write none = []
  request_write (some (RequestMessage.enqueue v)) =
      write_nested 1 (enqueue_request_size wire v) (enqueue_request_write wire v)
  request_write (some (RequestMessage.pop v)) =
      write_nested 2 (pop_request_size wire v) (pop_request_write wire v)
  request_write (some (RequestMessage.acknowledge v)) =
      write_nested 3 (acknowledge_request_size wire v) (acknowledge_request_write wire v)
  request_write (some (RequestMessage.authenticate v)) =
      write_nested 6 (authenticate_request_size wire v) (authenticate_request_write wire v)

  unfoldable pub request_wrapper_write : RequestWrapper → List B
  unfolding request_write
  request_wrapper_write m =
      (if is_zero m.ref_id then [] else wire.write_int32 10 m.ref_id)
      ++ (request_write m.message ++ [])

  -- `protobuf::parse_from_bytes` of a request.
  unfoldable pub read_request : List B → Result String RequestWrapper
  read_request bytes = merge_from wire request_wrapper_step default_request_wrapper bytes
