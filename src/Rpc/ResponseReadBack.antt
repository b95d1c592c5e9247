-- ===== src/Rpc/ResponseReadBack.antt =====
-- Responses of src/rpc/queue.rs as a whole: what is written is read back, and has the size that was
-- computed.
use brqueue.Base.{
  ℕ, ◌<◌, ◌^◌, ◌≡◌, refl, ap, false, Option, none, some, List, [], ◌++◌, ok, if◌then◌else◌, length,
  arith, length-append, length-left, length-right, nat_eq, ℕ_discrete,
}
use brqueue.Base.Int.{ℤ}
use brqueue.Rpc.Runtime.{Wire, varint, length_delimited}
use brqueue.Rpc.Merge.{
  Step, Shrinks, IsField, Merges, Merges-nil, Merges-field, Merges-optional, merge_from, into,
}
use brqueue.Rpc.Messages.{default_pop_response, AcknowledgeResponse}
use brqueue.Rpc.ResponseWrapper
use brqueue.Rpc.ResponseWrapper.{ResponseWrapper, ResponseMessage}
use brqueue.Rpc.RequestCodec.{is_zero, nested, write_nested}
use brqueue.Rpc.Responses.{
  authenticate_response_step, authenticate_response_size, authenticate_response_write,
  enqueue_response_step, enqueue_response_size, enqueue_response_write, pop_response_step,
  pop_response_size, pop_response_write, acknowledge_response_step, acknowledge_response_size,
  acknowledge_response_write, error_response_step, error_response_size, error_response_write,
}
use brqueue.Rpc.ResponseCodec.{
  response, response_wrapper_step, response_size, response_wrapper_size, response_write,
  response_wrapper_write, read_response,
}
use brqueue.Rpc.Fields.{skipped-shrinks}
use brqueue.Rpc.Sizes.{nested_size-length, ref_id_size-length}
use brqueue.Rpc.RequestReadBack.{nested-IsField, nested-shrinks, int32-shrinks, zero_default}
use brqueue.Rpc.ResponseFields.{
  authenticate_response-Merges, authenticate_response_size-length, enqueue_response-Merges,
  enqueue_response_size-length, pop_response-Merges, pop_response_size-length,
  acknowledge_response-Merges, error_response-Merges, error_response_size-length,
}

module _ {B : Type 0} (wire : Wire B) where
  response_wrapper_step-Shrinks : Shrinks (response_wrapper_step wire)
  unfolding response_wrapper_step Shrinks
  response_wrapper_step-Shrinks m n t bytes changed rest h =
      grind (arith, int32-shrinks, nested-shrinks, skipped-shrinks)

  acknowledge_size-length :
      (v : AcknowledgeResponse)
      → acknowledge_response_size wire v ≡ length (acknowledge_response_write wire v)
  unfolding acknowledge_response_size acknowledge_response_write
  acknowledge_size-length v = refl

  one_response :
      {N : Type 0} (m : ResponseWrapper) (f : N → ResponseMessage) (n size : ℕ) (inner : Step B N)
      (new v : N) (bytes : List B)
      → n < 16
      → ((more : List B)
          → response_wrapper_step wire m n length_delimited more
            ≡ into wire (λ z. response wire m (f z)) (nested wire inner new length_delimited more))
      → length (write_nested wire n size bytes) < 2 ^ 32
      → (length bytes < 2 ^ 32 → size ≡ length bytes)
      → (length bytes < 2 ^ 32 → Merges wire inner new bytes v)
      → Merges wire
          (response_wrapper_step wire)
          m
          (write_nested wire n size bytes ++ [])
          (response wire m (f v))
  one_response m f n size inner new v bytes short reads fits sized merges =
      let step = response_wrapper_step wire in
      Merges-field wire step response_wrapper_step-Shrinks m (response wire m (f v))
        (response wire m (f v)) (write_nested wire n size bytes) []
        (nested-IsField wire step m (λ z. response wire m (f z)) n size inner new v bytes short
          reads fits sized merges)
        (Merges-nil wire step response_wrapper_step-Shrinks (response wire m (f v)))

  response_write-Merges :
      (ref_id : ℤ) (o : Option ResponseMessage)
      → length (response_write wire o) < 2 ^ 32
      → Merges wire
          (response_wrapper_step wire)
          (record { ref_id = ref_id; message = none })
          (response_write wire o ++ [])
          (record { ref_id = ref_id; message = o })
  unfolding response_wrapper_step response_write nat_eq ℕ_discrete
  response_write-Merges ref_id none fits =
      Merges-nil wire (response_wrapper_step wire) response_wrapper_step-Shrinks
        (record { ref_id = ref_id; message = none })
  response_write-Merges ref_id (some (ResponseMessage.enqueue v)) fits =
      one_response (record { ref_id = ref_id; message = none }) ResponseMessage.enqueue 1
        (enqueue_response_size wire v) (enqueue_response_step wire) (record { id = "" }) v
        (enqueue_response_write wire v) (omega arith) (λ more. refl) fits
        (enqueue_response_size-length wire v) (enqueue_response-Merges wire v)
  response_write-Merges ref_id (some (ResponseMessage.pop v)) fits =
      one_response (record { ref_id = ref_id; message = none }) ResponseMessage.pop 2
        (pop_response_size wire v) (pop_response_step wire) default_pop_response v
        (pop_response_write wire v) (omega arith) (λ more. refl) fits
        (pop_response_size-length wire v) (pop_response-Merges wire v)
  response_write-Merges ref_id (some (ResponseMessage.acknowledge v)) fits =
      one_response (record { ref_id = ref_id; message = none }) ResponseMessage.acknowledge 3
        (acknowledge_response_size wire v) (acknowledge_response_step wire) (record {}) v
        (acknowledge_response_write wire v) (omega arith) (λ more. refl) fits
        (λ h. acknowledge_size-length v) (λ h. acknowledge_response-Merges wire v)
  response_write-Merges ref_id (some (ResponseMessage.error v)) fits =
      one_response (record { ref_id = ref_id; message = none }) ResponseMessage.error 4
        (error_response_size wire v) (error_response_step wire) (record { message = "" }) v
        (error_response_write wire v) (omega arith) (λ more. refl) fits
        (error_response_size-length wire v) (error_response-Merges wire v)
  response_write-Merges ref_id (some (ResponseMessage.authenticate v)) fits =
      one_response (record { ref_id = ref_id; message = none }) ResponseMessage.authenticate 6
        (authenticate_response_size wire v) (authenticate_response_step wire)
        (record { success = false }) v (authenticate_response_write wire v) (omega arith)
        (λ more. refl) fits (λ h. authenticate_response_size-length wire v)
        (λ h. authenticate_response-Merges wire v)

  ref_id-IsField :
      (i : ℤ)
      → IsField wire
          (response_wrapper_step wire)
          ResponseWrapper.new
          (wire.write_int32 10 i)
          (record ResponseWrapper.new { ref_id = i })
  unfolding response_wrapper_step IsField nat_eq ℕ_discrete
  ref_id-IsField i rest =
      let (bytes, tag, read) = wire.read_int32-write_int32 10 i rest (omega arith) in
      (10, varint, bytes, tag, ap (into wire (λ v. record ResponseWrapper.new { ref_id = v })) read)

  -- A response of less than 2^32 bytes is read back as it was written.
  pub read_response-write :
      (m : ResponseWrapper)
      → length (response_wrapper_write wire m) < 2 ^ 32
      → read_response wire (response_wrapper_write wire m) ≡ ok m
  unfolding read_response response_wrapper_write Merges merge_from
  read_response-write m fits =
      let i = if is_zero m.ref_id then [] else wire.write_int32 10 m.ref_id in
      let w = response_write wire m.message in
      let fit = length-left (2 ^ 32) w [] (length-right (2 ^ 32) i (w ++ []) fits) in
      Merges-optional wire (response_wrapper_step wire) response_wrapper_step-Shrinks
        (is_zero m.ref_id) ResponseWrapper.new (record ResponseWrapper.new { ref_id = m.ref_id }) m
        (wire.write_int32 10 m.ref_id) (w ++ [])
        (λ h. ap (λ v. record ResponseWrapper.new { ref_id = v }) (zero_default m.ref_id h))
        (λ h. ref_id-IsField m.ref_id) (response_write-Merges m.ref_id m.message fit)
        (length (response_wrapper_write wire m)) (omega arith)

  response_size-length :
      (o : Option ResponseMessage)
      → length (response_write wire o) < 2 ^ 32
      → response_size wire o ≡ length (response_write wire o)
  unfolding response_size response_write
  response_size-length none fits = refl
  response_size-length (some (ResponseMessage.enqueue v)) fits =
      nested_size-length wire 1 (enqueue_response_size wire v) (enqueue_response_write wire v)
        (omega arith) fits (enqueue_response_size-length wire v)
  response_size-length (some (ResponseMessage.pop v)) fits =
      nested_size-length wire 2 (pop_response_size wire v) (pop_response_write wire v) (omega arith)
        fits (pop_response_size-length wire v)
  response_size-length (some (ResponseMessage.acknowledge v)) fits =
      nested_size-length wire 3 (acknowledge_response_size wire v)
        (acknowledge_response_write wire v) (omega arith) fits (λ h. acknowledge_size-length v)
  response_size-length (some (ResponseMessage.error v)) fits =
      nested_size-length wire 4 (error_response_size wire v) (error_response_write wire v)
        (omega arith) fits (error_response_size-length wire v)
  response_size-length (some (ResponseMessage.authenticate v)) fits =
      nested_size-length wire 6 (authenticate_response_size wire v)
        (authenticate_response_write wire v) (omega arith) fits
        (λ h. authenticate_response_size-length wire v)

  -- `compute_size` of a response of less than 2^32 bytes is the number of bytes that are written.
  response_wrapper_size-length :
      (m : ResponseWrapper)
      → length (response_wrapper_write wire m) < 2 ^ 32
      → response_wrapper_size wire m ≡ length (response_wrapper_write wire m)
  unfolding response_wrapper_size response_wrapper_write
  response_wrapper_size-length m fits =
      let i = if is_zero m.ref_id then [] else wire.write_int32 10 m.ref_id in
      let w = response_write wire m.message in
      let f = length-left (2 ^ 32) i (w ++ []) fits in
      let g = length-right (2 ^ 32) i (w ++ []) fits in
      let a = ref_id_size-length wire m.ref_id in
      let b = response_size-length m.message (length-left (2 ^ 32) w [] g) in
      omega (arith, fits, a, b, f, g, length-append i (w ++ []), length-append w [])
