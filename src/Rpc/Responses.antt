-- ===== src/Rpc/Responses.antt =====
-- How the responses of src/rpc/queue.rs are read, measured and written, in the order of the
-- generated code, and without unknown fields as in `Requests`.
use brqueue.Base.{ℕ, ◌==◌, ◌+◌, List, [], ◌++◌, if◌then◌else◌, nat_eq}
use brqueue.Rpc.Runtime.{Wire}
use brqueue.Rpc.Merge.{Step, into, skipped}
use brqueue.Rpc.Messages.{
  AuthenticateResponse, EnqueueResponse, PopResponse, AcknowledgeResponse, ErrorResponse,
}
use brqueue.Rpc.Requests.{is_empty, is_empty_bytes, u32, if_varint}

module _ {B : Type 0} (wire : Wire B) where
  unfoldable pub authenticate_response_step : Step B AuthenticateResponse
  authenticate_response_step m n t bytes =
      if n == 1
      then into wire (λ v. record m { success = v }) (if_varint wire t (wire.read_bool bytes))
      else skipped wire m (wire.skip_group n t bytes)

  unfoldable pub authenticate_response_size : AuthenticateResponse → ℕ
  authenticate_response_size m = u32 (if m.success then 2 else 0)

  unfoldable pub authenticate_response_write : AuthenticateResponse → List B
  authenticate_response_write m = (if m.success then wire.write_bool 1 m.success else []) ++ []

  unfoldable pub enqueue_response_step : Step B EnqueueResponse
  enqueue_response_step m n t bytes =
      if n == 1
      then into wire (λ v. record m { id = v }) (wire.read_string t bytes)
      else skipped wire m (wire.skip_group n t bytes)

  unfoldable pub enqueue_response_size : EnqueueResponse → ℕ
  enqueue_response_size m = u32 (if is_empty m.id then 0 else wire.string_size 1 m.id)

  unfoldable pub enqueue_response_write : EnqueueResponse → List B
  enqueue_response_write m = (if is_empty m.id then [] else wire.write_string 1 m.id) ++ []

  unfoldable pub pop_response_step : Step B PopResponse
  pop_response_step m n t bytes =
      if n == 3
      then into wire (λ v. record m { had_result = v }) (if_varint wire t (wire.read_bool bytes))
      else if n == 1
      then into wire (λ v. record m { message = v }) (wire.read_bytes t bytes)
      else if n == 2
      then into wire (λ v. record m { id = v }) (wire.read_string t bytes)
      else skipped wire m (wire.skip_group n t bytes)

  unfoldable pub pop_response_size : PopResponse → ℕ
  pop_response_size m = u32 (
      (if m.had_result then 2 else 0)
      + (if is_empty_bytes m.message then 0 else wire.bytes_size 1 m.message)
      + (if is_empty m.id then 0 else wire.string_size 2 m.id))

  unfoldable pub pop_response_write : PopResponse → List B
  pop_response_write m =
      (if m.had_result then wire.write_bool 3 m.had_result else [])
      ++ ((if is_empty_bytes m.message then [] else wire.write_bytes 1 m.message)
          ++ ((if is_empty m.id then [] else wire.write_string 2 m.id) ++ []))

  unfoldable pub acknowledge_response_step : Step B AcknowledgeResponse
  acknowledge_response_step m n t bytes = skipped wire m (wire.skip_group n t bytes)

  unfoldable pub acknowledge_response_size : AcknowledgeResponse → ℕ
  acknowledge_response_size m = 0

  unfoldable pub acknowledge_response_write : AcknowledgeResponse → List B
  acknowledge_response_write m = []

  unfoldable pub error_response_step : Step B ErrorResponse
  error_response_step m n t bytes =
      if n == 1
      then into wire (λ v. record m { message = v }) (wire.read_string t bytes)
      else skipped wire m (wire.skip_group n t bytes)

  unfoldable pub error_response_size : ErrorResponse → ℕ
  error_response_size m = u32 (if is_empty m.message then 0 else wire.string_size 1 m.message)

  unfoldable pub error_response_write : ErrorResponse → List B
  error_response_write m = (if is_empty m.message then [] else wire.write_string 1 m.message) ++ []
