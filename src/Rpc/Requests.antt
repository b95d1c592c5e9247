-- ===== src/Rpc/Requests.antt =====
-- How the requests of src/rpc/queue.rs are read, measured and written, in the order of the
-- generated code. A message of the model has no unknown fields: those that are read are dropped, as
-- nothing in the program looks at them, and a message that the program makes has none.
use brqueue.Base.{
  ℕ, zero, suc, ◌==◌, ◌+◌, ◌%◌, ◌^◌, String, Bool, true, false, Option, none, some, List, [], ◌∷◌,
  ◌++◌, err, if◌then◌else◌, nat_eq,
}
use brqueue.Base.Int.{ℤ, pos}
use brqueue.Std.Fs.{Bytes}
use brqueue.Rpc.Runtime.{Wire, WireType, varint, Read}
use brqueue.Rpc.Merge.{Step, into, skipped}
use brqueue.Rpc.Messages.{
  Priority, low, high, AuthenticateRequest, EnqueueRequest, PopRequest, AcknowledgeRequest,
}

abbrev pub is_empty : String → Bool
is_empty String.[] = true
is_empty (String.◌∷◌ c s) = false

abbrev pub is_empty_bytes : Bytes → Bool
is_empty_bytes [] = true
is_empty_bytes (b ∷ bytes) = false

-- `Priority::value` and `Priority::from_i32`.
abbrev pub value : Priority → ℤ
value low = pos 0
value high = pos 1

abbrev pub from_i32 : ℤ → Option Priority
from_i32 (pos zero) = some low
from_i32 (pos (suc zero)) = some high
from_i32 _ = none

abbrev pub is_low : Priority → Bool
is_low low = true
is_low high = false

-- Sums of sizes are of 32 bits.
abbrev pub u32 : ℕ → ℕ
u32 n = n % 2 ^ 32

module _ {B : Type 0} (wire : Wire B) where
  -- `if wire_type != WireTypeVarint { return Err(unexpected_wire_type(wire_type)); }`
  abbrev pub if_varint : {A : Type 0} → WireType → Read B A → Read B A
  if_varint varint r = r
  if_varint t r = err (wire.unexpected_wire_type t)

  unfoldable pub authenticate_request_step : Step B AuthenticateRequest
  authenticate_request_step m n t bytes =
      if n == 1
      then into wire (λ v. record m { username = v }) (wire.read_string t bytes)
      else if n == 2
      then into wire (λ v. record m { password = v }) (wire.read_string t bytes)
      else skipped wire m (wire.skip_group n t bytes)

  unfoldable pub authenticate_request_size : AuthenticateRequest → ℕ
  authenticate_request_size m = u32 (
      (if is_empty m.username then 0 else wire.string_size 1 m.username)
      + (if is_empty m.password then 0 else wire.string_size 2 m.password))

  unfoldable pub authenticate_request_write : AuthenticateRequest → List B
  authenticate_request_write m =
      (if is_empty m.username then [] else wire.write_string 1 m.username)
      ++ ((if is_empty m.password then [] else wire.write_string 2 m.password) ++ [])

  unfoldable pub enqueue_request_step : Step B EnqueueRequest
  enqueue_request_step m n t bytes =
      if n == 1
      then into wire (λ v. record m { message = v }) (wire.read_bytes t bytes)
      else if n == 2
      then into wire (λ v. record m { priority = v }) (wire.read_enum from_i32 m.priority t bytes)
      else if n == 3
      then into wire (λ v. record m { required_capabilities = v })
          (wire.read_repeated_string m.required_capabilities t bytes)
      else skipped wire m (wire.skip_group n t bytes)

  -- The sizes of the strings of a repeated field, and what is written of them.
  unfoldable pub strings_size : ℕ → List String → ℕ
  strings_size n [] = 0
  strings_size n (s ∷ strings) = wire.string_size n s + strings_size n strings

  unfoldable pub write_strings : ℕ → List String → List B
  write_strings n [] = []
  write_strings n (s ∷ strings) = wire.write_string n s ++ write_strings n strings

  unfoldable pub enqueue_request_size : EnqueueRequest → ℕ
  unfolding strings_size
  enqueue_request_size m = u32 (
      (if is_empty_bytes m.message then 0 else wire.bytes_size 1 m.message)
      + (if is_low m.priority then 0 else wire.enum_size 2 (value m.priority))
      + strings_size 3 m.required_capabilities)

  unfoldable pub enqueue_request_write : EnqueueRequest → List B
  unfolding write_strings
  enqueue_request_write m =
      (if is_empty_bytes m.message then [] else wire.write_bytes 1 m.message)
      ++ ((if is_low m.priority then [] else wire.write_enum 2 (value m.priority))
          ++ (write_strings 3 m.required_capabilities ++ []))

  unfoldable pub pop_request_step : Step B PopRequest
  pop_request_step m n t bytes =
      if n == 1
      then into wire (λ v. record m { available_capabilities = v })
          (wire.read_repeated_string m.available_capabilities t bytes)
      else if n == 2
      then into wire (λ v. record m { wait_for_message = v }) (if_varint t (wire.read_bool bytes))
      else skipped wire m (wire.skip_group n t bytes)

  unfoldable pub pop_request_size : PopRequest → ℕ
  unfolding strings_size
  pop_request_size m =
      u32 (strings_size 1 m.available_capabilities + (if m.wait_for_message then 2 else 0))

  unfoldable pub pop_request_write : PopRequest → List B
  unfolding write_strings
  pop_request_write m =
      write_strings 1 m.available_capabilities
      ++ ((if m.wait_for_message then wire.write_bool 2 m.wait_for_message else []) ++ [])

  unfoldable pub acknowledge_request_step : Step B AcknowledgeRequest
  acknowledge_request_step m n t bytes =
      if n == 1
      then into wire (λ v. record m { id = v }) (wire.read_string t bytes)
      else skipped wire m (wire.skip_group n t bytes)

  unfoldable pub acknowledge_request_size : AcknowledgeRequest → ℕ
  acknowledge_request_size m = u32 (if is_empty m.id then 0 else wire.string_size 1 m.id)

  unfoldable pub acknowledge_request_write : AcknowledgeRequest → List B
  acknowledge_request_write m = (if is_empty m.id then [] else wire.write_string 1 m.id) ++ []
