-- ===== src/Rpc/Sizes.antt =====
-- `compute_size` of the requests of src/rpc/queue.rs: the size of what is written.
use brqueue.Base.{
  ℕ, zero, suc, Option, none, some, ◌<◌, ◌^◌, String, ◌≡◌, refl, sym, Bool, true, false, List, [],
  ◌∷◌, ◌++◌, if◌then◌else◌, length, arith, length-append, length-left, length-right,
}
use brqueue.Std.Fs.{Bytes}
use brqueue.Base.Int.{ℤ, pos, negsuc}
use brqueue.Rpc.RequestWrapper.{RequestWrapper, RequestMessage}
use brqueue.Rpc.RequestCodec.{
  is_zero, nested_size, write_nested, request_size, request_write, request_wrapper_size,
  request_wrapper_write,
}
use brqueue.Rpc.Runtime.{Wire, varint, length_delimited}
use brqueue.Rpc.Messages.{
  Priority, low, high, AuthenticateRequest, EnqueueRequest, PopRequest, AcknowledgeRequest,
}
use brqueue.Rpc.Requests.{
  is_empty, is_empty_bytes, is_low, value, strings_size, write_strings, authenticate_request_size,
  authenticate_request_write, enqueue_request_size, enqueue_request_write, pop_request_size,
  pop_request_write, acknowledge_request_size, acknowledge_request_write,
}

module _ {B : Type 0} (wire : Wire B) where
  pub string_size-length :
      (n : ℕ) (v : String)
      → n < 16
      → length (if is_empty v then [] else wire.write_string n v) < 2 ^ 32
      → (if is_empty v then 0 else wire.string_size n v)
        ≡ length (if is_empty v then [] else wire.write_string n v)
  string_size-length n String.[] short fits = refl
  string_size-length n (String.◌∷◌ c s) short fits =
      wire.string_size-write_string n (String.◌∷◌ c s) short fits

  pub bytes_size-length :
      (n : ℕ) (v : Bytes)
      → n < 16
      → length (if is_empty_bytes v then [] else wire.write_bytes n v) < 2 ^ 32
      → (if is_empty_bytes v then 0 else wire.bytes_size n v)
        ≡ length (if is_empty_bytes v then [] else wire.write_bytes n v)
  bytes_size-length n [] short fits = refl
  bytes_size-length n (b ∷ v) short fits = wire.bytes_size-write_bytes n (b ∷ v) short fits

  pub bool_size-length :
      (n : ℕ) (v : Bool)
      → n < 16
      → (if v then 2 else 0) ≡ length (if v then wire.write_bool n v else [])
  bool_size-length n false short = refl
  bool_size-length n true short = sym (wire.length-write_bool n true short)

  strings_size-length :
      (n : ℕ) (strings : List String)
      → n < 16
      → length (write_strings wire n strings) < 2 ^ 32
      → strings_size wire n strings ≡ length (write_strings wire n strings)
  unfolding strings_size write_strings
  strings_size-length n [] short fits = refl
  strings_size-length n (s ∷ strings) short fits =
      let sum = length-append (wire.write_string n s) (write_strings wire n strings) in
      let a = wire.string_size-write_string n s short (omega (arith, sum)) in
      let b = strings_size-length n strings short (omega (arith, sum)) in omega (arith, sum, a, b)

  pub authenticate_request_size-length :
      (m : AuthenticateRequest)
      → length (authenticate_request_write wire m) < 2 ^ 32
      → authenticate_request_size wire m ≡ length (authenticate_request_write wire m)
  unfolding authenticate_request_size authenticate_request_write
  authenticate_request_size-length m fits =
      let u = if is_empty m.username then [] else wire.write_string 1 m.username in
      let p = if is_empty m.password then [] else wire.write_string 2 m.password in
      let f = length-left (2 ^ 32) u (p ++ []) fits in
      let g = length-right (2 ^ 32) u (p ++ []) fits in
      let sum = length-append u (p ++ []) in
      let sum_rest = length-append p [] in
      let a = string_size-length 1 m.username (omega arith) f in
      let b = string_size-length 2 m.password (omega arith) (length-left (2 ^ 32) p [] g) in
      omega (arith, f, g, sum, sum_rest, a, b)

  enum_part :
      (p : Priority)
      → (if is_low p then 0 else wire.enum_size 2 (value p))
        ≡ length (if is_low p then [] else wire.write_enum 2 (value p))
  enum_part low = refl
  enum_part high = wire.enum_size-write_enum 2 (value high) (omega arith)

  pub enqueue_request_size-length :
      (m : EnqueueRequest)
      → length (enqueue_request_write wire m) < 2 ^ 32
      → enqueue_request_size wire m ≡ length (enqueue_request_write wire m)
  unfolding enqueue_request_size enqueue_request_write
  enqueue_request_size-length m fits =
      let x = if is_empty_bytes m.message then [] else wire.write_bytes 1 m.message in
      let p = if is_low m.priority then [] else wire.write_enum 2 (value m.priority) in
      let s = write_strings wire 3 m.required_capabilities in
      let f = length-left (2 ^ 32) x (p ++ (s ++ [])) fits in
      let g = length-right (2 ^ 32) x (p ++ (s ++ [])) fits in
      let sum = length-append x (p ++ (s ++ [])) in
      let sum_p = length-append p (s ++ []) in
      let sum_s = length-append s [] in
      let a = bytes_size-length 1 m.message (omega arith) f in
      let b = enum_part m.priority in
      let c =
        strings_size-length 3 m.required_capabilities (omega arith)
          (length-left (2 ^ 32) s [] (length-right (2 ^ 32) p (s ++ []) g)) in
      omega (arith, f, g, sum, sum_p, sum_s, a, b, c)

  pub pop_request_size-length :
      (m : PopRequest)
      → length (pop_request_write wire m) < 2 ^ 32
      → pop_request_size wire m ≡ length (pop_request_write wire m)
  unfolding pop_request_size pop_request_write
  pop_request_size-length m fits =
      let s = write_strings wire 1 m.available_capabilities in
      let w = if m.wait_for_message then wire.write_bool 2 m.wait_for_message else [] in
      let f = length-left (2 ^ 32) s (w ++ []) fits in
      let g = length-right (2 ^ 32) s (w ++ []) fits in
      let sum = length-append s (w ++ []) in
      let sum_w = length-append w [] in
      let a = strings_size-length 1 m.available_capabilities (omega arith) f in
      let b = bool_size-length 2 m.wait_for_message (omega arith) in
      omega (arith, f, g, sum, sum_w, a, b)

  pub acknowledge_request_size-length :
      (m : AcknowledgeRequest)
      → length (acknowledge_request_write wire m) < 2 ^ 32
      → acknowledge_request_size wire m ≡ length (acknowledge_request_write wire m)
  unfolding acknowledge_request_size acknowledge_request_write
  acknowledge_request_size-length m fits =
      let w = if is_empty m.id then [] else wire.write_string 1 m.id in
      let f = length-left (2 ^ 32) w [] fits in
      let g = length-right (2 ^ 32) w [] fits in
      let sum = length-append w [] in
      let a = string_size-length 1 m.id (omega arith) (omega (arith, sum)) in omega (arith, sum, a)

  pub nested_size-length :
      (n size : ℕ) (bytes : List B)
      → n < 16
      → length (write_nested wire n size bytes) < 2 ^ 32
      → (length bytes < 2 ^ 32 → size ≡ length bytes)
      → nested_size wire size ≡ length (write_nested wire n size bytes)
  nested_size-length n size bytes short fits sized =
      let tag = wire.write_tag n length_delimited in
      let len = wire.write_raw_varint32 size in
      let fit = length-right (2 ^ 32) len bytes (length-right (2 ^ 32) tag (len ++ bytes) fits) in
      let same = sized fit in
      let prefix = wire.raw_varint32_size-write size (omega (arith, same, fit)) in
      omega (
        arith,
        same,
        prefix,
        wire.length-write_tag n length_delimited short,
        length-append tag (len ++ bytes),
        length-append len bytes,
      )

  request_size-length :
      (o : Option RequestMessage)
      → length (request_write wire o) < 2 ^ 32
      → request_size wire o ≡ length (request_write wire o)
  unfolding request_size request_write
  request_size-length none fits = refl
  request_size-length (some (RequestMessage.enqueue v)) fits =
      nested_size-length 1 (enqueue_request_size wire v) (enqueue_request_write wire v)
        (omega arith) fits (enqueue_request_size-length v)
  request_size-length (some (RequestMessage.pop v)) fits =
      nested_size-length 2 (pop_request_size wire v) (pop_request_write wire v) (omega arith) fits
        (pop_request_size-length v)
  request_size-length (some (RequestMessage.acknowledge v)) fits =
      nested_size-length 3 (acknowledge_request_size wire v) (acknowledge_request_write wire v)
        (omega arith) fits (acknowledge_request_size-length v)
  request_size-length (some (RequestMessage.authenticate v)) fits =
      nested_size-length 6 (authenticate_request_size wire v) (authenticate_request_write wire v)
        (omega arith) fits (authenticate_request_size-length v)

  pub ref_id_size-length :
      (i : ℤ)
      → (if is_zero i then 0 else wire.value_size 10 i varint)
        ≡ length (if is_zero i then [] else wire.write_int32 10 i)
  ref_id_size-length (pos zero) = refl
  ref_id_size-length (pos (suc n)) = wire.value_size-write_int32 10 (pos (suc n)) (omega arith)
  ref_id_size-length (negsuc n) = wire.value_size-write_int32 10 (negsuc n) (omega arith)

  -- `compute_size` of a request of less than 2^32 bytes is the number of bytes that are written.
  pub request_wrapper_size-length :
      (m : RequestWrapper)
      → length (request_wrapper_write wire m) < 2 ^ 32
      → request_wrapper_size wire m ≡ length (request_wrapper_write wire m)
  unfolding request_wrapper_size request_wrapper_write
  request_wrapper_size-length m fits =
      let i = if is_zero m.ref_id then [] else wire.write_int32 10 m.ref_id in
      let w = request_write wire m.message in
      let f = length-left (2 ^ 32) i (w ++ []) fits in
      let g = length-right (2 ^ 32) i (w ++ []) fits in
      let a = ref_id_size-length m.ref_id in
      let b = request_size-length m.message (length-left (2 ^ 32) w [] g) in
      omega (arith, fits, a, b, f, g, length-append i (w ++ []), length-append w [])
