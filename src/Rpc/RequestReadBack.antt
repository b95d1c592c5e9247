-- ===== src/Rpc/RequestReadBack.antt =====
-- Requests of src/rpc/queue.rs as a whole: what is written is read back, and has the size that was
-- computed.
use brqueue.Base.{
  ℕ, zero, suc, ◌<◌, ◌≤◌, ◌^◌, ◌≡◌, refl, ap, ◌∙◌, true, Option, none, some, List, [], ◌++◌, ok,
  if◌then◌else◌, length, arith, length-left, length-right, append_assoc, nat_eq, ℕ_discrete,
}
use brqueue.Base.Int.{ℤ, pos, negsuc}
use brqueue.Rpc.Runtime.{
  Wire, WireType, varint, fixed64, length_delimited, start_group, end_group, fixed32, Read,
}
use brqueue.Rpc.Merge.{
  Step, Shrinks, IsField, Merges, Merges-nil, Merges-field, Merges-optional, merge_from, into,
  into-ok,
}
use brqueue.Rpc.Messages.{
  default_authenticate_request, default_enqueue_request, default_pop_request,
  default_acknowledge_request,
}
use brqueue.Rpc.RequestWrapper.{RequestWrapper, RequestMessage}
use brqueue.Rpc.Requests.{
  if_varint, authenticate_request_step, authenticate_request_write, enqueue_request_step,
  authenticate_request_size, enqueue_request_size, pop_request_size, acknowledge_request_size,
  enqueue_request_write, pop_request_step, pop_request_write, acknowledge_request_step,
  acknowledge_request_write,
}
use brqueue.Rpc.RequestCodec.{
  is_zero, default_request_wrapper, if_length_delimited, nested, request, request_wrapper_step,
  write_nested, request_write, request_wrapper_write, read_request,
}
use brqueue.Rpc.Fields.{if_varint-ok, skipped-shrinks}
use brqueue.Rpc.Sizes.{
  authenticate_request_size-length, enqueue_request_size-length, pop_request_size-length,
  acknowledge_request_size-length,
}
use brqueue.Rpc.ReadBack.{
  authenticate_request-Merges, enqueue_request-Merges, pop_request-Merges,
  acknowledge_request-Merges,
}

pub zero_default : (i : ℤ) → is_zero i ≡ true → pos 0 ≡ i
zero_default (pos zero) h = refl
zero_default (pos (suc n)) h = cc h
zero_default (negsuc n) h = cc h

module _ {B : Type 0} (wire : Wire B) where
  if_length_delimited-ok :
      {A : Type 0} (t : WireType) (r : Read B A) (v : A) (rest : List B)
      → if_length_delimited wire t r ≡ ok (v, rest)
      → r ≡ ok (v, rest)
  if_length_delimited-ok length_delimited r v rest h = h
  if_length_delimited-ok varint r v rest h = cc h
  if_length_delimited-ok fixed64 r v rest h = cc h
  if_length_delimited-ok start_group r v rest h = cc h
  if_length_delimited-ok end_group r v rest h = cc h
  if_length_delimited-ok fixed32 r v rest h = cc h

  pub nested-shrinks :
      {M N : Type 0} (f : N → M) (step : Step B N) (new : N) (t : WireType) (bytes : List B)
      (changed : M) (rest : List B)
      → into wire f (nested wire step new t bytes) ≡ ok (changed, rest)
      → length rest ≤ length bytes
  nested-shrinks f step new t bytes changed rest h =
      let read = wire.read_message (merge_from wire step new) bytes in
      let (v, q) = into-ok wire f (if_length_delimited wire t read) changed rest h in
      wire.length-read_message (merge_from wire step new) bytes rest v
        (if_length_delimited-ok t read v rest q)

  pub int32-shrinks :
      {M : Type 0} (f : ℤ → M) (t : WireType) (bytes : List B) (changed : M) (rest : List B)
      → into wire f (if_varint wire t (wire.read_int32 bytes)) ≡ ok (changed, rest)
      → length rest ≤ length bytes
  int32-shrinks f t bytes changed rest h =
      let (v, q) = into-ok wire f (if_varint wire t (wire.read_int32 bytes)) changed rest h in
      wire.length-read_int32 bytes rest v (if_varint-ok wire t (wire.read_int32 bytes) v rest q)

  pub request_wrapper_step-Shrinks : Shrinks (request_wrapper_step wire)
  unfolding request_wrapper_step Shrinks
  request_wrapper_step-Shrinks m n t bytes changed rest h =
      grind (arith, int32-shrinks, nested-shrinks, skipped-shrinks)

  -- A nested message that is written with its size is a field.
  pub nested-IsField :
      {M N : Type 0} (step : Step B M) (m : M) (f : N → M) (n size : ℕ) (inner : Step B N)
      (new v : N) (bytes : List B)
      → n < 16
      → ((more : List B)
          → step m n length_delimited more
            ≡ into wire f (nested wire inner new length_delimited more))
      → length (write_nested wire n size bytes) < 2 ^ 32
      → (length bytes < 2 ^ 32 → size ≡ length bytes)
      → (length bytes < 2 ^ 32 → Merges wire inner new bytes v)
      → IsField wire step m (write_nested wire n size bytes) (f v)
  unfolding IsField Merges merge_from
  nested-IsField step m f n size inner new v bytes short reads fits sized merges rest =
      let tag = wire.write_tag n length_delimited in
      let len = wire.write_raw_varint32 size in
      let fit = length-right (2 ^ 32) len bytes (length-right (2 ^ 32) tag (len ++ bytes) fits) in
      let body =
        wire.read_message-write (merge_from wire inner new) bytes rest v fit
          (merges fit (length bytes) (omega arith)) in
      let whole : wire.read_message (merge_from wire inner new) (len ++ (bytes ++ rest))
          ≡ ok (v, rest) =
        rw (sized fit) body in
      (
        n,
        length_delimited,
        len ++ (bytes ++ rest),
        ap wire.read_tag_unpack (
              append_assoc tag (len ++ bytes) rest
              ∙ ap (λ z. tag ++ z) (append_assoc len bytes rest))
            ∙ wire.read_tag-write_tag n length_delimited (len ++ (bytes ++ rest)) short,
        reads (len ++ (bytes ++ rest)) ∙ ap (into wire f) whole,
      )

  one_request :
      {N : Type 0} (m : RequestWrapper) (f : N → RequestMessage) (n size : ℕ) (inner : Step B N)
      (new v : N) (bytes : List B)
      → n < 16
      → ((more : List B)
          → request_wrapper_step wire m n length_delimited more
            ≡ into wire (λ z. request wire m (f z)) (nested wire inner new length_delimited more))
      → length (write_nested wire n size bytes) < 2 ^ 32
      → (length bytes < 2 ^ 32 → size ≡ length bytes)
      → (length bytes < 2 ^ 32 → Merges wire inner new bytes v)
      → Merges wire
          (request_wrapper_step wire)
          m
          (write_nested wire n size bytes ++ [])
          (request wire m (f v))
  one_request m f n size inner new v bytes short reads fits sized merges =
      let step = request_wrapper_step wire in
      Merges-field wire step request_wrapper_step-Shrinks m (request wire m (f v))
        (request wire m (f v)) (write_nested wire n size bytes) []
        (nested-IsField step m (λ z. request wire m (f z)) n size inner new v bytes short reads fits
          sized merges)
        (Merges-nil wire step request_wrapper_step-Shrinks (request wire m (f v)))

  -- What the stream holds after the number of the call.
  request_write-Merges :
      (ref_id : ℤ) (o : Option RequestMessage)
      → length (request_write wire o) < 2 ^ 32
      → Merges wire
          (request_wrapper_step wire)
          (record default_request_wrapper { ref_id = ref_id })
          (request_write wire o ++ [])
          (record { ref_id = ref_id; message = o })
  unfolding request_wrapper_step request_write nat_eq ℕ_discrete
  request_write-Merges ref_id none fits =
      Merges-nil wire (request_wrapper_step wire) request_wrapper_step-Shrinks
        (record { ref_id = ref_id; message = none })
  request_write-Merges ref_id (some (RequestMessage.enqueue v)) fits =
      one_request (record { ref_id = ref_id; message = none }) RequestMessage.enqueue 1
        (enqueue_request_size wire v) (enqueue_request_step wire) default_enqueue_request v
        (enqueue_request_write wire v) (omega arith) (λ more. refl) fits
        (enqueue_request_size-length wire v) (enqueue_request-Merges wire v)
  request_write-Merges ref_id (some (RequestMessage.pop v)) fits =
      one_request (record { ref_id = ref_id; message = none }) RequestMessage.pop 2
        (pop_request_size wire v) (pop_request_step wire) default_pop_request v
        (pop_request_write wire v) (omega arith) (λ more. refl) fits
        (pop_request_size-length wire v) (pop_request-Merges wire v)
  request_write-Merges ref_id (some (RequestMessage.acknowledge v)) fits =
      one_request (record { ref_id = ref_id; message = none }) RequestMessage.acknowledge 3
        (acknowledge_request_size wire v) (acknowledge_request_step wire)
        default_acknowledge_request v (acknowledge_request_write wire v) (omega arith)
        (λ more. refl) fits (acknowledge_request_size-length wire v)
        (acknowledge_request-Merges wire v)
  request_write-Merges ref_id (some (RequestMessage.authenticate v)) fits =
      one_request (record { ref_id = ref_id; message = none }) RequestMessage.authenticate 6
        (authenticate_request_size wire v) (authenticate_request_step wire)
        default_authenticate_request v (authenticate_request_write wire v) (omega arith)
        (λ more. refl) fits (authenticate_request_size-length wire v)
        (authenticate_request-Merges wire v)

  ref_id-IsField :
      (i : ℤ)
      → IsField wire
          (request_wrapper_step wire)
          default_request_wrapper
          (wire.write_int32 10 i)
          (record default_request_wrapper { ref_id = i })
  unfolding request_wrapper_step IsField nat_eq ℕ_discrete
  ref_id-IsField i rest =
      let (bytes, tag, read) = wire.read_int32-write_int32 10 i rest (omega arith) in
      (
        10,
        varint,
        bytes,
        tag,
        ap (into wire (λ v. record default_request_wrapper { ref_id = v })) read,
      )

  -- A request of less than 2^32 bytes is read back as it was written.
  pub read_request-write :
      (m : RequestWrapper)
      → length (request_wrapper_write wire m) < 2 ^ 32
      → read_request wire (request_wrapper_write wire m) ≡ ok m
  unfolding read_request request_wrapper_write Merges merge_from
  read_request-write m fits =
      let i = if is_zero m.ref_id then [] else wire.write_int32 10 m.ref_id in
      let w = request_write wire m.message in
      let fit = length-left (2 ^ 32) w [] (length-right (2 ^ 32) i (w ++ []) fits) in
      Merges-optional wire (request_wrapper_step wire) request_wrapper_step-Shrinks
        (is_zero m.ref_id) default_request_wrapper
        (record default_request_wrapper { ref_id = m.ref_id }) m (wire.write_int32 10 m.ref_id)
        (w ++ [])
        (λ h. ap (λ v. record default_request_wrapper { ref_id = v }) (zero_default m.ref_id h))
        (λ h. ref_id-IsField m.ref_id) (request_write-Merges m.ref_id m.message fit)
        (length (request_wrapper_write wire m)) (omega arith)
