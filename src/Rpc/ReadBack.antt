-- ===== src/Rpc/ReadBack.antt =====
-- Requests of src/rpc/queue.rs that are written and read back.
use brqueue.Base.{
  ◌<◌, ◌^◌, ◌≡◌, refl, ap, true, some, [], ◌++◌, if◌then◌else◌, length, arith, length-left,
  length-right, nat_eq, ℕ_discrete,
}
use brqueue.Rpc.Runtime.{Wire, varint}
use brqueue.Rpc.Merge.{Shrinks, IsField, Merges, Merges-nil, Merges-optional, into}
use brqueue.Rpc.Messages.{
  Priority, low, high, AuthenticateRequest, EnqueueRequest, PopRequest, AcknowledgeRequest,
  default_authenticate_request, default_enqueue_request, default_pop_request,
  default_acknowledge_request,
}
use brqueue.Rpc.Requests.{
  is_empty, is_empty_bytes, is_low, value, from_i32, write_strings, authenticate_request_step,
  authenticate_request_write, enqueue_request_step, enqueue_request_write, pop_request_step,
  pop_request_write, acknowledge_request_step, acknowledge_request_write,
}
use brqueue.Rpc.Fields.{
  string-shrinks, bytes-shrinks, strings-shrinks, enum-shrinks, bool-shrinks, skipped-shrinks,
  Merges-string, Merges-bytes, Merges-bool, Merges-strings,
}

module _ {B : Type 0} (wire : Wire B) where
  pub authenticate_request_step-Shrinks : Shrinks (authenticate_request_step wire)
  unfolding authenticate_request_step Shrinks
  authenticate_request_step-Shrinks m n t bytes changed rest h =
      grind (arith, string-shrinks, skipped-shrinks)

  pub authenticate_request-Merges :
      (m : AuthenticateRequest)
      → length (authenticate_request_write wire m) < 2 ^ 32
      → Merges wire
          (authenticate_request_step wire)
          default_authenticate_request
          (authenticate_request_write wire m)
          m
  unfolding authenticate_request_step authenticate_request_write nat_eq ℕ_discrete
  authenticate_request-Merges m fits =
      let u = if is_empty m.username then [] else wire.write_string 1 m.username in
      let p = if is_empty m.password then [] else wire.write_string 2 m.password in
      let step = authenticate_request_step wire in
      let shrinks = authenticate_request_step-Shrinks in
      let named = record default_authenticate_request { username = m.username } in
      let f = length-left (2 ^ 32) u (p ++ []) fits in
      let g = length-right (2 ^ 32) u (p ++ []) fits in
      Merges-string wire step shrinks default_authenticate_request 1 (omega arith)
        (λ v. record default_authenticate_request { username = v }) m.username (p ++ []) m
        (λ bytes. refl) refl f
        (Merges-string wire step shrinks named 2 (omega arith) (λ v. record named { password = v })
          m.password [] m (λ bytes. refl) refl (length-left (2 ^ 32) p [] g)
          (Merges-nil wire step shrinks m))

  pub acknowledge_request_step-Shrinks : Shrinks (acknowledge_request_step wire)
  unfolding acknowledge_request_step Shrinks
  acknowledge_request_step-Shrinks m n t bytes changed rest h =
      grind (arith, string-shrinks, skipped-shrinks)

  pub acknowledge_request-Merges :
      (m : AcknowledgeRequest)
      → length (acknowledge_request_write wire m) < 2 ^ 32
      → Merges wire
          (acknowledge_request_step wire)
          default_acknowledge_request
          (acknowledge_request_write wire m)
          m
  unfolding acknowledge_request_step acknowledge_request_write nat_eq ℕ_discrete
  acknowledge_request-Merges m fits =
      let w = if is_empty m.id then [] else wire.write_string 1 m.id in
      let step = acknowledge_request_step wire in
      let shrinks = acknowledge_request_step-Shrinks in
      let f = length-left (2 ^ 32) w [] fits in
      let g = length-right (2 ^ 32) w [] fits in
      Merges-string wire step shrinks default_acknowledge_request 1 (omega arith)
        (λ v. record { id = v }) m.id [] m (λ bytes. refl) refl f (Merges-nil wire step shrinks m)

  pub pop_request_step-Shrinks : Shrinks (pop_request_step wire)
  unfolding pop_request_step Shrinks
  pop_request_step-Shrinks m n t bytes changed rest h =
      grind (arith, strings-shrinks, bool-shrinks, skipped-shrinks)

  pub pop_request-Merges :
      (m : PopRequest)
      → length (pop_request_write wire m) < 2 ^ 32
      → Merges wire (pop_request_step wire) default_pop_request (pop_request_write wire m) m
  unfolding pop_request_step pop_request_write nat_eq ℕ_discrete
  pop_request-Merges m fits =
      let s = write_strings wire 1 m.available_capabilities in
      let w = if m.wait_for_message then wire.write_bool 2 m.wait_for_message else [] in
      let step = pop_request_step wire in
      let shrinks = pop_request_step-Shrinks in
      let able = record default_pop_request { available_capabilities = m.available_capabilities } in
      let f = length-left (2 ^ 32) s (w ++ []) fits in
      let g = length-right (2 ^ 32) s (w ++ []) fits in
      Merges-strings wire step shrinks 1
        (λ v. record default_pop_request { available_capabilities = v }) [] m.available_capabilities
        (w ++ []) m (omega arith) (λ seen bytes. refl) f
        (Merges-bool wire step shrinks able 2 (omega arith)
          (λ v. record able { wait_for_message = v }) m.wait_for_message [] m (λ bytes. refl) refl
          (Merges-nil wire step shrinks m))

  pub enqueue_request_step-Shrinks : Shrinks (enqueue_request_step wire)
  unfolding enqueue_request_step Shrinks
  enqueue_request_step-Shrinks m n t bytes changed rest h =
      grind (arith, bytes-shrinks, enum-shrinks, strings-shrinks, skipped-shrinks)

  from_i32-value : (p : Priority) → from_i32 (value p) ≡ some p
  from_i32-value low = refl
  from_i32-value high = refl

  priority-IsField :
      (m : EnqueueRequest) (p : Priority)
      → IsField wire
          (enqueue_request_step wire)
          m
          (wire.write_enum 2 (value p))
          (record m { priority = p })
  unfolding enqueue_request_step IsField nat_eq ℕ_discrete
  priority-IsField m p rest =
      let (bytes, tag, read) =
        wire.read_enum-write_enum from_i32 2 (value p) m.priority p rest (omega arith)
          (from_i32-value p) in
      (2, varint, bytes, tag, ap (into wire (λ v. record m { priority = v })) read)

  low_default :
      (m : EnqueueRequest) (p : Priority)
      → m.priority ≡ low
      → is_low p ≡ true
      → m ≡ record m { priority = p }
  low_default m low h k = ap (λ v. record m { priority = v }) h
  low_default m high h k = cc k

  pub enqueue_request-Merges :
      (m : EnqueueRequest)
      → length (enqueue_request_write wire m) < 2 ^ 32
      → Merges wire
          (enqueue_request_step wire)
          default_enqueue_request
          (enqueue_request_write wire m)
          m
  unfolding enqueue_request_step enqueue_request_write nat_eq ℕ_discrete
  enqueue_request-Merges m fits =
      let x = if is_empty_bytes m.message then [] else wire.write_bytes 1 m.message in
      let p = if is_low m.priority then [] else wire.write_enum 2 (value m.priority) in
      let s = write_strings wire 3 m.required_capabilities in
      let step = enqueue_request_step wire in
      let shrinks = enqueue_request_step-Shrinks in
      let sent = record default_enqueue_request { message = m.message } in
      let ranked = record sent { priority = m.priority } in
      let f = length-left (2 ^ 32) x (p ++ (s ++ [])) fits in
      let g = length-right (2 ^ 32) x (p ++ (s ++ [])) fits in
      Merges-bytes wire step shrinks default_enqueue_request 1 (omega arith)
        (λ v. record default_enqueue_request { message = v }) m.message (p ++ (s ++ [])) m
        (λ bytes. refl) refl f
        (Merges-optional wire step shrinks (is_low m.priority) sent ranked m
          (wire.write_enum 2 (value m.priority)) (s ++ []) (λ h. low_default sent m.priority refl h)
          (λ h. priority-IsField sent m.priority)
          (Merges-strings wire step shrinks 3 (λ v. record ranked { required_capabilities = v }) []
            m.required_capabilities [] m (omega arith) (λ seen bytes. refl)
            (length-left (2 ^ 32) s [] (length-right (2 ^ 32) p (s ++ []) g))
            (Merges-nil wire step shrinks m)))
