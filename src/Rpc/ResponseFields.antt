-- ===== src/Rpc/ResponseFields.antt =====
-- Responses of src/rpc/queue.rs that are written and read back, and their sizes.
use brqueue.Base.{
  ◌<◌, ◌^◌, ◌≡◌, refl, Bool, true, false, [], ◌++◌, if◌then◌else◌, length, arith, length-append,
  length-left, length-right, nat_eq, ℕ_discrete,
}
use brqueue.Rpc.Runtime.{Wire}
use brqueue.Rpc.Merge.{Shrinks, Merges, Merges-nil}
use brqueue.Rpc.Messages.{
  AuthenticateResponse, EnqueueResponse, PopResponse, AcknowledgeResponse, ErrorResponse,
  default_pop_response,
}
use brqueue.Rpc.Requests.{is_empty, is_empty_bytes}
use brqueue.Rpc.Responses.{
  authenticate_response_step, authenticate_response_size, authenticate_response_write,
  enqueue_response_step, enqueue_response_size, enqueue_response_write, pop_response_step,
  pop_response_size, pop_response_write, acknowledge_response_step, acknowledge_response_write,
  error_response_step, error_response_size, error_response_write,
}
use brqueue.Rpc.Sizes.{string_size-length, bytes_size-length, bool_size-length}
use brqueue.Rpc.Fields.{
  string-shrinks, bytes-shrinks, bool-shrinks, skipped-shrinks, Merges-string, Merges-bytes,
  Merges-bool,
}

module _ {B : Type 0} (wire : Wire B) where
  authenticate_response_step-Shrinks : Shrinks (authenticate_response_step wire)
  unfolding authenticate_response_step Shrinks
  authenticate_response_step-Shrinks m n t bytes changed rest h =
      grind (arith, bool-shrinks, skipped-shrinks)

  enqueue_response_step-Shrinks : Shrinks (enqueue_response_step wire)
  unfolding enqueue_response_step Shrinks
  enqueue_response_step-Shrinks m n t bytes changed rest h =
      grind (arith, string-shrinks, skipped-shrinks)

  pop_response_step-Shrinks : Shrinks (pop_response_step wire)
  unfolding pop_response_step Shrinks
  pop_response_step-Shrinks m n t bytes changed rest h =
      grind (arith, bool-shrinks, bytes-shrinks, string-shrinks, skipped-shrinks)

  acknowledge_response_step-Shrinks : Shrinks (acknowledge_response_step wire)
  unfolding acknowledge_response_step Shrinks
  acknowledge_response_step-Shrinks m n t bytes changed rest h = grind (arith, skipped-shrinks)

  error_response_step-Shrinks : Shrinks (error_response_step wire)
  unfolding error_response_step Shrinks
  error_response_step-Shrinks m n t bytes changed rest h =
      grind (arith, string-shrinks, skipped-shrinks)

  pub authenticate_response-Merges :
      (m : AuthenticateResponse)
      → Merges wire
          (authenticate_response_step wire)
          (record { success = false })
          (authenticate_response_write wire m)
          m
  unfolding authenticate_response_step authenticate_response_write nat_eq ℕ_discrete
  authenticate_response-Merges m =
      let step = authenticate_response_step wire in
      let shrinks = authenticate_response_step-Shrinks in
      Merges-bool wire step shrinks (record { success = false }) 1 (omega arith)
        (λ v. record { success = v }) m.success [] m (λ bytes. refl) refl
        (Merges-nil wire step shrinks m)

  bool_size : (b : Bool) → (if b then 2 else 0) < 2 ^ 32
  bool_size true = omega arith
  bool_size false = omega arith

  pub authenticate_response_size-length :
      (m : AuthenticateResponse)
      → authenticate_response_size wire m ≡ length (authenticate_response_write wire m)
  unfolding authenticate_response_size authenticate_response_write
  authenticate_response_size-length m =
      let w = if m.success then wire.write_bool 1 m.success else [] in
      let a = bool_size-length wire 1 m.success (omega arith) in
      let small = bool_size m.success in omega (arith, a, small, length-append w [])

  pub enqueue_response-Merges :
      (m : EnqueueResponse)
      → length (enqueue_response_write wire m) < 2 ^ 32
      → Merges wire
          (enqueue_response_step wire)
          (record { id = "" })
          (enqueue_response_write wire m)
          m
  unfolding enqueue_response_step enqueue_response_write nat_eq ℕ_discrete
  enqueue_response-Merges m fits =
      let w = if is_empty m.id then [] else wire.write_string 1 m.id in
      let step = enqueue_response_step wire in
      let shrinks = enqueue_response_step-Shrinks in
      Merges-string wire step shrinks (record { id = "" }) 1 (omega arith) (λ v. record { id = v })
        m.id [] m (λ bytes. refl) refl (length-left (2 ^ 32) w [] fits)
        (Merges-nil wire step shrinks m)

  pub enqueue_response_size-length :
      (m : EnqueueResponse)
      → length (enqueue_response_write wire m) < 2 ^ 32
      → enqueue_response_size wire m ≡ length (enqueue_response_write wire m)
  unfolding enqueue_response_size enqueue_response_write
  enqueue_response_size-length m fits =
      let w = if is_empty m.id then [] else wire.write_string 1 m.id in
      let f = length-left (2 ^ 32) w [] fits in
      let a = string_size-length wire 1 m.id (omega arith) f in
      omega (arith, f, a, length-append w [])

  pub error_response-Merges :
      (m : ErrorResponse)
      → length (error_response_write wire m) < 2 ^ 32
      → Merges wire
          (error_response_step wire)
          (record { message = "" })
          (error_response_write wire m)
          m
  unfolding error_response_step error_response_write nat_eq ℕ_discrete
  error_response-Merges m fits =
      let w = if is_empty m.message then [] else wire.write_string 1 m.message in
      let step = error_response_step wire in
      let shrinks = error_response_step-Shrinks in
      Merges-string wire step shrinks (record { message = "" }) 1 (omega arith)
        (λ v. record { message = v }) m.message [] m (λ bytes. refl) refl
        (length-left (2 ^ 32) w [] fits) (Merges-nil wire step shrinks m)

  pub error_response_size-length :
      (m : ErrorResponse)
      → length (error_response_write wire m) < 2 ^ 32
      → error_response_size wire m ≡ length (error_response_write wire m)
  unfolding error_response_size error_response_write
  error_response_size-length m fits =
      let w = if is_empty m.message then [] else wire.write_string 1 m.message in
      let f = length-left (2 ^ 32) w [] fits in
      let a = string_size-length wire 1 m.message (omega arith) f in
      omega (arith, f, a, length-append w [])

  pub acknowledge_response-Merges :
      (m : AcknowledgeResponse)
      → Merges wire
          (acknowledge_response_step wire)
          (record {})
          (acknowledge_response_write wire m)
          m
  unfolding acknowledge_response_write
  acknowledge_response-Merges m =
      Merges-nil wire (acknowledge_response_step wire) acknowledge_response_step-Shrinks m

  pub pop_response-Merges :
      (m : PopResponse)
      → length (pop_response_write wire m) < 2 ^ 32
      → Merges wire (pop_response_step wire) default_pop_response (pop_response_write wire m) m
  unfolding pop_response_step pop_response_write nat_eq ℕ_discrete
  pop_response-Merges m fits =
      let b = if m.had_result then wire.write_bool 3 m.had_result else [] in
      let x = if is_empty_bytes m.message then [] else wire.write_bytes 1 m.message in
      let w = if is_empty m.id then [] else wire.write_string 2 m.id in
      let step = pop_response_step wire in
      let shrinks = pop_response_step-Shrinks in
      let found = record default_pop_response { had_result = m.had_result } in
      let filled = record found { message = m.message } in
      let g = length-right (2 ^ 32) b (x ++ (w ++ [])) fits in
      Merges-bool wire step shrinks default_pop_response 3 (omega arith)
        (λ v. record default_pop_response { had_result = v }) m.had_result (x ++ (w ++ [])) m
        (λ bytes. refl) refl
        (Merges-bytes wire step shrinks found 1 (omega arith) (λ v. record found { message = v })
          m.message (w ++ []) m (λ bytes. refl) refl (length-left (2 ^ 32) x (w ++ []) g)
          (Merges-string wire step shrinks filled 2 (omega arith) (λ v. record filled { id = v })
            m.id [] m (λ bytes. refl) refl
            (length-left (2 ^ 32) w [] (length-right (2 ^ 32) x (w ++ []) g))
            (Merges-nil wire step shrinks m)))

  pub pop_response_size-length :
      (m : PopResponse)
      → length (pop_response_write wire m) < 2 ^ 32
      → pop_response_size wire m ≡ length (pop_response_write wire m)
  unfolding pop_response_size pop_response_write
  pop_response_size-length m fits =
      let b = if m.had_result then wire.write_bool 3 m.had_result else [] in
      let x = if is_empty_bytes m.message then [] else wire.write_bytes 1 m.message in
      let w = if is_empty m.id then [] else wire.write_string 2 m.id in
      let g = length-right (2 ^ 32) b (x ++ (w ++ [])) fits in
      let p = bool_size-length wire 3 m.had_result (omega arith) in
      let q =
        bytes_size-length wire 1 m.message (omega arith) (length-left (2 ^ 32) x (w ++ []) g) in
      let r =
        string_size-length wire 2 m.id (omega arith)
          (length-left (2 ^ 32) w [] (length-right (2 ^ 32) x (w ++ []) g)) in
      omega (
        arith,
        fits,
        p,
        q,
        r,
        length-append b (x ++ (w ++ [])),
        length-append x (w ++ []),
        length-append w [],
      )
