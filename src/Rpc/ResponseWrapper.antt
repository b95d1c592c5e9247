-- ===== src/Rpc/ResponseWrapper.antt =====
-- `ResponseWrapper` of src/rpc/queue.rs: one of the responses, with the number of the call.
use brqueue.Base.{Bool, true, false, Option, none, some, if◌then◌else◌}
use brqueue.Base.Int.{ℤ, pos}
use brqueue.Rpc.Accessors.AuthenticateResponse
use brqueue.Rpc.Accessors.EnqueueResponse
use brqueue.Rpc.Accessors.PopResponse
use brqueue.Rpc.Accessors.AcknowledgeResponse
use brqueue.Rpc.Accessors.ErrorResponse
use brqueue.Rpc.Messages.{
  AuthenticateResponse, EnqueueResponse, PopResponse, AcknowledgeResponse, ErrorResponse,
}

pub data ResponseMessage : Type 0 where
  enqueue : EnqueueResponse → ResponseMessage
  pop : PopResponse → ResponseMessage
  acknowledge : AcknowledgeResponse → ResponseMessage
  error : ErrorResponse → ResponseMessage
  authenticate : AuthenticateResponse → ResponseMessage

pub record ResponseWrapper : Type 0 where
  pub ref_id : ℤ
  pub message : Option ResponseMessage

abbrev pub new : ResponseWrapper
new = record { ref_id = pos 0; message = none }

abbrev pub set_ref_id : ResponseWrapper → ℤ → ResponseWrapper
set_ref_id w v = record w { ref_id = v }

abbrev pub set_enqueue : ResponseWrapper → EnqueueResponse → ResponseWrapper
set_enqueue w v = record w { message = some (enqueue v) }

abbrev pub set_pop : ResponseWrapper → PopResponse → ResponseWrapper
set_pop w v = record w { message = some (pop v) }

abbrev pub set_acknowledge : ResponseWrapper → AcknowledgeResponse → ResponseWrapper
set_acknowledge w v = record w { message = some (acknowledge v) }

abbrev pub set_error : ResponseWrapper → ErrorResponse → ResponseWrapper
set_error w v = record w { message = some (error v) }

abbrev pub set_authenticate : ResponseWrapper → AuthenticateResponse → ResponseWrapper
set_authenticate w v = record w { message = some (authenticate v) }

abbrev pub clear_ref_id : ResponseWrapper → ResponseWrapper
clear_ref_id w = record w { ref_id = pos 0 }

abbrev pub get_ref_id : ResponseWrapper → ℤ
get_ref_id w = w.ref_id

abbrev pub clear_enqueue : ResponseWrapper → ResponseWrapper
clear_enqueue w = record w { message = none }

abbrev pub has_enqueue : ResponseWrapper → Bool
has_enqueue w = elim w.message [ some (enqueue v) ↦ true | _ ↦ false ]

-- `none` is a panic, here and below.
abbrev pub mut_enqueue :
    ResponseWrapper → (EnqueueResponse → EnqueueResponse) → Option ResponseWrapper
mut_enqueue w change =
    let ready : ResponseWrapper = elim w.message [
      | some (enqueue v) ↦ w
      | _ ↦ record w { message = some (enqueue EnqueueResponse.new) }
    ] in
    elim ready.message [
      | some (enqueue v) ↦ some (record ready { message = some (enqueue (change v)) })
      | _ ↦ none
    ]

abbrev pub take_enqueue : ResponseWrapper → Option (EnqueueResponse × ResponseWrapper)
take_enqueue w =
    if has_enqueue w
    then (elim w.message [ some (enqueue v) ↦ some (v, record w { message = none }) | _ ↦ none ])
    else some (EnqueueResponse.new, w)

abbrev pub get_enqueue : ResponseWrapper → EnqueueResponse
get_enqueue w = elim w.message [ some (enqueue v) ↦ v | _ ↦ EnqueueResponse.new ]

abbrev pub clear_pop : ResponseWrapper → ResponseWrapper
clear_pop w = record w { message = none }

abbrev pub has_pop : ResponseWrapper → Bool
has_pop w = elim w.message [ some (pop v) ↦ true | _ ↦ false ]

abbrev pub mut_pop : ResponseWrapper → (PopResponse → PopResponse) → Option ResponseWrapper
mut_pop w change =
    let ready : ResponseWrapper = elim w.message [
      | some (pop v) ↦ w
      | _ ↦ record w { message = some (pop PopResponse.new) }
    ] in
    elim ready.message [
      | some (pop v) ↦ some (record ready { message = some (pop (change v)) })
      | _ ↦ none
    ]

abbrev pub take_pop : ResponseWrapper → Option (PopResponse × ResponseWrapper)
take_pop w =
    if has_pop w
    then (elim w.message [ some (pop v) ↦ some (v, record w { message = none }) | _ ↦ none ])
    else some (PopResponse.new, w)

abbrev pub get_pop : ResponseWrapper → PopResponse
get_pop w = elim w.message [ some (pop v) ↦ v | _ ↦ PopResponse.new ]

abbrev pub clear_acknowledge : ResponseWrapper → ResponseWrapper
clear_acknowledge w = record w { message = none }

abbrev pub has_acknowledge : ResponseWrapper → Bool
has_acknowledge w = elim w.message [ some (acknowledge v) ↦ true | _ ↦ false ]

abbrev pub mut_acknowledge :
    ResponseWrapper → (AcknowledgeResponse → AcknowledgeResponse) → Option ResponseWrapper
mut_acknowledge w change =
    let ready : ResponseWrapper = elim w.message [
      | some (acknowledge v) ↦ w
      | _ ↦ record w { message = some (acknowledge AcknowledgeResponse.new) }
    ] in
    elim ready.message [
      | some (acknowledge v) ↦ some (record ready { message = some (acknowledge (change v)) })
      | _ ↦ none
    ]

abbrev pub take_acknowledge : ResponseWrapper → Option (AcknowledgeResponse × ResponseWrapper)
take_acknowledge w =
    if has_acknowledge w
    then (elim w.message [
      | some (acknowledge v) ↦ some (v, record w { message = none })
      | _ ↦ none
    ])
    else some (AcknowledgeResponse.new, w)

abbrev pub get_acknowledge : ResponseWrapper → AcknowledgeResponse
get_acknowledge w = elim w.message [ some (acknowledge v) ↦ v | _ ↦ AcknowledgeResponse.new ]

abbrev pub clear_error : ResponseWrapper → ResponseWrapper
clear_error w = record w { message = none }

abbrev pub has_error : ResponseWrapper → Bool
has_error w = elim w.message [ some (error v) ↦ true | _ ↦ false ]

abbrev pub mut_error : ResponseWrapper → (ErrorResponse → ErrorResponse) → Option ResponseWrapper
mut_error w change =
    let ready : ResponseWrapper = elim w.message [
      | some (error v) ↦ w
      | _ ↦ record w { message = some (error ErrorResponse.new) }
    ] in
    elim ready.message [
      | some (error v) ↦ some (record ready { message = some (error (change v)) })
      | _ ↦ none
    ]

abbrev pub take_error : ResponseWrapper → Option (ErrorResponse × ResponseWrapper)
take_error w =
    if has_error w
    then (elim w.message [ some (error v) ↦ some (v, record w { message = none }) | _ ↦ none ])
    else some (ErrorResponse.new, w)

abbrev pub get_error : ResponseWrapper → ErrorResponse
get_error w = elim w.message [ some (error v) ↦ v | _ ↦ ErrorResponse.new ]

abbrev pub clear_authenticate : ResponseWrapper → ResponseWrapper
clear_authenticate w = record w { message = none }

abbrev pub has_authenticate : ResponseWrapper → Bool
has_authenticate w = elim w.message [ some (authenticate v) ↦ true | _ ↦ false ]

abbrev pub mut_authenticate :
    ResponseWrapper → (AuthenticateResponse → AuthenticateResponse) → Option ResponseWrapper
mut_authenticate w change =
    let ready : ResponseWrapper = elim w.message [
      | some (authenticate v) ↦ w
      | _ ↦ record w { message = some (authenticate AuthenticateResponse.new) }
    ] in
    elim ready.message [
      | some (authenticate v) ↦ some (record ready { message = some (authenticate (change v)) })
      | _ ↦ none
    ]

abbrev pub take_authenticate : ResponseWrapper → Option (AuthenticateResponse × ResponseWrapper)
take_authenticate w =
    if has_authenticate w
    then (elim w.message [
      | some (authenticate v) ↦ some (v, record w { message = none })
      | _ ↦ none
    ])
    else some (AuthenticateResponse.new, w)

abbrev pub get_authenticate : ResponseWrapper → AuthenticateResponse
get_authenticate w = elim w.message [ some (authenticate v) ↦ v | _ ↦ AuthenticateResponse.new ]

abbrev pub clear : ResponseWrapper → ResponseWrapper
clear w =
    clear_authenticate
      (clear_error (clear_acknowledge (clear_pop (clear_enqueue (clear_ref_id w)))))

abbrev pub is_initialized : ResponseWrapper → Bool
is_initialized w = elim w.message [
  | some (enqueue v) ↦ EnqueueResponse.is_initialized v
  | some (pop v) ↦ PopResponse.is_initialized v
  | some (acknowledge v) ↦ AcknowledgeResponse.is_initialized v
  | some (error v) ↦ ErrorResponse.is_initialized v
  | some (authenticate v) ↦ AuthenticateResponse.is_initialized v
  | none ↦ true
]
