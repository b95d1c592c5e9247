-- ===== src/Rpc/RequestWrapper.antt =====
-- `RequestWrapper` of src/rpc/queue.rs: one of the requests, with the number of the call.
use brqueue.Base.{Bool, true, false, Option, none, some, if◌then◌else◌}
use brqueue.Base.Int.{ℤ, pos}
use brqueue.Rpc.Accessors.AuthenticateRequest
use brqueue.Rpc.Accessors.EnqueueRequest
use brqueue.Rpc.Accessors.PopRequest
use brqueue.Rpc.Accessors.AcknowledgeRequest
use brqueue.Rpc.Messages.{
  AuthenticateRequest, EnqueueRequest, PopRequest, AcknowledgeRequest, default_authenticate_request,
  default_enqueue_request, default_pop_request, default_acknowledge_request,
}

pub data RequestMessage : Type 0 where
  enqueue : EnqueueRequest → RequestMessage
  pop : PopRequest → RequestMessage
  acknowledge : AcknowledgeRequest → RequestMessage
  authenticate : AuthenticateRequest → RequestMessage

pub record RequestWrapper : Type 0 where
  pub ref_id : ℤ
  pub message : Option RequestMessage

abbrev pub has_enqueue : RequestWrapper → Bool
has_enqueue w = elim w.message [ some (enqueue v) ↦ true | _ ↦ false ]

abbrev pub get_enqueue : RequestWrapper → EnqueueRequest
get_enqueue w = elim w.message [ some (enqueue v) ↦ v | _ ↦ default_enqueue_request ]

abbrev pub has_pop : RequestWrapper → Bool
has_pop w = elim w.message [ some (pop v) ↦ true | _ ↦ false ]

abbrev pub get_pop : RequestWrapper → PopRequest
get_pop w = elim w.message [ some (pop v) ↦ v | _ ↦ default_pop_request ]

abbrev pub has_acknowledge : RequestWrapper → Bool
has_acknowledge w = elim w.message [ some (acknowledge v) ↦ true | _ ↦ false ]

abbrev pub get_acknowledge : RequestWrapper → AcknowledgeRequest
get_acknowledge w = elim w.message [ some (acknowledge v) ↦ v | _ ↦ default_acknowledge_request ]

abbrev pub has_authenticate : RequestWrapper → Bool
has_authenticate w = elim w.message [ some (authenticate v) ↦ true | _ ↦ false ]

abbrev pub get_authenticate : RequestWrapper → AuthenticateRequest
get_authenticate w = elim w.message [ some (authenticate v) ↦ v | _ ↦ default_authenticate_request ]

abbrev pub new : RequestWrapper
new = record { ref_id = pos 0; message = none }

abbrev pub clear_ref_id : RequestWrapper → RequestWrapper
clear_ref_id w = record w { ref_id = pos 0 }

abbrev pub set_ref_id : RequestWrapper → ℤ → RequestWrapper
set_ref_id w v = record w { ref_id = v }

abbrev pub get_ref_id : RequestWrapper → ℤ
get_ref_id w = w.ref_id

abbrev pub clear_enqueue : RequestWrapper → RequestWrapper
clear_enqueue w = record w { message = none }

abbrev pub set_enqueue : RequestWrapper → EnqueueRequest → RequestWrapper
set_enqueue w v = record w { message = some (enqueue v) }

-- `none` is a panic, here and below.
abbrev pub mut_enqueue : RequestWrapper → (EnqueueRequest → EnqueueRequest) → Option RequestWrapper
mut_enqueue w change =
    let ready : RequestWrapper = elim w.message [
      | some (enqueue v) ↦ w
      | _ ↦ record w { message = some (enqueue EnqueueRequest.new) }
    ] in
    elim ready.message [
      | some (enqueue v) ↦ some (record ready { message = some (enqueue (change v)) })
      | _ ↦ none
    ]

abbrev pub take_enqueue : RequestWrapper → Option (EnqueueRequest × RequestWrapper)
take_enqueue w =
    if has_enqueue w
    then (elim w.message [ some (enqueue v) ↦ some (v, record w { message = none }) | _ ↦ none ])
    else some (EnqueueRequest.new, w)

abbrev pub clear_pop : RequestWrapper → RequestWrapper
clear_pop w = record w { message = none }

abbrev pub set_pop : RequestWrapper → PopRequest → RequestWrapper
set_pop w v = record w { message = some (pop v) }

abbrev pub mut_pop : RequestWrapper → (PopRequest → PopRequest) → Option RequestWrapper
mut_pop w change =
    let ready : RequestWrapper = elim w.message [
      | some (pop v) ↦ w
      | _ ↦ record w { message = some (pop PopRequest.new) }
    ] in
    elim ready.message [
      | some (pop v) ↦ some (record ready { message = some (pop (change v)) })
      | _ ↦ none
    ]

abbrev pub take_pop : RequestWrapper → Option (PopRequest × RequestWrapper)
take_pop w =
    if has_pop w
    then (elim w.message [ some (pop v) ↦ some (v, record w { message = none }) | _ ↦ none ])
    else some (PopRequest.new, w)

abbrev pub clear_acknowledge : RequestWrapper → RequestWrapper
clear_acknowledge w = record w { message = none }

abbrev pub set_acknowledge : RequestWrapper → AcknowledgeRequest → RequestWrapper
set_acknowledge w v = record w { message = some (acknowledge v) }

abbrev pub mut_acknowledge :
    RequestWrapper → (AcknowledgeRequest → AcknowledgeRequest) → Option RequestWrapper
mut_acknowledge w change =
    let ready : RequestWrapper = elim w.message [
      | some (acknowledge v) ↦ w
      | _ ↦ record w { message = some (acknowledge AcknowledgeRequest.new) }
    ] in
    elim ready.message [
      | some (acknowledge v) ↦ some (record ready { message = some (acknowledge (change v)) })
      | _ ↦ none
    ]

abbrev pub take_acknowledge : RequestWrapper → Option (AcknowledgeRequest × RequestWrapper)
take_acknowledge w =
    if has_acknowledge w
    then (elim w.message [
      | some (acknowledge v) ↦ some (v, record w { message = none })
      | _ ↦ none
    ])
    else some (AcknowledgeRequest.new, w)

abbrev pub clear_authenticate : RequestWrapper → RequestWrapper
clear_authenticate w = record w { message = none }

abbrev pub set_authenticate : RequestWrapper → AuthenticateRequest → RequestWrapper
set_authenticate w v = record w { message = some (authenticate v) }

abbrev pub mut_authenticate :
    RequestWrapper → (AuthenticateRequest → AuthenticateRequest) → Option RequestWrapper
mut_authenticate w change =
    let ready : RequestWrapper = elim w.message [
      | some (authenticate v) ↦ w
      | _ ↦ record w { message = some (authenticate AuthenticateRequest.new) }
    ] in
    elim ready.message [
      | some (authenticate v) ↦ some (record ready { message = some (authenticate (change v)) })
      | _ ↦ none
    ]

abbrev pub take_authenticate : RequestWrapper → Option (AuthenticateRequest × RequestWrapper)
take_authenticate w =
    if has_authenticate w
    then (elim w.message [
      | some (authenticate v) ↦ some (v, record w { message = none })
      | _ ↦ none
    ])
    else some (AuthenticateRequest.new, w)

abbrev pub clear : RequestWrapper → RequestWrapper
clear w = clear_authenticate (clear_acknowledge (clear_pop (clear_enqueue (clear_ref_id w))))

abbrev pub is_initialized : RequestWrapper → Bool
is_initialized w = elim w.message [
  | some (enqueue v) ↦ EnqueueRequest.is_initialized v
  | some (pop v) ↦ PopRequest.is_initialized v
  | some (acknowledge v) ↦ AcknowledgeRequest.is_initialized v
  | some (authenticate v) ↦ AuthenticateRequest.is_initialized v
  | none ↦ true
]
