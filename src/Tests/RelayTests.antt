-- ===== src/Tests/RelayTests.antt =====
-- Tests of an item that goes from one connection of src/client.rs to another.
use brqueue.Base.{
  ◌≡◌, refl, true, false, some, if◌then◌else◌, ◌||◌, ◌==◌, ℕ, String, [], ◌∷◌, ok, nat_eq,
  string_eq, arith,
}
use brqueue.Base.Int.{pos}
use brqueue.Std.HashSet
use brqueue.Models.Tags
use brqueue.Models.QueueItem.{can_be_handled_by}
use brqueue.Rpc.Messages
use brqueue.Rpc.Messages.{EnqueueRequest, PopRequest}
use brqueue.Rpc.ResponseWrapper
use brqueue.QueueServer.Manager.Priorities.{NothingFits}
use brqueue.QueueServer.Delivery.{in_process}
use brqueue.Client.Handlers.{Client}
use brqueue.QueueServer.Operations.{QueueServer}
use brqueue.Client.Connection.{dispatch}
use brqueue.Client.Submission.{enqueue_message, asked}
use brqueue.Client.Retrieval.{pop_message}
use brqueue.Client.Relay.{dispatch_relays}
use brqueue.Tests.Crates.{crates, to_text}
use brqueue.Tests.ClientTests.{Task, runtime, task, server, client, quiet}

-- Of low priority.
abbrev request : EnqueueRequest
request = record {
  message = 7 ∷ [];
  priority = Messages.Priority.low;
  required_capabilities = "red" ∷ [];
}

abbrev wanted : PopRequest
wanted = record { available_capabilities = "blue" ∷ "red" ∷ []; wait_for_message = false }

-- An item that the consumer cannot handle.
abbrev picky : Task
picky = record (task 1) { required_tags = record { inner = "green" ∷ [] } }

abbrev crowded : QueueServer runtime
crowded = record server {
  queue = record { high_priority_queue = picky ∷ []; low_priority_queue = [] };
}

abbrev producer : Client runtime
producer = record client { queue_server = crowded }

nothing_fits : NothingFits runtime.channel (Tags.from wanted.available_capabilities) crowded.queue
unfolding Tags.from can_be_handled_by Tags.is_superset HashSet.is_superset string_eq
nothing_fits = ((refl, tt), tt)

has_tags :
    (tag : String)
    → HashSet.contains request.required_capabilities tag ≡ true
    → HashSet.contains wanted.available_capabilities tag ≡ true
unfolding HashSet.contains
has_tags tag h = ground arith

dispatch_relays_example :
    let r = dispatch runtime crates producer quiet (enqueue_message (pos 1) request) in
    let t =
      dispatch runtime crates
        (record client { queue_server = r.1.queue_server })
        quiet
        (pop_message (pos 2) wanted) in
    (r.0 ≡ some (ok (ResponseWrapper.set_enqueue ResponseWrapper.new (record { id = to_text 9 }))))
    × (t.0
        ≡ some (
            ok (
              ResponseWrapper.set_pop ResponseWrapper.new
                (record { had_result = true; message = 7 ∷ []; id = to_text 9 }))))
    × ((id : ℕ)
        → in_process runtime t.1.queue_server id ≡ (
            if 9 == id
            then some (asked runtime crates crowded 9 request)
            else in_process runtime crowded id))
    × ((id : ℕ)
        → HashSet.contains t.1.outstanding_tasks.value id
          ≡ (9 == id || HashSet.contains (7 ∷ []) id))
dispatch_relays_example =
    dispatch_relays runtime crates producer client quiet quiet (pos 1) (pos 2) request wanted _ refl
      refl refl refl refl nothing_fits has_tags
