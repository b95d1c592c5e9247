-- ===== src/Client/Handlers.antt =====
-- The state of a connection of src/client.rs, and its answers to the requests.
use Prim.Native.String.{◌++◌ as ◌<>◌}
use brqueue.Base.{String, true, Option, none, some, List, [], ◌∷◌, Result, ok, err, Eq}
use brqueue.Std.HashSet
use brqueue.Std.HashSet.{HashSet}
use brqueue.Std.Mutex
use brqueue.Std.Mutex.{Mutex}
use brqueue.Std.Fs.{Bytes}
use brqueue.Models
use brqueue.Models.QueueItem.{QueueItem}
use brqueue.Rpc.Messages
use brqueue.Rpc.Messages.{EnqueueRequest, PopRequest, PopResponse, AcknowledgeRequest}
use brqueue.Rpc.ResponseWrapper
use brqueue.Rpc.ResponseWrapper.{ResponseWrapper}
use brqueue.QueueServer.Errors
use brqueue.QueueServer.Runtime.{Runtime}
use brqueue.QueueServer.Operations
use brqueue.QueueServer.Operations.{QueueServer, CreatedMessage, Wake}
use brqueue.Authentication.Operations.{Authentication}
use brqueue.Client.Errors.{Error, request_error}
use brqueue.Client.Library.{Library}

module _ {U : Type 0} ⦃e : Eq U⦄ (R : Runtime U Bytes) where
  pub record Client : Type 0 where
    pub queue_server : QueueServer R
    pub outstanding_tasks : Mutex (HashSet U)
    pub auth : Authentication

  unfoldable pub new : QueueServer R → Authentication → Client
  new queue_server auth = record {
    queue_server = queue_server;
    outstanding_tasks = Mutex.new [];
    auth = auth;
  }

  -- `if let Ok(mut tasks) = lock() { … }`: a poisoned lock is passed over.
  abbrev pub with_tasks : Client → (HashSet U → HashSet U) → Client
  with_tasks c f = elim (Mutex.lock c.outstanding_tasks) [
    | none ↦ c
    | some tasks ↦ record c { outstanding_tasks = Mutex.write c.outstanding_tasks (f tasks) }
  ]

  module _ (lib : Library U) where
    abbrev pub pop_response : QueueItem U Bytes → PopResponse
    pop_response item = record {
      had_result = true;
      message = item.payload;
      id = lib.to_string item.id;
    }

    -- What `pop` makes of the answer of the queue server.
    unfoldable pub after_pop :
        Client
        → Option (Result Errors.Error (Option (QueueItem U Bytes)))
        → Option (Result Error ResponseWrapper) × Client
    after_pop c none = (none, c)
    after_pop c (some (ok (some item))) = (
      some (ok (ResponseWrapper.set_pop ResponseWrapper.new (pop_response item))),
      with_tasks c (λ tasks. HashSet.insert tasks item.id),
    )
    after_pop c (some (ok none)) =
        (some (ok (ResponseWrapper.set_pop ResponseWrapper.new Messages.default_pop_response)), c)
    after_pop c (some (err x)) =
        (some (err (request_error ("Failed to pop message: " <> Errors.display x))), c)

    unfoldable pub pop :
        Client → PopRequest → List (Wake R) → Option (Result Error ResponseWrapper) × Client
    unfolding after_pop
    pop c request wakes =
        let (r, s) =
          Operations.pop R c.queue_server request.available_capabilities request.wait_for_message
            wakes in
        after_pop (record c { queue_server = s }) r

    unfoldable pub acknowledge_id : Client → Result String U → Result Error ResponseWrapper × Client
    acknowledge_id c (err x) = (err (request_error ("Failed to parse id to UUID: " <> x)), c)
    acknowledge_id c (ok uuid) =
        let (r, s) = Operations.acknowledge R c.queue_server uuid in
        let d = record c { queue_server = s } in
        elim r [
          | err x ↦ (err (request_error ("Failed to acknowledge message: " <> Errors.display x)), d)
          | ok u ↦ (
            ok (ResponseWrapper.set_acknowledge ResponseWrapper.new (record {})),
            with_tasks d (λ tasks. HashSet.remove tasks uuid),
          )
        ]

    unfoldable pub acknowledge : Client → AcknowledgeRequest → Result Error ResponseWrapper × Client
    unfolding acknowledge_id
    acknowledge c request = acknowledge_id c (lib.parse_str request.id)

    abbrev pub to_priority : Messages.Priority → Models.Priority
    to_priority Messages.Priority.low = Models.Priority.low
    to_priority Messages.Priority.high = Models.Priority.high

    abbrev pub enqueued : Result Errors.Error (CreatedMessage U) → Result Error ResponseWrapper
    enqueued (ok created) =
        ok (
          ResponseWrapper.set_enqueue ResponseWrapper.new
            (record { id = lib.to_string created.id }))
    enqueued (err x) = err (request_error ("Failed to enqueue message: " <> Errors.display x))

    -- With the identifier that the server draws for the item.
    unfoldable pub enqueue : Client → U → EnqueueRequest → Result Error ResponseWrapper × Client
    enqueue c id request =
        let (r, s) =
          Operations.enqueue R c.queue_server id request.message (to_priority request.priority)
            request.required_capabilities in
        (enqueued r, record c { queue_server = s })

  -- The loop of `drop_connection`, which only logs errors.
  unfoldable pub fail_all : QueueServer R → List U → QueueServer R
  fail_all s [] = s
  fail_all s (id ∷ ids) = fail_all (Operations.fail R s id).1 ids

  unfoldable pub drop_connection : Client → Client
  unfolding fail_all
  drop_connection c = elim (Mutex.lock c.outstanding_tasks) [
    | none ↦ c
    | some tasks ↦ record c { queue_server = fail_all c.queue_server tasks }
  ]
