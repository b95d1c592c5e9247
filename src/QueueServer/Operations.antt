-- ===== src/QueueServer/Operations.antt =====
-- The methods of `QueueServer` in src/queue_server.rs. The clones of a server share its state, so a
-- method takes the state and returns the new one. A fresh identifier is an argument of `enqueue`.
use brqueue.Base.{
  String, Bool, true, Option, none, some, List, [], ◌∷◌, Result, ok, err, Eq, if◌then◌else◌,
}
use brqueue.Std.HashMap
use brqueue.Std.HashMap.{HashMap}
use brqueue.Std.Mutex
use brqueue.Std.Mutex.{Mutex}
use brqueue.Rendezvous.{TrySend, sent, full, disconnected}
use brqueue.FileManager
use brqueue.Models.{Priority}
use brqueue.Models.Tags
use brqueue.Models.QueueItem
use brqueue.Models.QueueItem.{QueueItem}
use brqueue.QueueServer.Errors
use brqueue.QueueServer.Errors.{Error, queue_corrupted, mutex_corrupted}
use brqueue.QueueServer.Manager
use brqueue.QueueServer.Manager.{InternalQueueManager}
use brqueue.QueueServer.Runtime.{Runtime}

pub record CreatedMessage (U : Type 0) : Type 0 where
  pub id : U

module _ {U T : Type 0} ⦃e : Eq U⦄ (R : Runtime U T) where
  -- `waiting` is the state of the channel whose ends are `waiting` and `wait_receive`.
  pub record QueueServer : Type 0 where
    pub queue : InternalQueueManager R.channel
    pub file_manager : Mutex R.storage.State
    pub waiting : R.rendezvous.State
    pub processing : Mutex (HashMap U (QueueItem U T))

  -- The record that `new_with_filename` builds.
  abbrev pub new_server : R.storage.State → QueueServer
  new_server manager = record {
    queue = Manager.new R.channel;
    file_manager = Mutex.new manager;
    waiting = R.rendezvous.bounded;
    processing = Mutex.new [];
  }

  -- What `new_with_filename` makes of the result of the file manager's constructor.
  unfoldable pub start : Result FileManager.Error R.storage.State → Result Error QueueServer
  start (err x) = err (Errors.from x)
  start (ok manager) = ok (new_server manager)

  unfoldable pub new_with_filename : String → Result Error QueueServer
  unfolding start
  new_with_filename filename = start (R.storage.new filename true)

  unfoldable pub new : Result Error QueueServer
  unfolding new_with_filename
  new = new_with_filename "./storage/tasks"

  -- The `match` on the result of `try_send`: a full channel has no waiting consumer.
  unfoldable pub after_try_send :
      QueueServer
      → TrySend (QueueItem U T) × R.rendezvous.State
      → Result Error (Unit {0}) × QueueServer
  after_try_send s (sent, w) = (ok tt, record s { waiting = w })
  after_try_send s (full item, w) =
      let (r, m) = Manager.enqueue R.channel s.queue item in
      (r, record s { waiting = w; queue = m })
  after_try_send s (disconnected item, w) = (err queue_corrupted, record s { waiting = w })

  unfoldable pub add_item_to_queue :
      QueueServer → QueueItem U T → Result Error (Unit {0}) × QueueServer
  unfolding after_try_send
  add_item_to_queue s item = after_try_send s (R.rendezvous.try_send s.waiting item)

  abbrev pub created : U → Result Error (Unit {0}) → Result Error (CreatedMessage U)
  created id (ok u) = ok (record { id = id })
  created id (err x) = err x

  -- What `enqueue` does once the item has been given to the storage.
  unfoldable pub after_save :
      QueueServer
      → QueueItem U T
      → Result FileManager.Error (Unit {0}) × R.storage.State
      → Result Error (CreatedMessage U) × QueueServer
  unfolding Errors.from
  after_save s item (err x, f) =
      (err (Errors.from x), record s { file_manager = Mutex.write s.file_manager f })
  after_save s item (ok u, f) =
      let (r, t) =
        add_item_to_queue (record s { file_manager = Mutex.write s.file_manager f }) item in
      (created item.id r, t)

  unfoldable pub enqueue :
      QueueServer → U → T → Priority → List String → Result Error (CreatedMessage U) × QueueServer
  enqueue s id message priority required_capabilities =
      let item = QueueItem.new id message (Tags.from required_capabilities) priority in
      elim (Mutex.lock s.file_manager) [
        | none ↦ (err mutex_corrupted, s)
        | some manager ↦ after_save s item (R.storage.save_item manager item)
      ]

  -- What ends a round of the `select!` in `pop_item`, with the server as the other threads left it:
  -- a message on the channel, its disconnection, or one second without either.
  pub data Wake : Type 0 where
    received : QueueItem U T → QueueServer → Wake
    closed : QueueServer → Wake
    elapsed : QueueServer → Wake

  -- The answer to a pop, `none` while it still waits, and the server after it.
  abbrev pub Reply : Type 0
  Reply = Option (Result Error (Option (QueueItem U T))) × QueueServer

  unfoldable pub pop_queue :
      QueueServer → List String → Result Error (Option (QueueItem U T)) × QueueServer
  pop_queue s capabilities =
      let (r, m) = Manager.pop R.channel s.queue capabilities in (r, record s { queue = m })

  -- The `loop` of `pop_item`; `none` means that it still waits when the wakes are used up.
  unfoldable pub wait_loop : List String → QueueServer → List Wake → Reply
  unfolding pop_queue
  wait_loop capabilities s [] = (none, s)
  wait_loop capabilities s (received item t ∷ wakes) = (some (ok (some item)), t)
  wait_loop capabilities s (closed t ∷ wakes) = (some (err queue_corrupted), t)
  wait_loop capabilities s (elapsed t ∷ wakes) =
      let (r, u) = pop_queue t capabilities in
      let rest = wait_loop capabilities u wakes in
      elim r [
        | err x ↦ (some (err x), u)
        | ok (some item) ↦ (some (ok (some item)), u)
        | ok none ↦ rest
      ]

  unfoldable pub pop_item : QueueServer → List String → Bool → List Wake → Reply
  unfolding wait_loop
  pop_item s capabilities wait_for_message wakes =
      let (r, t) = pop_queue s capabilities in
      elim r [
        | err x ↦ (some (err x), t)
        | ok (some entry) ↦ (some (ok (some entry)), t)
        | ok none ↦ if wait_for_message then wait_loop capabilities t wakes else (some (ok none), t)
      ]

  -- `pop` notes the item that it returns as being processed.
  unfoldable pub note_processing : Reply → Reply
  note_processing (none, s) = (none, s)
  note_processing (some (err x), s) = (some (err x), s)
  note_processing (some (ok none), s) = (some (ok none), s)
  note_processing (some (ok (some item)), s) = elim (Mutex.lock s.processing) [
    | none ↦ (some (err queue_corrupted), s)
    | some m ↦ (
      some (ok (some item)),
      record s { processing = Mutex.write s.processing (HashMap.insert m item.id item) },
    )
  ]

  unfoldable pub pop : QueueServer → List String → Bool → List Wake → Reply
  pop s capabilities wait_for_message wakes =
      note_processing (pop_item s capabilities wait_for_message wakes)

  unfoldable pub acknowledge : QueueServer → U → Result Error (Unit {0}) × QueueServer
  acknowledge s id = elim (Mutex.lock s.processing) [
    | none ↦ (err queue_corrupted, s)
    | some m ↦ (ok tt, record s { processing = Mutex.write s.processing (HashMap.remove m id) })
  ]

  -- What `fail` does with the item that it took out of the map.
  unfoldable pub requeue :
      QueueServer → Option (QueueItem U T) → Result Error (Unit {0}) × QueueServer
  requeue s none = (ok tt, s)
  requeue s (some item) = add_item_to_queue s item

  unfoldable pub fail : QueueServer → U → Result Error (Unit {0}) × QueueServer
  unfolding requeue
  fail s id = elim (Mutex.lock s.processing) [
    | none ↦ (err queue_corrupted, s)
    | some m ↦
        requeue (record s { processing = Mutex.write s.processing (HashMap.remove m id) })
          (HashMap.get m id)
  ]
