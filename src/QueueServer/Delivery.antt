-- ===== src/QueueServer/Delivery.antt =====
-- `pop`, `acknowledge` and `fail` of src/queue_server.rs: how an item becomes one that is being
-- processed, and how it leaves that state.
use brqueue.Base.{
  String, ◌≡◌, refl, ◌∙◌, Bool, false, none, some, List, Option, ok, Eq, ◌==◌, if◌then◌else◌, arith,
}
use brqueue.Std.HashMap
use brqueue.Std.Mutex
use brqueue.Std.Mutex.{Mutex}
use brqueue.Models.Tags
use brqueue.Models.QueueItem.{QueueItem}
use brqueue.QueueServer.Manager
use brqueue.QueueServer.Manager.Priorities.{Popped, pop-Popped, Enqueued}
use brqueue.QueueServer.Runtime.{Runtime}
use brqueue.QueueServer.Operations.{
  QueueServer, Wake, add_item_to_queue, pop_queue, pop_item, note_processing, pop, acknowledge,
  requeue, fail,
}
use brqueue.QueueServer.Enqueue.{add_item_to_queue_full}

module _ {U T : Type 0} ⦃e : Eq U⦄ (R : Runtime U T) where
  -- The item that the server holds as being processed under an identifier.
  abbrev pub in_process : QueueServer R → U → Option (QueueItem U T)
  in_process s id = HashMap.get s.processing.value id

  -- `note_processing` changes the entry of the item that is returned, and no other.
  abbrev pub noted : Option (QueueItem U T) → U → Option (QueueItem U T) → Option (QueueItem U T)
  noted none id before = before
  noted (some item) id before = if item.id == id then some item else before

  -- The server after a pop has given `item` away, from the queues `m` that the pop left.
  abbrev pub given :
      QueueServer R → Manager.InternalQueueManager R.channel → QueueItem U T → QueueServer R
  given s m item = record s {
    queue = m;
    processing = Mutex.write s.processing (HashMap.insert s.processing.value item.id item);
  }

  module _ (s : QueueServer R) (capabilities : List String) (wakes : List (Wake R)) where
    pub pop_found :
        (item : QueueItem U T)
        → s.processing.poisoned ≡ false
        → (Manager.pop R.channel s.queue capabilities).0 ≡ ok (some item)
        → (wait : Bool)
        → pop R s capabilities wait wakes
          ≡ (some (ok (some item)), given s (Manager.pop R.channel s.queue capabilities).1 item)
    unfolding pop pop_item pop_queue note_processing
    pop_found item h x wait = ground arith

    pop_nothing :
        (Manager.pop R.channel s.queue capabilities).0 ≡ ok none
        → pop R s capabilities false wakes
          ≡ (some (ok none), record s { queue = (Manager.pop R.channel s.queue capabilities).1 })
    unfolding pop pop_item pop_queue note_processing
    pop_nothing x = ground arith

    in_process-given :
        (m : Manager.InternalQueueManager R.channel) (item : QueueItem U T) (id : U)
        → in_process (given s m item) id ≡ noted (some item) id (in_process s id)
    in_process-given m item id = HashMap.get-insert s.processing.value item.id id item

    -- What a pop that found `found` answers and leaves.
    abbrev Delivers : Option (QueueItem U T) → Type 0
    Delivers found =
        let t = (pop R s capabilities false wakes).1 in
        ((pop R s capabilities false wakes).0 ≡ some (ok found))
        × Popped R.channel (Tags.from capabilities) s.queue t.queue found
        × ((id : U) → in_process t id ≡ noted found id (in_process s id))

    deliver :
        (found : Option (QueueItem U T))
        → s.processing.poisoned ≡ false
        → (Manager.pop R.channel s.queue capabilities).0 ≡ ok found
        → Popped R.channel
            (Tags.from capabilities)
            s.queue
            (Manager.pop R.channel s.queue capabilities).1
            found
        → Delivers found
    deliver none h x p =
        (rw (pop_nothing x) refl, rw (pop_nothing x) p, λ id. rw (pop_nothing x) refl)
    deliver (some item) h x p =
        let step = pop_found item h x false in
        let m = (Manager.pop R.channel s.queue capabilities).1 in
        (rw step refl, rw step p, λ id. rw step (in_process-given m item id))

    -- A pop that does not wait answers at once and without an error. The item that it returns is
    -- the one that the two queues give, by `Popped`. It is from then on held as being processed,
    -- and what was being processed under other identifiers still is.
    pub pop_delivers :
        s.processing.poisoned ≡ false
        → let t = (pop R s capabilities false wakes).1 in
          (found : Option (QueueItem U T)) × ((pop R s capabilities false wakes).0
            ≡ some (ok found))
          × Popped R.channel (Tags.from capabilities) s.queue t.queue found
          × ((id : U) → in_process t id ≡ noted found id (in_process s id))
    pop_delivers h =
        let (found, x, p) = pop-Popped R.channel s.queue capabilities in
        let (d, q, n) = deliver found h x p in (found, d, q, n)

  -- `acknowledge` forgets the item with the identifier, which need not be there, and neither
  -- another item that is being processed nor a queue.
  acknowledge_forgets :
      (s : QueueServer R) (id : U)
      → s.processing.poisoned ≡ false
      → let t = (acknowledge R s id).1 in
        ((acknowledge R s id).0 ≡ ok tt)
        × ((j : U) → in_process t j ≡ (if id == j then none else in_process s j))
        × (t.queue ≡ s.queue)
  unfolding acknowledge
  acknowledge_forgets s id h =
      (ground arith, λ j. ground (arith, HashMap.get-remove s.processing.value id j), ground arith)

  -- The server that no longer processes the item with the identifier.
  abbrev pub forgotten : QueueServer R → U → QueueServer R
  forgotten s id = record s {
    processing = Mutex.write s.processing (HashMap.remove s.processing.value id);
  }

  fail_found :
      (s : QueueServer R) (id : U) (item : QueueItem U T)
      → s.processing.poisoned ≡ false
      → in_process s id ≡ some item
      → fail R s id ≡ add_item_to_queue R (forgotten s id) item
  unfolding fail requeue
  fail_found s id item h k = ground arith

  -- While no consumer waits, `fail` of an item that is being processed puts it last in the queue of
  -- its priority and forgets it; what is processed under other identifiers stays.
  pub fail_requeues :
      (s : QueueServer R) (id : U) (item : QueueItem U T)
      → s.processing.poisoned ≡ false
      → R.rendezvous.ready s.waiting ≡ 0
      → in_process s id ≡ some item
      → let t = (fail R s id).1 in
        ((fail R s id).0 ≡ ok tt)
        × Enqueued R.channel item.priority s.queue item t.queue
        × ((j : U) → in_process t j ≡ (if id == j then none else in_process s j))
  fail_requeues s id item h idle k =
      let (x, c) = add_item_to_queue_full R (forgotten s id) item idle in
      let step = fail_found s id item h k ∙ x in
      (rw step refl, rw step c, λ j. rw step (HashMap.get-remove s.processing.value id j))

  -- A `fail` of an identifier that is not being processed, such as one that is acknowledged, changes
  -- neither the queues nor what is being processed.
  fail_absent :
      (s : QueueServer R) (id : U)
      → s.processing.poisoned ≡ false
      → in_process s id ≡ none
      → ((fail R s id).0 ≡ ok tt)
        × ((fail R s id).1.queue ≡ s.queue)
        × ((j : U) → in_process (fail R s id).1 j ≡ in_process s j)
  unfolding fail requeue
  fail_absent s id h k =
      (ground arith, ground arith, λ j. ground (arith, HashMap.get-remove s.processing.value id j))

  -- After an acknowledgement, a failure of the same item, as at the end of its connection, does not
  -- bring the item back: nothing is processed under its identifier, and the queues stay as they are.
  fail-acknowledge :
      (s : QueueServer R) (id : U)
      → s.processing.poisoned ≡ false
      → let t = (fail R (acknowledge R s id).1 id).1 in
        ((fail R (acknowledge R s id).1 id).0 ≡ ok tt)
        × (t.queue ≡ s.queue)
        × (in_process t id ≡ none)
  unfolding acknowledge fail requeue
  fail-acknowledge s id h = ground (
    arith,
    HashMap.get-remove s.processing.value id id,
    HashMap.get-remove (HashMap.remove s.processing.value id) id id,
  )
