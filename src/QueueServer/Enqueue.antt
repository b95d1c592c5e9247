-- ===== src/QueueServer/Enqueue.antt =====
-- What `enqueue` and `add_item_to_queue` of src/queue_server.rs do to the server.
use brqueue.Base.{
  ℕ, zero, suc, ◌<◌, String, ◌≡◌, refl, ap, ◌⊎◌, inl, inr, false, true, List, [], ◌∷◌, ◌++◌, Result,
  ok, err, Eq, arith, Bool-cases,
}
use brqueue.Std.Mutex
use brqueue.Std.Mutex.{Mutex}
use brqueue.FileManager
use brqueue.Models.{Priority}
use brqueue.Models.Tags
use brqueue.Models.QueueItem
use brqueue.Models.QueueItem.{QueueItem}
use brqueue.QueueServer.Errors
use brqueue.QueueServer.Errors.{Error, mutex_corrupted}
use brqueue.QueueServer.Manager
use brqueue.QueueServer.Manager.Priorities.{Enqueued, enqueue-Enqueued}
use brqueue.QueueServer.Runtime.{Runtime}
use brqueue.QueueServer.Operations.{
  QueueServer, CreatedMessage, after_try_send, add_item_to_queue, after_save, enqueue,
}

zero_or_more : (n : ℕ) → (n ≡ 0) ⊎ (0 < n)
zero_or_more zero = inl refl
zero_or_more (suc n) = inr (omega arith)

module _ {U T : Type 0} ⦃e : Eq U⦄ (R : Runtime U T) where
  -- The server after an item has been put into the queue of its priority.
  abbrev pub queued : QueueServer R → QueueItem U T → QueueServer R
  queued s item = record s { queue = (Manager.enqueue R.channel s.queue item).1 }

  -- While no consumer waits, an item is put into the queue of its priority, and nothing else changes.
  pub add_item_to_queue_full :
      (s : QueueServer R) (item : QueueItem U T)
      → R.rendezvous.ready s.waiting ≡ 0
      → (add_item_to_queue R s item ≡ (ok tt, queued s item))
        × Enqueued R.channel item.priority s.queue item (queued s item).queue
  unfolding add_item_to_queue
  add_item_to_queue_full s item h =
      let (e, c) = enqueue-Enqueued R.channel s.queue item in
      (rw (R.rendezvous.try_send_full s.waiting item h, after_try_send) (ground arith), c)

  -- While a consumer waits, an item goes to a waiting consumer, and not into a queue.
  pub add_item_to_queue_sent :
      (s : QueueServer R) (item : QueueItem U T)
      → 0 < R.rendezvous.ready s.waiting
      → (w : R.rendezvous.State) × (add_item_to_queue R s item ≡ (ok tt, record s { waiting = w }))
        × (R.rendezvous.handed w ≡ R.rendezvous.handed s.waiting ++ item ∷ [])
  unfolding add_item_to_queue
  add_item_to_queue_sent s item h =
      let (w, e, _, c) = R.rendezvous.try_send_sent s.waiting item h in
      (w, rw (e, after_try_send) refl, c)

  module _ (s : QueueServer R) (id : U) (message : T) (priority : Priority)
      (capabilities : List String) where
    abbrev pub made : QueueItem U T
    made = QueueItem.new id message (Tags.from capabilities) priority

    -- If the lock of the file manager is poisoned, `enqueue` fails and changes nothing.
    enqueue_poisoned :
        s.file_manager.poisoned ≡ true
        → enqueue R s id message priority capabilities ≡ (err mutex_corrupted, s)
    unfolding enqueue
    enqueue_poisoned h = ground arith

    -- If the item cannot be saved, `enqueue` returns the error of the storage, and the item reaches
    -- neither a queue nor a consumer: only the storage may have changed.
    enqueue_unsaved :
        (x : FileManager.Error) (f : R.storage.State)
        → s.file_manager.poisoned ≡ false
        → R.storage.save_item s.file_manager.value made ≡ (err x, f)
        → enqueue R s id message priority capabilities
          ≡ (err (Errors.from x), record s { file_manager = Mutex.write s.file_manager f })
    unfolding enqueue after_save
    enqueue_unsaved x f h k = ground arith

    -- If the item is saved and no consumer waits, `enqueue` returns its identifier, and it is last
    -- in the queue of its priority.
    pub enqueue_saved :
        (f : R.storage.State)
        → s.file_manager.poisoned ≡ false
        → R.storage.save_item s.file_manager.value made ≡ (ok tt, f)
        → R.rendezvous.ready s.waiting ≡ 0
        → let t = record s { file_manager = Mutex.write s.file_manager f } in
          (enqueue R s id message priority capabilities ≡ (ok (record { id = id }), queued t made))
          × Enqueued R.channel priority s.queue made (queued t made).queue
    unfolding enqueue after_save QueueItem.new
    enqueue_saved f h k idle =
        let t = record s { file_manager = Mutex.write s.file_manager f } in
        let (e, c) = add_item_to_queue_full t made idle in (ground (arith, e), c)

    -- If a consumer waits for the item that is saved, the consumer is handed it, and no queue gets it.
    enqueue_handed :
        (f : R.storage.State)
        → s.file_manager.poisoned ≡ false
        → R.storage.save_item s.file_manager.value made ≡ (ok tt, f)
        → 0 < R.rendezvous.ready s.waiting
        → let t = record s { file_manager = Mutex.write s.file_manager f } in
          (w : R.rendezvous.State) × (enqueue R s id message priority capabilities
            ≡ (ok (record { id = id }), record t { waiting = w }))
          × (R.rendezvous.handed w ≡ R.rendezvous.handed s.waiting ++ made ∷ [])
    unfolding enqueue after_save QueueItem.new
    enqueue_handed f h k ready =
        let t = record s { file_manager = Mutex.write s.file_manager f } in
        let (w, e, c) = add_item_to_queue_sent t made ready in (w, ground (arith, e), c)

    -- The item is in one place: last in the queue of its priority, with no other item moved, or
    -- handed to a waiting consumer, with the queues as they were.
    abbrev pub InOnePlace : QueueServer R → Type 0
    InOnePlace t =
        (Enqueued R.channel priority s.queue made t.queue × (t.waiting ≡ s.waiting))
        ⊎ ((t.queue ≡ s.queue)
            × (R.rendezvous.handed t.waiting ≡ R.rendezvous.handed s.waiting ++ made ∷ []))

    -- The item was saved and is in one place, and the answer is its identifier.
    abbrev pub Accepted : Result Error (CreatedMessage U) × QueueServer R → Type 0
    Accepted r =
        (f : R.storage.State) × (R.storage.save_item s.file_manager.value made ≡ (ok tt, f))
        × (r.0 ≡ ok (record { id = id }))
        × (r.1.file_manager.value ≡ f)
        × (r.1.processing ≡ s.processing)
        × InOnePlace r.1

    -- The answer is an error, and neither a queue nor a consumer has been given anything. The lock of
    -- the file manager is poisoned, or the storage could not save the item and said why.
    abbrev pub Refused : Result Error (CreatedMessage U) × QueueServer R → Type 0
    Refused r =
        (x : Error) × (r.0 ≡ err x)
        × (r.1.queue ≡ s.queue)
        × (r.1.waiting ≡ s.waiting)
        × (r.1.processing ≡ s.processing)
        × (((s.file_manager.poisoned ≡ true) × (r.1.file_manager ≡ s.file_manager))
            ⊎ ((y : FileManager.Error) × ((R.storage.save_item s.file_manager.value made).0 ≡ err y)
                × (x ≡ Errors.from y)))

    accepted :
        (f : R.storage.State)
        → s.file_manager.poisoned ≡ false
        → R.storage.save_item s.file_manager.value made ≡ (ok tt, f)
        → Accepted (enqueue R s id message priority capabilities)
    accepted f h k = elim (zero_or_more (R.rendezvous.ready s.waiting)) [
      | inl idle ↦
          let (e, c) = enqueue_saved f h k idle in
          (f, k, rw e refl, rw e refl, rw e refl, rw e (inl (c, refl)))
      | inr ready ↦
          let (w, e, c) = enqueue_handed f h k ready in
          (f, k, rw e refl, rw e refl, rw e refl, rw e (inr (refl, c)))
    ]

    answered :
        (r : Result FileManager.Error (Unit {0}) × R.storage.State)
        → s.file_manager.poisoned ≡ false
        → R.storage.save_item s.file_manager.value made ≡ r
        → Accepted (enqueue R s id message priority capabilities)
          ⊎ Refused (enqueue R s id message priority capabilities)
    answered (ok u, f) h k = inl (accepted f h k)
    answered (err y, f) h k =
        let e = enqueue_unsaved y f h k in
        inr (
          Errors.from y,
          rw e refl,
          rw e refl,
          rw e refl,
          rw e refl,
          inr (y, ap (λ p. p.0) k, refl),
        )

    -- An enqueue is all or nothing, whatever the locks, the storage and the consumers do. Either the
    -- item was saved, the answer is its identifier, and the item is in one place, last in the queue
    -- of its priority or with a waiting consumer; or the answer is an error, since the lock of the
    -- file manager is poisoned or the storage could not save the item, and neither a queue nor a
    -- consumer has been given it. What is being processed stays in both cases.
    pub enqueue-Accepted :
        Accepted (enqueue R s id message priority capabilities)
        ⊎ Refused (enqueue R s id message priority capabilities)
    enqueue-Accepted = elim (Bool-cases s.file_manager.poisoned) [
      | inl h ↦
          let e = enqueue_poisoned h in
          inr (mutex_corrupted, rw e refl, rw e refl, rw e refl, rw e refl, inl (h, rw e refl))
      | inr h ↦ answered (R.storage.save_item s.file_manager.value made) h refl
    ]
