-- ===== src/QueueServer/Reach.antt =====
-- The steps that a queue server of src/queue_server.rs takes, and what holds after any of them.
use mathlib.Core.List.{Mem, not-mem-nil}
use brqueue.Base.{
  String, ◌≡◌, sym, subst, inl, inr, false, true, none, some, List, Option, Result, ok, err, Eq,
  arith, Bool-cases, ok-injective,
}
use brqueue.Std.HashMap
use brqueue.Models.{Priority, low}
use brqueue.Models.Tags
use brqueue.Models.QueueItem.{QueueItem}
use brqueue.Queue.Order.{AllRejected}
use brqueue.FileManager
use brqueue.Queue
use brqueue.QueueServer.Manager
use brqueue.QueueServer.Manager.{InternalQueueManager}
use brqueue.QueueServer.Manager.Priorities.{high_items, Popped, Popped-item, pop-Popped}
use brqueue.QueueServer.Runtime.{Runtime}
use brqueue.QueueServer.Operations.{
  QueueServer, Wake, Reply, enqueue, pop_queue, pop_item, note_processing, pop, acknowledge,
  requeue, fail, new_with_filename, start, new_server,
}
use brqueue.QueueServer.WellFormed.{
  IsValid, IsSorted, Popped-IsSorted, add_item_to_queue-IsValid, enqueue-IsValid,
}

module _ {U T : Type 0} ⦃e : Eq U⦄ (R : Runtime U T) where
  pub note_processing-IsValid : (r : Reply R) → IsValid R r.1 → IsValid R (note_processing R r).1
  unfolding note_processing
  note_processing-IsValid (none, s) v = v
  note_processing-IsValid (some (err x), s) v = v
  note_processing-IsValid (some (ok none), s) v = v
  note_processing-IsValid (some (ok (some item)), s) v = elim (Bool-cases s.processing.poisoned) [
    | inl poisoned ↦ rw (poisoned, note_processing) v
    | inr sound ↦
        rw (sound, note_processing)
          (record {
            sorted = v.sorted;
            keyed = λ id x h.
                ground (arith, v.keyed id x, HashMap.get-insert s.processing.value item.id id item);
          })
  ]

  pub pop_queue-IsValid :
      (s : QueueServer R) (capabilities : List String)
      → IsValid R s
      → IsValid R (pop_queue R s capabilities).1
  unfolding pop_queue
  pop_queue-IsValid s capabilities v =
      let (found, x, p) = pop-Popped R.channel s.queue capabilities in
      record { sorted = Popped-IsSorted R p v.sorted; keyed = v.keyed }

  pop_item-pop_queue :
      (s : QueueServer R) (capabilities : List String) (wakes : List (Wake R))
      → (pop_item R s capabilities false wakes).1 ≡ (pop_queue R s capabilities).1
  unfolding pop_item pop_queue
  pop_item-pop_queue s capabilities wakes = ground arith

  pop-IsValid :
      (s : QueueServer R) (capabilities : List String) (wakes : List (Wake R))
      → IsValid R s
      → IsValid R (pop R s capabilities false wakes).1
  unfolding pop
  pop-IsValid s capabilities wakes v =
      note_processing-IsValid (pop_item R s capabilities false wakes)
        (rw (pop_item-pop_queue s capabilities wakes) (pop_queue-IsValid s capabilities v))

  forget-keyed :
      (s : QueueServer R) (id j : U) (x : QueueItem U T)
      → IsValid R s
      → HashMap.get (HashMap.remove s.processing.value id) j ≡ some x
      → x.id ≡ j
  forget-keyed s id j x v h =
      ground (arith, v.keyed j x, HashMap.get-remove s.processing.value id j)

  pub acknowledge-IsValid :
      (s : QueueServer R) (id : U) → IsValid R s → IsValid R (acknowledge R s id).1
  unfolding acknowledge
  acknowledge-IsValid s id v = elim (Bool-cases s.processing.poisoned) [
    | inl poisoned ↦ rw (poisoned, acknowledge) v
    | inr sound ↦
        rw (sound, acknowledge)
          (record { sorted = v.sorted; keyed = λ j x. forget-keyed s id j x v })
  ]

  requeue-IsValid :
      (s : QueueServer R) (found : Option (QueueItem U T))
      → IsValid R s
      → IsValid R (requeue R s found).1
  unfolding requeue
  requeue-IsValid s none v = v
  requeue-IsValid s (some item) v = add_item_to_queue-IsValid R s item v

  pub fail-IsValid : (s : QueueServer R) (id : U) → IsValid R s → IsValid R (fail R s id).1
  unfolding fail
  fail-IsValid s id v = elim (Bool-cases s.processing.poisoned) [
    | inl poisoned ↦ rw (poisoned, fail) v
    | inr sound ↦
        rw (sound, fail)
          (requeue-IsValid _ (HashMap.get s.processing.value id)
            (record { sorted = v.sorted; keyed = λ j x. forget-keyed s id j x v }))
  ]

  -- A step of one thread: a method that does not wait, the arrival and departure of waiting
  -- consumers, or the end of a wait, which takes an item that was handed over.
  pub data Step (s : QueueServer R) : QueueServer R → Type 0 where
    enqueues :
        (id : U) (message : T) (priority : Priority) (capabilities : List String)
        → Step s (enqueue R s id message priority capabilities).1
    pops :
        (capabilities : List String) (wakes : List (Wake R))
        → Step s (pop R s capabilities false wakes).1
    acknowledges : (id : U) → Step s (acknowledge R s id).1
    fails : (id : U) → Step s (fail R s id).1
    waits : (w : R.rendezvous.State) → Step s (record s { waiting = w })
    receives :
        (item : QueueItem U T)
        → Mem item (R.rendezvous.handed s.waiting)
        → Step s (note_processing R (some (ok (some item)), s)).1

  pub data Reach (s : QueueServer R) : QueueServer R → Type 0 where
    here : Reach s s
    next : {t u : QueueServer R} → Reach s t → Step t u → Reach s u

  Step-IsValid : {s t : QueueServer R} → Step s t → IsValid R s → IsValid R t
  Step-IsValid {s} (enqueues id message priority capabilities) v =
      enqueue-IsValid R s id message priority capabilities v
  Step-IsValid {s} (pops capabilities wakes) v = pop-IsValid s capabilities wakes v
  Step-IsValid {s} (acknowledges id) v = acknowledge-IsValid s id v
  Step-IsValid {s} (fails id) v = fail-IsValid s id v
  Step-IsValid (waits w) v = record { sorted = v.sorted; keyed = v.keyed }
  Step-IsValid {s} (receives item handed) v = note_processing-IsValid (some (ok (some item)), s) v

  Reach-IsValid : {s t : QueueServer R} → IsValid R s → Reach s t → IsValid R t
  Reach-IsValid v here = v
  Reach-IsValid v (next r step) = Step-IsValid step (Reach-IsValid v r)

  empty-IsSorted : IsSorted R (Manager.new R.channel)
  unfolding Manager.new Queue.new
  empty-IsSorted = record {
    all_high = λ x k. absurd (not-mem-nil (subst (Mem x) R.channel.contents-unbounded k));
    all_low = λ x k. absurd (not-mem-nil (subst (Mem x) R.channel.contents-unbounded k));
  }

  start-IsValid :
      (r : Result FileManager.Error R.storage.State) (s : QueueServer R)
      → start R r ≡ ok s
      → IsValid R s
  unfolding start HashMap.get
  start-IsValid (err x) s h = cc
  start-IsValid (ok manager) s h =
      let same : s ≡ new_server R manager = sym (ok-injective h) in
      rw same (record { sorted = empty-IsSorted; keyed = λ id x k. cc })

  pub new_with_filename-IsValid :
      (filename : String) (s : QueueServer R) → new_with_filename R filename ≡ ok s → IsValid R s
  unfolding new_with_filename
  new_with_filename-IsValid filename s h = start-IsValid (R.storage.new filename true) s h

  -- After any sequence of steps of a new server, each queue holds only items of its priority, and
  -- every item that is being processed stands under its own identifier.
  pub reachable-IsValid :
      (filename : String) (s t : QueueServer R)
      → new_with_filename R filename ≡ ok s
      → Reach s t
      → IsValid R t
  reachable-IsValid filename s t h r = Reach-IsValid (new_with_filename-IsValid filename s h) r

  pop_answer :
      (s : QueueServer R) (capabilities : List String) (wakes : List (Wake R))
      (item : QueueItem U T)
      → (pop R s capabilities false wakes).0 ≡ some (ok (some item))
      → (Manager.pop R.channel s.queue capabilities).0 ≡ ok (some item)
  unfolding pop pop_item pop_queue note_processing
  pop_answer s capabilities wakes item h = ground arith

  -- On such a server, a pop that does not wait returns an item of low priority only if no item in
  -- the high priority queue can be handled with the capabilities.
  pop_prefers_high :
      (s : QueueServer R) (capabilities : List String) (wakes : List (Wake R))
      (item : QueueItem U T)
      → IsValid R s
      → (pop R s capabilities false wakes).0 ≡ some (ok (some item))
      → item.priority ≡ low
      → AllRejected (Tags.from capabilities) (high_items R.channel s.queue)
  pop_prefers_high s capabilities wakes item v h is_low =
      let (found, x, p) = pop-Popped R.channel s.queue capabilities in
      let y = pop_answer s capabilities wakes item h in
      let same : found ≡ some item = cc in
      elim (Popped-item R.channel (subst (Popped R.channel _ _ _) same p)) [
        | inl (stood, _) ↦ cc (v.sorted.all_high item stood)
        | inr (_, _, rejected) ↦ rejected
      ]
