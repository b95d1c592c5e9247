-- ===== src/Client/Tasks.antt =====
-- The outstanding tasks of a connection of src/client.rs: what goes back to the queues when the
-- connection is lost.
use mathlib.Core.List.{Mem, mem-append_left, mem-append_right, mem-cons_self}
use mathlib.Core.Option
use brqueue.Base.{
  ◌≡◌, refl, ◌∙◌, sym, subst, ◌⊎◌, inl, inr, true, false, Option, none, some, List, [], ◌∷◌, ◌++◌,
  Eq, ◌==◌, if◌then◌else◌, arith, Option-cases,
}
use brqueue.Std.Fs.{Bytes}
use brqueue.Std.HashMap
use brqueue.Std.HashSet
use brqueue.Models.{Priority, low, high}
use brqueue.Models.QueueItem.{QueueItem}
use brqueue.QueueServer.Manager.{InternalQueueManager}
use brqueue.QueueServer.Manager.Priorities.{high_items, low_items, Enqueued}
use brqueue.QueueServer.Runtime.{Runtime}
use brqueue.QueueServer.Operations.{QueueServer, fail, requeue}
use brqueue.QueueServer.Enqueue.{queued, add_item_to_queue_full}
use brqueue.QueueServer.Delivery.{in_process, forgotten}
use brqueue.Client.Handlers.{Client, fail_all, drop_connection}

module _ {U : Type 0} ⦃e : Eq U⦄ (R : Runtime U Bytes) where
  -- The item stands in one of the two queues.
  abbrev pub Holds : InternalQueueManager R.channel → QueueItem U Bytes → Type 0
  Holds m item = Mem item (high_items R.channel m) ⊎ Mem item (low_items R.channel m)

  abbrev pub IsQueued : QueueServer R → QueueItem U Bytes → Type 0
  IsQueued s item = Holds s.queue item

  mem-snoc_self :
      (item : QueueItem U Bytes) (l r : List (QueueItem U Bytes)) → r ≡ l ++ item ∷ [] → Mem item r
  mem-snoc_self item l r h = subst (Mem item) (sym h) (mem-append_right l mem-cons_self)

  mem-snoc_of_mem :
      (x item : QueueItem U Bytes) (l r : List (QueueItem U Bytes))
      → r ≡ l ++ item ∷ []
      → Mem x l
      → Mem x r
  mem-snoc_of_mem x item l r h k = subst (Mem x) (sym h) (mem-append_left (item ∷ []) k)

  -- The server after a `fail`, while no consumer waits and the lock is sound.
  abbrev failed_server : QueueServer R → U → Option (QueueItem U Bytes) → QueueServer R
  failed_server s id none = forgotten R s id
  failed_server s id (some item) = queued R (forgotten R s id) item

  fail-failed_server :
      (s : QueueServer R) (id : U) (found : Option (QueueItem U Bytes))
      → s.processing.poisoned ≡ false
      → R.rendezvous.ready s.waiting ≡ 0
      → in_process R s id ≡ found
      → (fail R s id).1 ≡ failed_server s id found
  unfolding fail requeue
  fail-failed_server s id none h idle k = ground arith
  fail-failed_server s id (some item) h idle k =
      let (x, _) = add_item_to_queue_full R (forgotten R s id) item idle in ground (arith, x)

  Enqueued-Holds :
      (p : Priority) (m n : InternalQueueManager R.channel) (item : QueueItem U Bytes)
      → Enqueued R.channel p m item n
      → Holds n item × ((x : QueueItem U Bytes) → Holds m x → Holds n x)
  Enqueued-Holds low m n item (same, grown) = (
    inr (mem-snoc_self item (low_items R.channel m) (low_items R.channel n) grown),
    λ x. elim [
      | inl k ↦ inl (subst (Mem x) (sym same) k)
      | inr k ↦ inr (mem-snoc_of_mem x item (low_items R.channel m) (low_items R.channel n) grown k)
    ],
  )
  Enqueued-Holds high m n item (grown, same) = (
    inl (mem-snoc_self item (high_items R.channel m) (high_items R.channel n) grown),
    λ x. elim [
      | inl k ↦
          inl (mem-snoc_of_mem x item (high_items R.channel m) (high_items R.channel n) grown k)
      | inr k ↦ inr (subst (Mem x) (sym same) k)
    ],
  )

  -- What a `fail` does to the queues and to the items that are being processed.
  pub record Requeues (s t : QueueServer R) (id : U) : Type 0 where
    pub sound : t.processing.poisoned ≡ false
    pub idle : R.rendezvous.ready t.waiting ≡ 0
    pub gone : (j : U) → in_process R t j ≡ (if id == j then none else in_process R s j)
    pub moved : (x : QueueItem U Bytes) → in_process R s id ≡ some x → IsQueued t x
    pub kept : (x : QueueItem U Bytes) → IsQueued s x → IsQueued t x

  fail-Requeues :
      (s : QueueServer R) (id : U)
      → s.processing.poisoned ≡ false
      → R.rendezvous.ready s.waiting ≡ 0
      → Requeues s (fail R s id).1 id
  fail-Requeues s id h idle = elim (Option-cases (in_process R s id)) [
    | inl absent ↦ rw (fail-failed_server s id none h idle absent) (record {
      sound = h;
      idle = idle;
      gone = HashMap.get-remove s.processing.value id;
      moved = λ x k. cc;
      kept = λ x k. k;
    })
    | inr (item, found) ↦
        let t = forgotten R s id in
        let (_, c) = add_item_to_queue_full R t item idle in
        let (here, kept) = Enqueued-Holds item.priority t.queue (queued R t item).queue item c in
        rw (fail-failed_server s id (some item) h idle found) (record {
          sound = h;
          idle = idle;
          gone = HashMap.get-remove s.processing.value id;
          moved = λ x k.
              subst (IsQueued (queued R t item)) (Option.some-injective item x (sym found ∙ k))
                here;
          kept = kept;
        })
  ]

  fail_all-requeues :
      (s : QueueServer R) (ids : List U)
      → s.processing.poisoned ≡ false
      → R.rendezvous.ready s.waiting ≡ 0
      → let t = fail_all R s ids in
        ((id : U)
          → in_process R t id ≡ (if HashSet.contains ids id then none else in_process R s id))
        × ((id : U) (x : QueueItem U Bytes)
            → HashSet.contains ids id ≡ true
            → in_process R s id ≡ some x
            → IsQueued t x)
        × ((x : QueueItem U Bytes) → IsQueued s x → IsQueued t x)
  unfolding fail_all HashSet.contains
  fail_all-requeues s [] h idle = (λ id. refl, λ id x k. cc, λ x k. k)
  fail_all-requeues s (id ∷ ids) h idle =
      let r = fail-Requeues s id h idle in
      let (gone, moved, kept) = fail_all-requeues (fail R s id).1 ids r.sound r.idle in
      (
        λ j. ground (arith, gone j, r.gone j),
        λ j x k p. elim (e.dec id j) [
          | yes q ↦ kept x (r.moved x (subst (λ z. in_process R s z ≡ some x) (sym q) p))
          | no n ↦ moved j x (ground arith) (ground (arith, r.gone j))
        ],
        λ x k. kept x (r.kept x k),
      )

  -- When a connection is dropped while the locks are sound and no consumer waits, each of its
  -- outstanding tasks that is still being processed goes back into a queue, none of them is being
  -- processed any more, what others process stays, and no item leaves a queue.
  pub drop_connection_requeues :
      (c : Client R)
      → c.outstanding_tasks.poisoned ≡ false
      → c.queue_server.processing.poisoned ≡ false
      → R.rendezvous.ready c.queue_server.waiting ≡ 0
      → let tasks = c.outstanding_tasks.value in
        let t = (drop_connection R c).queue_server in
        ((id : U)
          → in_process R t id
            ≡ (if HashSet.contains tasks id then none else in_process R c.queue_server id))
        × ((id : U) (x : QueueItem U Bytes)
            → HashSet.contains tasks id ≡ true
            → in_process R c.queue_server id ≡ some x
            → IsQueued t x)
        × ((x : QueueItem U Bytes) → IsQueued c.queue_server x → IsQueued t x)
  unfolding drop_connection
  drop_connection_requeues c sound h idle =
      rw (sound, drop_connection)
        (fail_all-requeues c.queue_server c.outstanding_tasks.value h idle)
