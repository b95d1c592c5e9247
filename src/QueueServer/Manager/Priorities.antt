-- ===== src/QueueServer/Manager/Priorities.antt =====
-- How the pair of priority queues of src/queue_server.rs chooses an item.
use mathlib.Core.List.{Perm, Mem, mem-cons_self, mem-cons_of_mem, not-mem-nil}
use mathlib.Core.List.Perm
use brqueue.Base.{
  String, ◌≡◌, refl, subst, ◌⊎◌, ◌↔◌, inl, inr, true, Option, none, some, Result, err, List, [],
  ◌∷◌, ◌++◌, ok, arith,
}
use brqueue.Channel.{Channel}
use brqueue.Models.{Priority, low, high}
use brqueue.Models.Tags
use brqueue.Models.QueueItem
use brqueue.Models.QueueItem.{QueueItem}
use brqueue.Queue
use brqueue.Queue.Order.{AllRejected, enqueue-contents, pop-none}
use brqueue.Queue.Conservation.{pop-cases}
use brqueue.QueueServer.Manager.{
  InternalQueueManager, enqueue, pop, enqueue_at, pop_high, pop_low, corrupted,
}

module _ {U T : Type 0} (C : Channel (QueueItem U T)) where
  -- The items of the two queues, oldest first.
  abbrev pub high_items : InternalQueueManager C → List (QueueItem U T)
  high_items m = C.contents m.high_priority_queue

  abbrev pub low_items : InternalQueueManager C → List (QueueItem U T)
  low_items m = C.contents m.low_priority_queue

  -- What an `enqueue` of `item` into `m` leaves: the item is last in the queue of its priority.
  abbrev pub Enqueued :
      Priority → InternalQueueManager C → QueueItem U T → InternalQueueManager C → Type 0
  Enqueued low m item n = (high_items n ≡ high_items m) × (low_items n ≡ low_items m ++ item ∷ [])
  Enqueued high m item n = (high_items n ≡ high_items m ++ item ∷ []) × (low_items n ≡ low_items m)

  enqueue_at-Enqueued :
      (p : Priority) (m : InternalQueueManager C) (item : QueueItem U T)
      → ((enqueue_at C p m item).0 ≡ ok tt) × Enqueued p m item (enqueue_at C p m item).1
  unfolding enqueue_at
  enqueue_at-Enqueued low m item =
      let (e, c) = enqueue-contents C m.low_priority_queue item in
      (rw (e, corrupted) refl, (refl, c))
  enqueue_at-Enqueued high m item =
      let (e, c) = enqueue-contents C m.high_priority_queue item in
      (rw (e, corrupted) refl, (c, refl))

  -- `enqueue` succeeds, puts the item last in the queue of its priority, and leaves the other queue
  -- as it was.
  pub enqueue-Enqueued :
      (m : InternalQueueManager C) (item : QueueItem U T)
      → ((enqueue C m item).0 ≡ ok tt) × Enqueued item.priority m item (enqueue C m item).1
  unfolding enqueue
  enqueue-Enqueued m item = enqueue_at-Enqueued item.priority m item

  -- What a pop of `m` with some capabilities leaves in `n`: the item is the oldest of high priority
  -- that fits, or of low priority if no item of high priority fits, or there is none. A queue in
  -- which nothing fits is emptied, and the other items are kept.
  pub data Popped (tags : Tags.Tags) (m n : InternalQueueManager C)
      : Option (QueueItem U T) → Type 0 where
    from_high :
        {item : QueueItem U T}
        → QueueItem.can_be_handled_by item tags ≡ true
        → Perm (high_items m) (item ∷ high_items n)
        → low_items n ≡ low_items m
        → Popped tags m n (some item)
    from_low :
        {item : QueueItem U T}
        → AllRejected tags (high_items m)
        → QueueItem.can_be_handled_by item tags ≡ true
        → Perm (low_items m) (item ∷ low_items n)
        → high_items n ≡ []
        → Popped tags m n (some item)
    nothing :
        AllRejected tags (high_items m)
        → AllRejected tags (low_items m)
        → high_items n ≡ []
        → low_items n ≡ []
        → Popped tags m n none

  pub pop_low_lem :
      (m : InternalQueueManager C) (r : Result Queue.Error (Option (QueueItem U T)) × Queue.Queue C)
      (found : Option (QueueItem U T))
      → r.0 ≡ ok found
      → pop_low C m r ≡ (ok found, record m { low_priority_queue = r.1 })
  unfolding pop_low
  pop_low_lem m (ok none, q) found h = ground arith
  pop_low_lem m (ok (some item), q) found h = ground arith
  pop_low_lem m (err e, q) found h = cc

  pub pop_high-found :
      (m : InternalQueueManager C) (tags : Tags.Tags)
      (r : Result Queue.Error (Option (QueueItem U T)) × Queue.Queue C) (item : QueueItem U T)
      → r.0 ≡ ok (some item)
      → pop_high C m tags r ≡ (ok (some item), record m { high_priority_queue = r.1 })
  unfolding pop_high
  pop_high-found m tags (ok none, q) item h = cc
  pop_high-found m tags (ok (some x), q) item h = ground arith
  pop_high-found m tags (err e, q) item h = cc

  pub pop_high-none :
      (m : InternalQueueManager C) (tags : Tags.Tags)
      (r : Result Queue.Error (Option (QueueItem U T)) × Queue.Queue C)
      → r.0 ≡ ok none
      → pop_high C m tags r
        ≡ pop_low C (record m { high_priority_queue = r.1 }) (Queue.pop C m.low_priority_queue tags)
  unfolding pop_high
  pop_high-none m tags (ok none, q) h = refl
  pop_high-none m tags (ok (some x), q) h = cc
  pop_high-none m tags (err e, q) h = cc

  pop_low-Popped :
      (m : InternalQueueManager C) (q : Queue.Queue C) (tags : Tags.Tags)
      → AllRejected tags (high_items m)
      → C.contents q ≡ []
      → let r =
          pop_low C
            (record m { high_priority_queue = q })
            (Queue.pop C m.low_priority_queue tags) in
        (found : Option (QueueItem U T)) × (r.0 ≡ ok found) × Popped tags m r.1 found
  pop_low-Popped m q tags rejected gone = elim (pop-cases C m.low_priority_queue tags) [
    | inl (item, e, fits, kept) ↦
        let step =
          pop_low_lem (record m { high_priority_queue = q }) (Queue.pop C m.low_priority_queue tags)
            (some item) e in
        (some item, rw step refl, rw step (from_low rejected fits kept gone))
    | inr (e, others, empty) ↦
        let step =
          pop_low_lem (record m { high_priority_queue = q }) (Queue.pop C m.low_priority_queue tags)
            none e in
        (none, rw step refl, rw step (nothing rejected others gone empty))
  ]

  -- A pop never fails, and what it returns and leaves is described by `Popped`.
  pub pop-Popped :
      (m : InternalQueueManager C) (capabilities : List String)
      → (found : Option (QueueItem U T)) × ((pop C m capabilities).0 ≡ ok found)
        × Popped (Tags.from capabilities) m (pop C m capabilities).1 found
  unfolding pop
  pop-Popped m capabilities =
      let tags = Tags.from capabilities in
      elim (pop-cases C m.high_priority_queue tags) [
        | inl (item, e, fits, kept) ↦
            let step = pop_high-found m tags (Queue.pop C m.high_priority_queue tags) item e in
            (some item, rw step refl, rw step (from_high fits kept refl))
        | inr (e, rejected, gone) ↦
            let r = Queue.pop C m.high_priority_queue tags in
            rw (pop_high-none m tags r e) (pop_low-Popped m r.1 tags rejected gone)
      ]

  -- No item of either queue can be handled.
  abbrev pub NothingFits : Tags.Tags → InternalQueueManager C → Type 0
  NothingFits tags m = AllRejected tags (high_items m) × AllRejected tags (low_items m)

  Popped-NothingFits :
      {tags : Tags.Tags} {m n : InternalQueueManager C} {found : Option (QueueItem U T)}
      → Popped tags m n found
      → found ≡ none
      → NothingFits tags m
  Popped-NothingFits (from_high fits kept same) h = cc
  Popped-NothingFits (from_low rejected fits kept gone) h = cc
  Popped-NothingFits (nothing rejected others gone empty) h = (rejected, others)

  -- A pop of the two queues gives nothing exactly when no item of either can be handled.
  pub pop-NothingFits :
      (m : InternalQueueManager C) (capabilities : List String)
      → ((pop C m capabilities).0 ≡ ok none) ↔ NothingFits (Tags.from capabilities) m
  unfolding pop
  pop-NothingFits m capabilities =
      let tags = Tags.from capabilities in
      let (found, x, p) = pop-Popped m capabilities in
      let high_pop = Queue.pop C m.high_priority_queue tags in
      let low_pop = Queue.pop C m.low_priority_queue tags in
      (
        λ h. Popped-NothingFits p (cc),
        λ (rejected, others).
            let (y, _) = pop-none C m.high_priority_queue tags rejected in
            let (z, _) = pop-none C m.low_priority_queue tags others in
            rw (
              pop_high-none m tags high_pop y,
              pop_low_lem (record m { high_priority_queue = high_pop.1 }) low_pop none z,
            ),
      )

  -- The item that is returned stood in one of the queues.
  pub Popped-item :
      {tags : Tags.Tags} {m n : InternalQueueManager C} {item : QueueItem U T}
      → Popped tags m n (some item)
      → (Mem item (high_items m) × (QueueItem.can_be_handled_by item tags ≡ true))
        ⊎ (Mem item (low_items m)
            × (QueueItem.can_be_handled_by item tags ≡ true)
            × AllRejected tags (high_items m))
  Popped-item (from_high fits kept same) = inl ((Perm.mem_iff kept).1 mem-cons_self, fits)
  Popped-item (from_low rejected fits kept gone) =
      inr ((Perm.mem_iff kept).1 mem-cons_self, fits, rejected)

  -- A pop brings no item into a queue.
  pub Popped-high :
      {tags : Tags.Tags} {m n : InternalQueueManager C} {found : Option (QueueItem U T)}
      → Popped tags m n found
      → (x : QueueItem U T) → Mem x (high_items n)
      → Mem x (high_items m)
  Popped-high (from_high {item} fits kept same) x h = (Perm.mem_iff kept).1 (mem-cons_of_mem item h)
  Popped-high (from_low rejected fits kept gone) x h = absurd (not-mem-nil (subst (Mem x) gone h))
  Popped-high (nothing rejected others gone empty) x h = absurd (not-mem-nil (subst (Mem x) gone h))

  pub Popped-low :
      {tags : Tags.Tags} {m n : InternalQueueManager C} {found : Option (QueueItem U T)}
      → Popped tags m n found
      → (x : QueueItem U T) → Mem x (low_items n)
      → Mem x (low_items m)
  Popped-low (from_high fits kept same) x h = subst (Mem x) same h
  Popped-low (from_low {item} rejected fits kept gone) x h =
      (Perm.mem_iff kept).1 (mem-cons_of_mem item h)
  Popped-low (nothing rejected others gone empty) x h = absurd (not-mem-nil (subst (Mem x) empty h))
