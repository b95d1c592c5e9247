-- ===== src/Queue/Threads.antt =====
-- The operations of src/queue.rs as threads that share one channel, one access of it a step.
pub mod Conserved
pub mod Alone
pub mod Outcomes
pub mod Races
use brqueue.Base.{Option, none, some, List, [], ◌∷◌, ◌++◌, ◌≡◌, if◌then◌else◌}
use brqueue.Channel.{Channel}
use brqueue.Models.Tags.{Tags}
use brqueue.Models.QueueItem
use brqueue.Models.QueueItem.{QueueItem}
use brqueue.Queue.{Queue, sent}

-- A call of an operation, with its arguments.
pub data Call (U T : Type 0) : Type 0 where
  pop : (capabilities : Tags) → Call U T
  get_content : Call U T
  enqueue : (item : QueueItem U T) → Call U T

-- Where a call stands, with the local variables that are live there.
pub data Thread (U T : Type 0) : Type 0 where
  -- `pop`, before a `try_recv`
  receiving : (capabilities : Tags) (failures : List (QueueItem U T)) → Thread U T
  -- `pop`, before it sends the next failure or returns `q`
  sending : (q : QueueItem U T) (failures : List (QueueItem U T)) → Thread U T
  -- `pop` has returned; `dropped` are the failures that were freed with its locals.
  popped : (result : Option (QueueItem U T)) (dropped : List (QueueItem U T)) → Thread U T
  -- `get_content`, in `try_iter().collect()`
  collecting : (items : List (QueueItem U T)) → Thread U T
  -- `get_content`, with the items that are still to be sent
  restoring : (items left : List (QueueItem U T)) → Thread U T
  listed : (items : List (QueueItem U T)) → Thread U T
  -- `enqueue`, before its `send`
  enqueueing : (item : QueueItem U T) → Thread U T
  enqueued : Thread U T

module _ {U T : Type 0} where
  abbrev pub call : Call U T → Thread U T
  call (pop capabilities) = receiving capabilities []
  call get_content = collecting []
  call (enqueue item) = enqueueing item

  abbrev pub arguments : Call U T → List (QueueItem U T)
  arguments (enqueue item) = item ∷ []
  arguments _ = []

module _ {U T : Type 0} (C : Channel (QueueItem U T)) where
  unfoldable pub received :
      Tags
      → List (QueueItem U T)
      → Queue C
      → Option (QueueItem U T × Queue C)
      → Queue C × Thread U T
  received capabilities failures q none = (q, popped none failures)
  received capabilities failures q (some (item, r)) =
      if QueueItem.can_be_handled_by item capabilities
      then (r, sending item failures)
      else (r, receiving capabilities (failures ++ item ∷ []))

  unfoldable pub collected :
      List (QueueItem U T) → Queue C → Option (QueueItem U T × Queue C) → Queue C × Thread U T
  collected items q none = (q, restoring items items)
  collected items q (some (item, r)) = (r, collecting (items ++ item ∷ []))

  -- One step of a thread. A thread that has returned stays as it is.
  unfoldable pub thread_step : Queue C → Thread U T → Queue C × Thread U T
  unfolding received collected sent
  thread_step q (receiving capabilities failures) = received capabilities failures q (C.try_recv q)
  thread_step q (sending item []) = (q, popped (some item) [])
  thread_step q (sending item (failure ∷ failures)) =
      ((sent C q (C.send q failure)).1, sending item failures)
  thread_step q (collecting items) = collected items q (C.try_recv q)
  thread_step q (restoring items []) = (q, listed items)
  thread_step q (restoring items (item ∷ left)) =
      ((sent C q (C.send q item)).1, restoring items left)
  thread_step q (enqueueing item) = ((sent C q (C.send q item)).1, enqueued)
  thread_step q thread = (q, thread)

  -- The channel, and the calls that were made, in their order.
  pub record System : Type 0 where
    pub queue : Queue C
    pub threads : List (Thread U T)

  abbrev pub init : System
  init = record { queue = C.unbounded; threads = [] }

  -- A step calls an operation, with the items it is given, or moves a thread on.
  pub data Step (s : System) : List (QueueItem U T) → System → Type 0 where
    calls : (c : Call U T) → Step s (arguments c) (record s { threads = s.threads ++ call c ∷ [] })
    moves :
        (before : List (Thread U T)) (thread : Thread U T) (after : List (Thread U T))
        → s.threads ≡ before ++ thread ∷ after
        → Step s [] (record {
          queue = (thread_step s.queue thread).0;
          threads = before ++ (thread_step s.queue thread).1 ∷ after;
        })

  -- The states that a new queue reaches under any interleaving, with the items it was given,
  -- the last first.
  pub data Reach : List (QueueItem U T) → System → Type 0 where
    start : Reach [] init
    next :
        {given items : List (QueueItem U T)} {s t : System}
        → Reach given s
        → Step s items t
        → Reach (items ++ given) t
