-- ===== src/QueueServer/Manager.antt =====
-- `InternalQueueManager` of src/queue_server.rs: a queue for each priority.
pub mod Priorities
pub mod Arrivals
use brqueue.Base.{String, Option, none, some, List, Result, ok, err}
use brqueue.Channel.{Channel}
use brqueue.Models.{Priority, low, high}
use brqueue.Models.Tags
use brqueue.Models.Tags.{Tags}
use brqueue.Models.QueueItem.{QueueItem}
use brqueue.Queue
use brqueue.Queue.{Queue}
use brqueue.QueueServer.Errors.{Error, queue_corrupted}

module _ {U T : Type 0} (C : Channel (QueueItem U T)) where
  pub record InternalQueueManager : Type 0 where
    pub high_priority_queue : Queue C
    pub low_priority_queue : Queue C

  unfoldable pub new : InternalQueueManager
  unfolding Queue.new
  new = record { high_priority_queue = Queue.new C; low_priority_queue = Queue.new C }

  -- An error of the queue becomes `QueueCorrupted`.
  corrupted : Result Queue.Error (Unit {0}) → Result Error (Unit {0})
  corrupted (ok u) = ok tt
  corrupted (err e) = err queue_corrupted

  -- The `match` on the priority of the item.
  enqueue_at :
      Priority
      → InternalQueueManager
      → QueueItem U T
      → Result Error (Unit {0}) × InternalQueueManager
  unfolding corrupted
  enqueue_at low m item =
      let (r, q) = Queue.enqueue C m.low_priority_queue item in
      (corrupted r, record m { low_priority_queue = q })
  enqueue_at high m item =
      let (r, q) = Queue.enqueue C m.high_priority_queue item in
      (corrupted r, record m { high_priority_queue = q })

  unfoldable pub enqueue :
      InternalQueueManager → QueueItem U T → Result Error (Unit {0}) × InternalQueueManager
  unfolding enqueue_at
  enqueue m item = enqueue_at item.priority m item

  unfoldable pub pop_low :
      InternalQueueManager
      → Result Queue.Error (Option (QueueItem U T)) × Queue C
      → Result Error (Option (QueueItem U T)) × InternalQueueManager
  pop_low m (err e, q) = (err queue_corrupted, record m { low_priority_queue = q })
  pop_low m (ok (some entry), q) = (ok (some entry), record m { low_priority_queue = q })
  pop_low m (ok none, q) = (ok none, record m { low_priority_queue = q })

  -- The low priority queue is tried only if the high priority queue gave nothing.
  unfoldable pub pop_high :
      InternalQueueManager
      → Tags
      → Result Queue.Error (Option (QueueItem U T)) × Queue C
      → Result Error (Option (QueueItem U T)) × InternalQueueManager
  unfolding pop_low
  pop_high m tags (err e, q) = (err queue_corrupted, record m { high_priority_queue = q })
  pop_high m tags (ok (some entry), q) = (ok (some entry), record m { high_priority_queue = q })
  pop_high m tags (ok none, q) =
      pop_low (record m { high_priority_queue = q }) (Queue.pop C m.low_priority_queue tags)

  unfoldable pub pop :
      InternalQueueManager
      → List String
      → Result Error (Option (QueueItem U T)) × InternalQueueManager
  pop m capabilities =
      let tags = Tags.from capabilities in pop_high m tags (Queue.pop C m.high_priority_queue tags)
