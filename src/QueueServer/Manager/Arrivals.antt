-- ===== src/QueueServer/Manager/Arrivals.antt =====
-- What a pop of the pair of priority queues of src/queue_server.rs makes of an item that has just come
-- in.
use brqueue.Base.{String, ◌≡◌, refl, sym, subst, true, some, List, [], ok}
use brqueue.Channel.{Channel}
use brqueue.Models.{Priority, low, high}
use brqueue.Models.Tags
use brqueue.Models.QueueItem
use brqueue.Models.QueueItem.{QueueItem}
use brqueue.Queue
use brqueue.Queue.Order.{AllRejected, pop-found, pop-none}
use brqueue.QueueServer.Manager.{InternalQueueManager, pop}
use brqueue.QueueServer.Manager.Priorities.{
  Enqueued, NothingFits, high_items, low_items, pop_low_lem, pop_high-found, pop_high-none,
}

module _ {U T : Type 0} (C : Channel (QueueItem U T)) where
  -- If nothing in the two queues fits, an item that does and is then enqueued is the one that a pop
  -- returns, whatever its priority.
  pub pop-Enqueued :
      (p : Priority) (m n : InternalQueueManager C) (item : QueueItem U T)
      (capabilities : List String)
      → Enqueued C p m item n
      → NothingFits C (Tags.from capabilities) m
      → QueueItem.can_be_handled_by item (Tags.from capabilities) ≡ true
      → (pop C n capabilities).0 ≡ ok (some item)
  unfolding pop
  pop-Enqueued high m n item capabilities (h, l) (rejected, others) fits =
      let tags = Tags.from capabilities in
      let (e, _) =
        pop-found C n.high_priority_queue tags (high_items C m) item [] h rejected fits in
      rw (pop_high-found C n tags (Queue.pop C n.high_priority_queue tags) item e) refl
  pop-Enqueued low m n item capabilities (h, l) (rejected, others) fits =
      let tags = Tags.from capabilities in
      let high_pop = Queue.pop C n.high_priority_queue tags in
      let low_pop = Queue.pop C n.low_priority_queue tags in
      let (y, _) =
        pop-none C n.high_priority_queue tags (subst (AllRejected tags) (sym h) rejected) in
      let (z, _) = pop-found C n.low_priority_queue tags (low_items C m) item [] l others fits in
      rw
        (
          pop_high-none C n tags high_pop y,
          pop_low_lem C (record n { high_priority_queue = high_pop.1 }) low_pop (some item) z,
        )
        refl
