-- ===== src/Tests/PlaceTests.antt =====
-- Tests of interleaved calls of src/queue_server.rs.
use mathlib.Core.HLevel.{⊥_prop}
use mathlib.Core.Logic.Or
use mathlib.Core.List.{Mem, Nodup, mem-cons, not-mem-nil}
use brqueue.Base.{ℕ, ◌≡◌, refl, none, [], ◌∷◌, nat_eq, string_eq, arith}
use brqueue.Models.{low}
use brqueue.Models.Tags
use brqueue.Models.QueueItem
use brqueue.Queue
use brqueue.Std.HashMap
use brqueue.Std.Mutex
use brqueue.QueueServer.Manager
use brqueue.QueueServer.Operations.{
  QueueServer, new_server, new_with_filename, enqueue, after_save, add_item_to_queue, pop_queue,
}
use brqueue.QueueServer.Delivery.{in_process}
use brqueue.QueueServer.Exclusive.{Reach, enqueues, takes, here, next}
use brqueue.QueueServer.Exclusive.AtMostOnce.{reachable-exclusive, pop_queue-exclusive}
use brqueue.Tests.Support.{Item, memory, runtime}

abbrev started : QueueServer (runtime memory)
started = new_server (runtime memory) []

abbrev job : ℕ → Item
job id = record {
  payload = "x";
  required_tags = record { inner = "a" ∷ [] };
  id = id;
  priority = low;
}

-- Two jobs are saved and queued.
abbrev two : QueueServer (runtime memory)
two = record started {
  queue = record { high_priority_queue = []; low_priority_queue = job 4 ∷ job 5 ∷ [] };
  file_manager = Mutex.new (job 4 ∷ job 5 ∷ []);
}

-- A pop has the first in hand, or has noted it.
abbrev one : QueueServer (runtime memory)
one = record two { queue = record { high_priority_queue = []; low_priority_queue = job 5 ∷ [] } }

not_four : ¬ Mem {A = ℕ} 5 (4 ∷ [])
not_four m =
    Or.elim ⊥_prop (mem-cons.0 m) (λ e. let f : Path ℕ 5 4 = e in omega arith) (λ n. not-mem-nil n)

abbrev queueing :
    Reach
      (runtime memory)
      (record { server = started; hands = [] })
      (record { server = two; hands = [] })
unfolding enqueue after_save add_item_to_queue Manager.enqueue Queue.enqueue Manager.new Queue.new
    Tags.from QueueItem.new string_eq
queueing =
    next (next here (enqueues 4 "x" low ("a" ∷ []) [] not-mem-nil refl))
      (enqueues 5 "x" low ("a" ∷ []) [] not_four refl)

abbrev taking :
    Reach
      (runtime memory)
      (record { server = started; hands = [] })
      (record { server = one; hands = job 4 ∷ [] })
unfolding pop_queue string_eq Manager.pop Manager.pop_high Queue.pop QueueItem.can_be_handled_by
    Tags.from
taking = next queueing (takes ("a" ∷ []))

reachable-exclusive_example : Nodup {A = ℕ} (4 ∷ 5 ∷ [])
unfolding new_with_filename
reachable-exclusive_example =
    reachable-exclusive (runtime memory) "tasks" started
      (record { server = one; hands = job 4 ∷ [] }) refl taking

pop_queue-exclusive_example :
    (¬ Mem {A = ℕ} 5 (4 ∷ [])) × (in_process (runtime memory) one 5 ≡ none)
unfolding new_with_filename pop_queue string_eq Manager.pop Manager.pop_high Queue.pop
    QueueItem.can_be_handled_by Tags.from HashMap.get
pop_queue-exclusive_example =
    pop_queue-exclusive (runtime memory) "tasks" started
      (record { server = one; hands = job 4 ∷ [] }) refl taking ("a" ∷ []) (job 5) refl
