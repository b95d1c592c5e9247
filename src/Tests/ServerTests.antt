-- ===== src/Tests/ServerTests.antt =====
-- Tests of the server of src/queue_server.rs.
use mathlib.Core.List.{Mem, mem-cons, not-mem-nil}
use mathlib.Core.Logic.Or
use brqueue.Base.{
  ◌⊎◌, ℕ, String, ◌≡◌, refl, ap, ◌∙◌, ◌↔◌, true, false, Option, none, some, [], ◌∷◌, ok, string_eq,
  nat_eq, All, if◌then◌else◌, ◌==◌, ℕ_discrete,
}
use brqueue.Std.Mutex
use brqueue.Models.{Priority, low, high}
use brqueue.Models.Tags
use brqueue.Models.QueueItem
use brqueue.Models.Routing.{can_be_handled_by_iff}
use brqueue.Std.HashMap
use brqueue.Std.HashSet
use brqueue.QueueServer.Manager
use brqueue.QueueServer.Manager.Priorities.{
  Enqueued, Popped, NothingFits, pop-Popped, pop-NothingFits,
}
use brqueue.QueueServer.Operations.{
  QueueServer, new_server, enqueue, pop, fail, wait_loop, elapsed, received, new_with_filename,
}
use brqueue.QueueServer.Enqueue.{Accepted, Refused, enqueue-Accepted}
use brqueue.QueueServer.Delivery.{in_process, noted, given, pop_delivers, fail_requeues}
use brqueue.QueueServer.Waiting.{IsQuiet, wait_loop-none_iff, wait_ignores_capabilities}
use brqueue.QueueServer.WellFormed.{IsValid}
use brqueue.QueueServer.Reach.{Reach, here, next, pops, fails, enqueues, reachable-IsValid}
use brqueue.Tests.Support.{Item, channel, item, memory, read_only, runtime}

abbrev queues : Manager.InternalQueueManager channel
queues = record {
  high_priority_queue = item 1 "a" high ∷ [];
  low_priority_queue = item 2 "b" low ∷ item 3 "a" low ∷ [];
}

abbrev server : QueueServer (runtime memory)
server = record {
  queue = queues;
  file_manager = Mutex.new [];
  waiting = record { receivers = 0; taken = [] };
  processing = Mutex.new ((7, item 7 "a" high) ∷ []);
}

abbrev broken : QueueServer (runtime read_only)
broken = new_server (runtime read_only) []

can_be_handled_by_iff_example :
    (QueueItem.can_be_handled_by {U = ℕ} {T = String}
        (QueueItem.new 1 "x" (Tags.from ("a" ∷ [])) low)
        (Tags.from ("b" ∷ "a" ∷ []))
      ≡ true)
    ↔ ((tag : String)
        → HashSet.contains ("a" ∷ []) tag ≡ true
        → HashSet.contains ("b" ∷ "a" ∷ []) tag ≡ true)
can_be_handled_by_iff_example = can_be_handled_by_iff 1 "x" low ("a" ∷ []) ("b" ∷ "a" ∷ [])

pop-Popped_example :
    (found : Option Item) × ((Manager.pop channel queues ("b" ∷ [])).0 ≡ ok found)
    × Popped channel (Tags.from ("b" ∷ [])) queues (Manager.pop channel queues ("b" ∷ [])).1 found
pop-Popped_example = pop-Popped channel queues ("b" ∷ [])

pop-NothingFits_example :
    ((Manager.pop channel queues ("c" ∷ [])).0 ≡ ok none)
    ↔ NothingFits channel (Tags.from ("c" ∷ [])) queues
pop-NothingFits_example = pop-NothingFits channel queues ("c" ∷ [])

enqueue-Accepted_example :
    Accepted (runtime memory) server 4 "x" low [] (enqueue (runtime memory) server 4 "x" low [])
    ⊎ Refused (runtime memory) server 4 "x" low [] (enqueue (runtime memory) server 4 "x" low [])
enqueue-Accepted_example = enqueue-Accepted (runtime memory) server 4 "x" low []

pop_delivers_example :
    let t = (pop (runtime memory) server ("b" ∷ []) false []).1 in
    (found : Option Item) × ((pop (runtime memory) server ("b" ∷ []) false []).0 ≡ some (ok found))
    × Popped channel (Tags.from ("b" ∷ [])) queues t.queue found
    × ((id : ℕ)
        → in_process (runtime memory) t id
          ≡ noted (runtime memory) found id (in_process (runtime memory) server id))
pop_delivers_example = pop_delivers (runtime memory) server ("b" ∷ []) [] refl

fail_requeues_example :
    let t = (fail (runtime memory) server 7).1 in
    ((fail (runtime memory) server 7).0 ≡ ok tt)
    × Enqueued channel high queues (item 7 "a" high) t.queue
    × ((j : ℕ)
        → in_process (runtime memory) t j
          ≡ (if 7 == j then none else in_process (runtime memory) server j))
unfolding HashMap.get nat_eq ℕ_discrete
fail_requeues_example = fail_requeues (runtime memory) server 7 (item 7 "a" high) refl refl refl

wait_loop-none_iff_example :
    ((wait_loop (runtime memory) ("c" ∷ []) server (elapsed server ∷ [])).0 ≡ none)
    ↔ All (IsQuiet (runtime memory) ("c" ∷ [])) (elapsed server ∷ [])
wait_loop-none_iff_example =
    wait_loop-none_iff (runtime memory) ("c" ∷ []) server (elapsed server ∷ [])

wait_ignores_capabilities_example :
    pop (runtime memory) server ("c" ∷ []) true (received (item 9 "z" low) server ∷ [])
    ≡ (some (ok (some (item 9 "z" low))), given (runtime memory) server queues (item 9 "z" low))
unfolding Tags.from QueueItem.can_be_handled_by string_eq
wait_ignores_capabilities_example =
    wait_ignores_capabilities (runtime memory) server server ("c" ∷ []) (item 9 "z" low) []
      ((refl, tt), (refl, (refl, tt))) refl refl

abbrev started : QueueServer (runtime memory)
started = new_server (runtime memory) []

abbrev enqueued : QueueServer (runtime memory)
enqueued = (enqueue (runtime memory) started 4 "x" low ("a" ∷ [])).1

abbrev popped : QueueServer (runtime memory)
popped = (pop (runtime memory) enqueued ("a" ∷ []) false []).1

abbrev history : Reach (runtime memory) started (fail (runtime memory) popped 4).1
history = next (next (next here (enqueues 4 "x" low ("a" ∷ []))) (pops ("a" ∷ []) [])) (fails 4)

reachable-IsValid_example : IsValid (runtime memory) (fail (runtime memory) popped 4).1
unfolding new_with_filename
reachable-IsValid_example =
    reachable-IsValid (runtime memory) "tasks" started (fail (runtime memory) popped 4).1 refl
      history

abbrev second : QueueServer (runtime memory)
second = record started {
  queue = record {
    high_priority_queue = item 1 "z" high ∷ [];
    low_priority_queue = item 3 "a" low ∷ [];
  };
}

priority_set : IsSet Priority
priority_set = hlevel

only : (x y : Item) (p : Priority) → y.priority ≡ p → Mem x (y ∷ []) → x.priority ≡ p
only x y p h k =
    Or.elim (priority_set x.priority p) (mem-cons.0 k) (λ here. ap (λ z. z.priority) here ∙ h)
      (λ none_left. absurd (not-mem-nil none_left))

second-IsValid : IsValid (runtime memory) second
unfolding HashMap.get
second-IsValid = record {
  sorted = record {
    all_high = λ x k. only x (item 1 "z" high) high refl k;
    all_low = λ x k. only x (item 3 "a" low) low refl k;
  };
  keyed = λ id x h. cc;
}
