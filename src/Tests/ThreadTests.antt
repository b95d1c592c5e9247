-- ===== src/Tests/ThreadTests.antt =====
-- Tests of the interleaved operations of src/queue.rs.
use mathlib.Core.HLevel.{⊥_prop}
use mathlib.Core.Logic.Or
use mathlib.Core.List.{Perm, Nodup, Mem, mem-cons, not-mem-nil}
use mathlib.Mathlib.Data.List.Nodup
use brqueue.Base.{ℕ, String, arith, ap, ◌≡◌, refl, none, some, List, [], ◌∷◌, ◌++◌, ok, string_eq}
use brqueue.Models.{high}
use brqueue.Models.Tags
use brqueue.Models.Tags.{Tags}
use brqueue.Models.QueueItem.{can_be_handled_by}
use brqueue.Queue
use brqueue.Queue.{Queue}
use brqueue.Queue.Threads.{
  Call, Thread, receiving, sending, popped, enqueueing, enqueued, thread_step, call, calls, moves,
  Reach, start, next,
}
use brqueue.Queue.Threads.Conserved.{reach-conserved}
use brqueue.Queue.Threads.Alone.{Steps, Agrees, call_alone}
use brqueue.Queue.Threads.Outcomes.{reach-lossless, reach-at_most_once}
use brqueue.Queue.Threads.Races.{At, pops-crossed}
use brqueue.Tests.Support.{Item, channel, item}

abbrev a : Item
a = item 1 "a" high

abbrev b : Item
b = item 2 "b" high

abbrev wants_a : Tags
wants_a = Tags.from ("a" ∷ [])

abbrev wants_b : Tags
wants_b = Tags.from ("b" ∷ [])

-- A pop has returned `b`, after it put `a` back, and another pop has `a` in hand.
abbrev threads : List (Thread ℕ String)
threads = enqueued ∷ enqueued ∷ popped (some b) [] ∷ receiving wants_b (a ∷ []) ∷ []

abbrev filled :
    Reach channel (b ∷ a ∷ []) (record { queue = a ∷ b ∷ []; threads = enqueued ∷ enqueued ∷ [] })
unfolding thread_step
filled =
    next
      (next (next (next start (calls (Call.enqueue a))) (moves [] (enqueueing a) [] refl))
        (calls (Call.enqueue b)))
      (moves (enqueued ∷ []) (enqueueing b) [] refl)

abbrev two_done : List (Thread ℕ String)
two_done = enqueued ∷ enqueued ∷ []

abbrev busy : Reach channel (b ∷ a ∷ []) (record { queue = []; threads = threads })
unfolding thread_step Tags.from can_be_handled_by string_eq
busy =
    next
      (next
        (next
          (next
            (next
              (next (next filled (calls (Call.pop wants_b)))
                (moves two_done (receiving wants_b []) [] refl))
              (moves two_done (receiving wants_b (a ∷ [])) [] refl))
            (moves two_done (sending b (a ∷ [])) [] refl))
          (moves two_done (sending b []) [] refl))
        (calls (Call.pop wants_b)))
      (moves (two_done ++ popped (some b) [] ∷ []) (receiving wants_b []) [] refl)

different : Nodup (b ∷ a ∷ [])
different =
    Nodup.cons
      (λ m.
        Or.elim ⊥_prop (mem-cons.0 m) (λ e. let ids : 2 ≡ 1 = ap (λ x. x.id) e in omega arith)
          (λ n. not-mem-nil n))
      (Nodup.Nodup-singleton a)

reach-conserved_example : Perm (b ∷ a ∷ []) (b ∷ a ∷ [])
reach-conserved_example = reach-conserved channel busy

reach-lossless_example : Perm (b ∷ a ∷ []) (b ∷ a ∷ [])
reach-lossless_example = reach-lossless channel busy (tt, (tt, (tt, (tt, tt))))

reach-at_most_once_example : ¬ Mem b (a ∷ [])
reach-at_most_once_example =
    reach-at_most_once channel busy different two_done b [] (receiving wants_b (a ∷ []) ∷ []) refl

call_alone_example :
    (end : Queue channel × Thread ℕ String) × Steps channel
      (a ∷ b ∷ [], call (Call.pop wants_b))
      end
    × Agrees channel (Call.pop wants_b) (a ∷ b ∷ []) end
call_alone_example = call_alone channel (a ∷ b ∷ []) (Call.pop wants_b)

pops-crossed_example :
    ((Queue.pop channel (a ∷ b ∷ []) wants_b).0 ≡ ok (some b))
    × ((Queue.pop channel (Queue.pop channel (a ∷ b ∷ []) wants_b).1 wants_a).0 ≡ ok (some a))
    × At channel
        (b ∷ a ∷ [])
        (enqueued ∷ enqueued ∷ popped none (a ∷ []) ∷ popped none (b ∷ []) ∷ [])
        []
unfolding Tags.from can_be_handled_by string_eq
pops-crossed_example =
    pops-crossed channel a b wants_b wants_a (a ∷ b ∷ []) refl refl refl refl refl
