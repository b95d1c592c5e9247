-- ===== src/Queue/Threads/Races.antt =====
-- Pops of src/queue.rs that get in each other's way.
use brqueue.Base.{◌≡◌, refl, ap, ◌∙◌, true, false, none, some, List, [], ◌∷◌, ◌++◌, ok}
use brqueue.Channel.{Channel}
use brqueue.Models.Tags.{Tags}
use brqueue.Models.QueueItem
use brqueue.Models.QueueItem.{QueueItem}
use brqueue.Queue.{Queue, sent}
use brqueue.Queue
use brqueue.Queue.Order.{pop-found}
use brqueue.Queue.Threads.{
  Call, pop, enqueue, Thread, receiving, popped, enqueueing, enqueued, call, arguments, received,
  thread_step, System, calls, moves, Reach, start, next,
}

module _ {U T : Type 0} (C : Channel (QueueItem U T)) where
  -- A state that can be reached, up to the state of the channel.
  pub record At (given : List (QueueItem U T)) (threads : List (Thread U T))
      (items : List (QueueItem U T)) : Type 0 where
    pub system : System C
    pub reached : Reach C given system
    pub same_threads : system.threads ≡ threads
    pub same_items : C.contents system.queue ≡ items

  At-start : At [] [] []
  At-start = record {
    system = _;
    reached = start;
    same_threads = refl;
    same_items = C.contents-unbounded;
  }

  At-call :
      {given : List (QueueItem U T)} {threads : List (Thread U T)} {items : List (QueueItem U T)}
      (c : Call U T)
      → At given threads items
      → At (arguments c ++ given) (threads ++ call c ∷ []) items
  At-call c a = record {
    system = _;
    reached = next a.reached (calls c);
    same_threads = ap (λ threads. threads ++ call c ∷ []) a.same_threads;
    same_items = a.same_items;
  }

  -- What a thread does on a channel with the items `items`.
  Does : List (QueueItem U T) → Thread U T → List (QueueItem U T) → Thread U T → Type 0
  Does items thread left after =
      (q : Queue C)
      → C.contents q ≡ items
      → (r : Queue C) × (thread_step C q thread ≡ (r, after)) × (C.contents r ≡ left)

  At-move :
      {given : List (QueueItem U T)} {items left : List (QueueItem U T)}
      (before : List (Thread U T)) (thread becomes : Thread U T) (after : List (Thread U T))
      → Does items thread left becomes
      → At given (before ++ thread ∷ after) items
      → At given (before ++ becomes ∷ after) left
  unfolding Does
  At-move before thread becomes after does a =
      let (r, e, c) = does a.system.queue a.same_items in
      record {
        system = _;
        reached = next a.reached (moves before thread after a.same_threads);
        same_threads = rw e refl;
        same_items = rw e c;
      }

  Does-enqueue :
      (items : List (QueueItem U T)) (item : QueueItem U T)
      → Does items (enqueueing item) (items ++ item ∷ []) enqueued
  unfolding Does thread_step sent
  Does-enqueue items item q h =
      let (r, e, c) = C.send_lem q item in (r, rw e refl, c ∙ ap (λ items. items ++ item ∷ []) h)

  Does-reject :
      (item : QueueItem U T) (items : List (QueueItem U T)) (capabilities : Tags)
      (failures : List (QueueItem U T))
      → QueueItem.can_be_handled_by item capabilities ≡ false
      → Does
          (item ∷ items)
          (receiving capabilities failures)
          items
          (receiving capabilities (failures ++ item ∷ []))
  unfolding Does thread_step received
  Does-reject item items capabilities failures rejects q h =
      let (r, e, c) = C.try_recv-cons q item items h in (r, rw (e, rejects) refl, c)

  Does-give_up :
      (capabilities : Tags) (failures : List (QueueItem U T))
      → Does [] (receiving capabilities failures) [] (popped none failures)
  unfolding Does thread_step received
  Does-give_up capabilities failures q h = let e = C.try_recv-nil q h in (q, rw e refl, h)

  crossed :
      (a b : QueueItem U T) (x y : Tags)
      → QueueItem.can_be_handled_by a x ≡ false
      → QueueItem.can_be_handled_by b y ≡ false
      → At (b ∷ a ∷ []) (enqueued ∷ enqueued ∷ popped none (a ∷ []) ∷ popped none (b ∷ []) ∷ []) []
  crossed a b x y rejects_a rejects_b =
      At-move (enqueued ∷ enqueued ∷ popped none (a ∷ []) ∷ []) _ _ [] (Does-give_up y (b ∷ [])) (
        At-move (enqueued ∷ enqueued ∷ []) _ _ (receiving y (b ∷ []) ∷ []) (Does-give_up x (a ∷ []))
          (At-move (enqueued ∷ enqueued ∷ receiving x (a ∷ []) ∷ []) _ _ []
            (Does-reject b [] y [] rejects_b)
            (At-move (enqueued ∷ enqueued ∷ []) _ _ (receiving y [] ∷ [])
              (Does-reject a (b ∷ []) x [] rejects_a) (At-call (pop y) (At-call (pop x) both)))))
    where
      both : At (b ∷ a ∷ []) (enqueued ∷ enqueued ∷ []) (a ∷ b ∷ [])
      both = At-move (enqueued ∷ []) _ _ [] (Does-enqueue (a ∷ []) b) (
          At-call (enqueue b)
            (At-move [] _ _ [] (Does-enqueue [] a) (At-call (enqueue a) At-start)))

  -- Suppose that a consumer with the capabilities `x` can handle the item `b` and not `a`, and one
  -- with `y` can handle `a` and not `b`. From any queue of `a` and `b`, a pop with `x` and then one
  -- with `y` return `b` and `a`. But once a new queue was given `a` and `b`, the steps of the two
  -- pops can interleave so that both return without an item, and both items are freed.
  pub pops-crossed :
      (a b : QueueItem U T) (x y : Tags) (q : Queue C)
      → QueueItem.can_be_handled_by a x ≡ false
      → QueueItem.can_be_handled_by b x ≡ true
      → QueueItem.can_be_handled_by b y ≡ false
      → QueueItem.can_be_handled_by a y ≡ true
      → C.contents q ≡ a ∷ b ∷ []
      → ((Queue.pop C q x).0 ≡ ok (some b))
        × ((Queue.pop C (Queue.pop C q x).1 y).0 ≡ ok (some a))
        × At
            (b ∷ a ∷ [])
            (enqueued ∷ enqueued ∷ popped none (a ∷ []) ∷ popped none (b ∷ []) ∷ [])
            []
  pops-crossed a b x y q rejects_a fits_b rejects_b fits_a h =
      let (e, c) = pop-found C q x (a ∷ []) b [] h (rejects_a, tt) fits_b in
      (
        e,
        (pop-found C (Queue.pop C q x).1 y [] a [] c tt fits_a).0,
        crossed a b x y rejects_a rejects_b,
      )
