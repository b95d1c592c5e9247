-- ===== src/Queue/Threads/Outcomes.antt =====
-- What interleaved calls of the operations of src/queue.rs can rely on, and what they cannot.
use mathlib.Core.List.{Perm, perm_middle, Nodup, Mem}
use mathlib.Core.List.Perm
use mathlib.Mathlib.Data.List.Nodup
use brqueue.Base.{
  ◌≡◌, refl, ap, subst, ◌∙◌, inl, inr, none, some, List, [], ◌∷◌, ◌++◌, append-nil, All, All-append,
  All-split, Bool-cases,
}
use brqueue.Channel.{Channel}
use brqueue.Models.QueueItem
use brqueue.Models.QueueItem.{QueueItem}
use brqueue.Queue.{Queue}
use brqueue.Queue.Threads.{
  Call, pop, get_content, enqueue, Thread, receiving, sending, popped, collecting, restoring,
  listed, enqueueing, enqueued, call, received, collected, thread_step, System, Step, calls, moves,
  Reach, start, next,
}
use brqueue.Queue.Threads.Conserved.{
  result, in_hand, lost, over, over-append, reach-conserved, try_recv-cases,
}

module _ {U T : Type 0} where
  -- The thread has not returned from a `pop` without an item.
  abbrev pub IsServed : Thread U T → Type 0
  IsServed (popped none _) = ⊥
  IsServed _ = Unit

  -- A pop that returns an item has sent back all its failures.
  abbrev IsTidy : Thread U T → Type 0
  IsTidy (popped (some _) dropped) = dropped ≡ []
  IsTidy _ = Unit

  over-lost :
      (threads : List (Thread U T))
      → All IsTidy threads
      → All IsServed threads
      → over lost threads ≡ []
  over-lost [] tidy served = refl
  over-lost (popped none dropped ∷ threads) tidy served = absurd served.0
  over-lost (popped (some item) dropped ∷ threads) tidy served =
      rw tidy.0 (over-lost threads tidy.1 served.1)
  over-lost (receiving _ _ ∷ threads) tidy served = over-lost threads tidy.1 served.1
  over-lost (sending _ _ ∷ threads) tidy served = over-lost threads tidy.1 served.1
  over-lost (collecting _ ∷ threads) tidy served = over-lost threads tidy.1 served.1
  over-lost (restoring _ _ ∷ threads) tidy served = over-lost threads tidy.1 served.1
  over-lost (listed _ ∷ threads) tidy served = over-lost threads tidy.1 served.1
  over-lost (enqueueing _ ∷ threads) tidy served = over-lost threads tidy.1 served.1
  over-lost (enqueued ∷ threads) tidy served = over-lost threads tidy.1 served.1

  call-IsTidy : (c : Call U T) → IsTidy (call c)
  call-IsTidy (pop capabilities) = tt
  call-IsTidy get_content = tt
  call-IsTidy (enqueue item) = tt

module _ {U T : Type 0} (C : Channel (QueueItem U T)) where
  thread_step-IsTidy :
      (q : Queue C) (thread : Thread U T) → IsTidy thread → IsTidy (thread_step C q thread).1
  unfolding thread_step received collected
  thread_step-IsTidy q (receiving capabilities failures) tidy = elim (try_recv-cases C q) [
    | inl (h, e) ↦ rw e tt
    | inr (item, r, e, c) ↦ elim (Bool-cases (QueueItem.can_be_handled_by item capabilities)) [
      | inl fits ↦ rw (e, fits) tt
      | inr rejects ↦ rw (e, rejects) tt
    ]
  ]
  thread_step-IsTidy q (sending item []) tidy = refl
  thread_step-IsTidy q (sending item (failure ∷ failures)) tidy = tt
  thread_step-IsTidy q (popped none dropped) tidy = tt
  thread_step-IsTidy q (popped (some item) dropped) tidy = tidy
  thread_step-IsTidy q (collecting items) tidy = elim (try_recv-cases C q) [
    | inl (h, e) ↦ rw e tt
    | inr (item, r, e, c) ↦ rw e tt
  ]
  thread_step-IsTidy q (restoring items []) tidy = tt
  thread_step-IsTidy q (restoring items (item ∷ left)) tidy = tt
  thread_step-IsTidy q (listed items) tidy = tt
  thread_step-IsTidy q (enqueueing item) tidy = tt
  thread_step-IsTidy q enqueued tidy = tt

  step-IsTidy :
      {items : List (QueueItem U T)} {s t : System C}
      → Step C s items t
      → All IsTidy s.threads
      → All IsTidy t.threads
  step-IsTidy {s = s} (calls c) tidy =
      All-append IsTidy s.threads (call c ∷ []) tidy (call-IsTidy c, tt)
  step-IsTidy {s = s} (moves before thread after split) tidy =
      let (first, last) =
        All-split IsTidy before (thread ∷ after) (subst (All IsTidy) split tidy) in
      All-append IsTidy before ((thread_step C s.queue thread).1 ∷ after) first
        (thread_step-IsTidy s.queue thread last.0, last.1)

  reach-IsTidy :
      {given : List (QueueItem U T)} {s : System C} → Reach C given s → All IsTidy s.threads
  reach-IsTidy start = tt
  reach-IsTidy (next r step) = step-IsTidy step (reach-IsTidy r)

  -- However the calls on a new queue interleave: as long as no pop has returned without an item, the
  -- items that were given are those that pops have returned, those that calls have in hand and those
  -- in the queue, each as often as it was given.
  pub reach-lossless :
      {given : List (QueueItem U T)} {s : System C}
      → Reach C given s
      → All IsServed s.threads
      → Perm given ((over result s.threads ++ over in_hand s.threads) ++ C.contents s.queue)
  reach-lossless {given} {s} r served =
      subst (λ items. Perm given ((over result s.threads ++ items) ++ C.contents s.queue))
        (ap (λ items. over in_hand s.threads ++ items) (over-lost s.threads (reach-IsTidy r) served)
          ∙ append-nil (over in_hand s.threads))
        (reach-conserved C r)

  -- However the calls on a new queue interleave: if the items that were given are all different, an
  -- item that a pop returned is returned by no other pop, is in the hands of no call and is not in
  -- the queue.
  pub reach-at_most_once :
      {given : List (QueueItem U T)} {s : System C}
      → Reach C given s
      → Nodup given
      → (before : List (Thread U T)) (item : QueueItem U T) (dropped : List (QueueItem U T))
        (after : List (Thread U T))
      → s.threads ≡ before ++ popped (some item) dropped ∷ after
      → ¬ Mem item (
          (over result (before ++ after) ++ (over in_hand s.threads ++ over lost s.threads))
          ++ C.contents s.queue)
  reach-at_most_once {s = s} r different before item dropped after split =
      let returned : over result s.threads ≡ over result before ++ item ∷ over result after =
        ap (over result) split ∙ over-append result before (popped (some item) dropped ∷ after) in
      let all =
        subst
          (λ items.
            Nodup
              ((items ++ (over in_hand s.threads ++ over lost s.threads)) ++ C.contents s.queue))
          returned (Perm.nodup (reach-conserved C r) different) in
      rw (over-append result before after) (
        Nodup.not_mem (
          Perm.nodup
            (Perm.append_right (C.contents s.queue) (
              Perm.append_right (over in_hand s.threads ++ over lost s.threads)
                (perm_middle (over result before) (over result after))))
            all))
