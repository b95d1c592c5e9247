-- ===== src/Queue/Threads/Conserved.antt =====
-- Where the items are while calls of the operations of src/queue.rs interleave.
use mathlib.Core.List.{Perm, perm_middle, perm_append_comm}
use mathlib.Core.List.Perm
use brqueue.Base.{
  ◌≡◌, refl, sym, ap, ◌∙◌, ◌⊎◌, inl, inr, none, some, List, [], ◌∷◌, ◌++◌, append-nil, append_assoc,
  Bool-cases,
}
use brqueue.Base.Permutations.{move_to_front, pull_out, swap_middle}
use brqueue.Channel.{Channel}
use brqueue.Models.Tags.{Tags}
use brqueue.Models.QueueItem
use brqueue.Models.QueueItem.{QueueItem}
use brqueue.Queue.{Queue, sent}
use brqueue.Queue.Threads.{
  Call, pop, get_content, enqueue, Thread, receiving, sending, popped, collecting, restoring,
  listed, enqueueing, enqueued, call, arguments, received, collected, thread_step, System, Step,
  calls, moves, Reach, start, next,
}

module _ {U T : Type 0} where
  -- The item that a call of `pop` has returned.
  abbrev pub result : Thread U T → List (QueueItem U T)
  result (popped (some item) _) = item ∷ []
  result _ = []

  -- The items that a call has received, or was given, and has not yet sent or returned.
  abbrev pub in_hand : Thread U T → List (QueueItem U T)
  in_hand (receiving _ failures) = failures
  in_hand (sending item failures) = item ∷ failures
  in_hand (collecting items) = items
  in_hand (restoring _ left) = left
  in_hand (enqueueing item) = item ∷ []
  in_hand _ = []

  -- The items that were freed when a call returned.
  abbrev pub lost : Thread U T → List (QueueItem U T)
  lost (popped _ dropped) = dropped
  lost _ = []

  abbrev pub over : (Thread U T → List (QueueItem U T)) → List (Thread U T) → List (QueueItem U T)
  over part [] = []
  over part (thread ∷ threads) = part thread ++ over part threads

  pub over-append :
      (part : Thread U T → List (QueueItem U T)) (xs ys : List (Thread U T))
      → over part (xs ++ ys) ≡ over part xs ++ over part ys
  over-append part [] ys = refl
  over-append part (x ∷ xs) ys =
      ap (λ items. part x ++ items) (over-append part xs ys)
      ∙ sym (append_assoc (part x) (over part xs) (over part ys))

  abbrev parts : Thread U T → List (QueueItem U T)
  parts thread = result thread ++ (in_hand thread ++ lost thread)

  over-parts :
      (threads : List (Thread U T))
      → Perm
          (over parts threads)
          (over result threads ++ (over in_hand threads ++ over lost threads))
  over-parts [] = Perm.refl []
  over-parts (x ∷ xs) = Perm.trans (Perm.append_left (parts x) (over-parts xs)) (
      Perm.trans
        (swap_middle (result x) (in_hand x ++ lost x) (over result xs)
          (over in_hand xs ++ over lost xs))
        (Perm.append_left (result x ++ over result xs)
          (swap_middle (in_hand x) (lost x) (over in_hand xs) (over lost xs))))

  parts-call : (c : Call U T) → parts (call c) ≡ arguments c
  parts-call (pop capabilities) = refl
  parts-call get_content = refl
  parts-call (enqueue item) = refl

module _ {U T : Type 0} (C : Channel (QueueItem U T)) where
  pub try_recv-cases :
      (q : Queue C)
      → ((C.contents q ≡ []) × (C.try_recv q ≡ none))
        ⊎ ((item : QueueItem U T) × (r : Queue C) × (C.try_recv q ≡ some (item, r))
            × (C.contents q ≡ item ∷ C.contents r))
  try_recv-cases q = from (C.contents q) refl
    where
      from :
          (items : List (QueueItem U T))
          → C.contents q ≡ items
          → ((C.contents q ≡ []) × (C.try_recv q ≡ none))
            ⊎ ((item : QueueItem U T) × (r : Queue C) × (C.try_recv q ≡ some (item, r))
                × (C.contents q ≡ item ∷ C.contents r))
      from [] h = inl (h, C.try_recv-nil q h)
      from (x ∷ items) h =
          let (r, e, c) = C.try_recv-cons q x items h in inr (x, r, e, h ∙ ap (◌∷◌ x) (sym c))

  -- The items of a thread and of the channel together.
  abbrev seen : Queue C × Thread U T → List (QueueItem U T)
  seen (q, thread) = parts thread ++ C.contents q

  sent-perm :
      (q : Queue C) (item : QueueItem U T) (items : List (QueueItem U T))
      → Perm (items ++ C.contents (sent C q (C.send q item)).1) (item ∷ items ++ C.contents q)
  unfolding sent
  sent-perm q item items =
      let (r, e, c) = C.send_lem q item in rw (e, c) (move_to_front item items (C.contents q))

  received-perm :
      (capabilities : Tags) (failures : List (QueueItem U T)) (q : Queue C)
      → Perm (seen (received C capabilities failures q (C.try_recv q))) (failures ++ C.contents q)
  unfolding received
  received-perm capabilities failures q = elim (try_recv-cases q) [
    | inl (h, e) ↦ rw e (Perm.refl (failures ++ C.contents q))
    | inr (item, r, e, c) ↦ elim (Bool-cases (QueueItem.can_be_handled_by item capabilities)) [
      | inl fits ↦
          rw (e, fits, append-nil failures, c) (Perm.symm (perm_middle failures (C.contents r)))
      | inr rejects ↦
          rw
            (
              e,
              rejects,
              append-nil (failures ++ item ∷ []),
              c,
              append_assoc failures (item ∷ []) (C.contents r),
            )
            (Perm.refl (failures ++ item ∷ C.contents r))
    ]
  ]

  collected-perm :
      (items : List (QueueItem U T)) (q : Queue C)
      → Perm (seen (collected C items q (C.try_recv q))) (items ++ C.contents q)
  unfolding collected
  collected-perm items q = elim (try_recv-cases q) [
    | inl (h, e) ↦ rw (e, append-nil items) (Perm.refl (items ++ C.contents q))
    | inr (item, r, e, c) ↦
        rw (e, append-nil (items ++ item ∷ []), c, append_assoc items (item ∷ []) (C.contents r))
          (Perm.refl (items ++ item ∷ C.contents r))
  ]

  thread_step-perm :
      (q : Queue C) (thread : Thread U T)
      → Perm (seen (thread_step C q thread)) (parts thread ++ C.contents q)
  unfolding thread_step
  thread_step-perm q (receiving capabilities failures) =
      rw (append-nil failures) (received-perm capabilities failures q)
  thread_step-perm q (sending item []) = Perm.refl (item ∷ C.contents q)
  thread_step-perm q (sending item (failure ∷ failures)) =
      rw (append-nil failures) (Perm.cons item (sent-perm q failure failures))
  thread_step-perm q (popped none dropped) = Perm.refl (dropped ++ C.contents q)
  thread_step-perm q (popped (some item) dropped) = Perm.refl (item ∷ dropped ++ C.contents q)
  thread_step-perm q (collecting items) = rw (append-nil items) (collected-perm items q)
  thread_step-perm q (restoring items []) = Perm.refl (C.contents q)
  thread_step-perm q (restoring items (item ∷ left)) = rw (append-nil left) (sent-perm q item left)
  thread_step-perm q (listed items) = Perm.refl (C.contents q)
  thread_step-perm q (enqueueing item) = sent-perm q item []
  thread_step-perm q enqueued = Perm.refl (C.contents q)

  step-perm :
      {items : List (QueueItem U T)} {s t : System C}
      → Step C s items t
      → Perm
          (over parts t.threads ++ C.contents t.queue)
          (items ++ (over parts s.threads ++ C.contents s.queue))
  step-perm {s = s} (calls c) =
      rw
        (
          over-append parts s.threads (call c ∷ []),
          parts-call c,
          append-nil (arguments c),
          ← append_assoc (arguments c) (over parts s.threads) (C.contents s.queue),
        )
        (Perm.append_right (C.contents s.queue)
          (perm_append_comm (over parts s.threads) (arguments c)))
  step-perm {s = s} (moves before thread after split) =
      let q = (thread_step C s.queue thread).0 in
      let next = (thread_step C s.queue thread).1 in
      let around = over parts before ++ over parts after in
      rw (split, over-append parts before (next ∷ after), over-append parts before (thread ∷ after))
        (Perm.trans (pull_out (over parts before) (parts next) (over parts after) (C.contents q)) (
          Perm.trans (Perm.append_left around (thread_step-perm s.queue thread)) (
            Perm.symm (
              pull_out (over parts before) (parts thread) (over parts after)
                (C.contents s.queue)))))

  reach-perm :
      {given : List (QueueItem U T)} {s : System C}
      → Reach C given s
      → Perm (over parts s.threads ++ C.contents s.queue) given
  reach-perm start = rw C.contents-unbounded Perm.nil
  reach-perm (next {items = items} r step) =
      Perm.trans (step-perm step) (Perm.append_left items (reach-perm r))

  -- However the calls of `pop`, `get_content` and `enqueue` on a new queue interleave, the items that
  -- calls of `enqueue` were given are, as often as they were given: those that pops have returned,
  -- those that calls have in hand, those that were freed with the locals of a pop, and those in the
  -- queue.
  pub reach-conserved :
      {given : List (QueueItem U T)} {s : System C}
      → Reach C given s
      → Perm given (
          (over result s.threads ++ (over in_hand s.threads ++ over lost s.threads))
          ++ C.contents s.queue)
  reach-conserved {s = s} r = Perm.symm (
      Perm.trans (Perm.append_right (C.contents s.queue) (Perm.symm (over-parts s.threads)))
        (reach-perm r))
