-- ===== src/Queue/Threads/Alone.antt =====
-- A call of an operation of src/queue.rs that no other call interrupts.
use brqueue.Base.{
  ℕ, zero, suc, ◌<◌, ◌≡◌, refl, ap, inl, inr, none, some, List, [], ◌∷◌, ◌++◌, Option, ok, length,
  append_assoc, append-nil, arith, Bool-cases,
}
use brqueue.Channel.{Channel}
use brqueue.Models.Tags.{Tags}
use brqueue.Models.QueueItem
use brqueue.Models.QueueItem.{QueueItem}
use brqueue.Queue.{Queue, sent, send_all, pop_loop, try_iter}
use brqueue.Queue
use brqueue.Queue.Threads.Conserved.{try_recv-cases}
use brqueue.Queue.Threads.{
  Call, pop, get_content, enqueue, Thread, receiving, sending, popped, collecting, restoring,
  listed, enqueued, call, received, collected, thread_step,
}

module _ {U T : Type 0} (C : Channel (QueueItem U T)) where
  -- A thread runs alone: the states that follow each other.
  pub data Steps : Queue C × Thread U T → Queue C × Thread U T → Type 0 where
    here : {s : Queue C × Thread U T} → Steps s s
    step : {s t u : Queue C × Thread U T} → thread_step C s.0 s.1 ≡ t → Steps t u → Steps s u

  trans : {s t u : Queue C × Thread U T} → Steps s t → Steps t u → Steps s u
  trans here k = k
  trans (step e h) k = step e (trans h k)

  sending-Steps :
      (q : Queue C) (item : QueueItem U T) (failures : List (QueueItem U T))
      → Steps (q, sending item failures) (send_all C q failures, popped (some item) [])
  unfolding thread_step send_all
  sending-Steps q item [] = step refl here
  sending-Steps q item (failure ∷ failures) =
      step refl (sending-Steps (sent C q (C.send q failure)).1 item failures)

  restoring-Steps :
      (q : Queue C) (items left : List (QueueItem U T))
      → Steps (q, restoring items left) (send_all C q left, listed items)
  unfolding thread_step send_all
  restoring-Steps q items [] = step refl here
  restoring-Steps q items (item ∷ left) =
      step refl (restoring-Steps (sent C q (C.send q item)).1 items left)

  pop_loop-Steps :
      (capabilities : Tags) (fuel : ℕ) (q : Queue C) (failures : List (QueueItem U T))
      → length (C.contents q) < fuel
      → (result : Option (QueueItem U T)) × (r : Queue C) × (dropped : List (QueueItem U T))
        × (pop_loop C capabilities fuel q failures ≡ some (result, r))
        × Steps (q, receiving capabilities failures) (r, popped result dropped)
  unfolding pop_loop thread_step received
  pop_loop-Steps capabilities zero q failures enough = absurd (omega arith)
  pop_loop-Steps capabilities (suc fuel) q failures enough = elim (try_recv-cases C q) [
    | inl (h, e) ↦ (none, q, failures, ground arith, step (rw e refl) here)
    | inr (item, r, e, c) ↦ elim (Bool-cases (QueueItem.can_be_handled_by item capabilities)) [
      | inl fits ↦ (
        some item,
        send_all C r failures,
        [],
        ground arith,
        step (rw (e, fits) refl) (sending-Steps r item failures),
      )
      | inr rejects ↦
          let (result, s, dropped, f, steps) =
            pop_loop-Steps capabilities fuel r (failures ++ item ∷ [])
              (omega (arith, ap length c)) in
          (result, s, dropped, ground arith, step (rw (e, rejects) refl) steps)
    ]
  ]

  try_iter-Steps :
      (fuel : ℕ) (q : Queue C) (collected_items : List (QueueItem U T))
      → length (C.contents q) < fuel
      → (items : List (QueueItem U T)) × (r : Queue C) × (try_iter C fuel q ≡ some (items, r))
        × Steps
            (q, collecting collected_items)
            (r, restoring (collected_items ++ items) (collected_items ++ items))
  unfolding try_iter thread_step collected
  try_iter-Steps zero q so_far enough = absurd (omega arith)
  try_iter-Steps (suc fuel) q so_far enough = elim (try_recv-cases C q) [
    | inl (h, e) ↦ ([], q, ground arith, step (rw (e, append-nil so_far) refl) here)
    | inr (item, r, e, c) ↦
        let (items, s, f, steps) =
          try_iter-Steps fuel r (so_far ++ item ∷ []) (omega (arith, ap length c)) in
        (
          item ∷ items,
          s,
          ground arith,
          step {t = (r, collecting (so_far ++ item ∷ []))} (rw e refl)
              (rw (← append_assoc so_far (item ∷ []) items) steps),
        )
  ]

  -- What a call returns when the operation runs at once.
  pub Agrees : Call U T → Queue C → Queue C × Thread U T → Type 0
  Agrees (pop capabilities) q (r, thread) =
      (result : Option (QueueItem U T)) × (dropped : List (QueueItem U T)) × (Queue.pop C q
          capabilities
        ≡ (ok result, r))
      × (thread ≡ popped result dropped)
  Agrees get_content q (r, thread) =
      (items : List (QueueItem U T)) × (Queue.get_content C q ≡ (ok items, r))
      × (thread ≡ listed items)
  Agrees (enqueue item) q (r, thread) = (Queue.enqueue C q item ≡ (ok tt, r)) × (thread ≡ enqueued)

  -- A call of `pop`, `get_content` or `enqueue` that no other call interrupts ends after some steps,
  -- with the queue and the result of the operation.
  pub call_alone :
      (q : Queue C) (c : Call U T)
      → (end : Queue C × Thread U T) × Steps (q, call c) end × Agrees c q end
  unfolding Agrees thread_step sent Queue.pop Queue.get_content Queue.enqueue
  call_alone q (pop capabilities) =
      let (result, r, dropped, e, steps) =
        pop_loop-Steps capabilities (suc (length (C.contents q))) q [] (omega arith) in
      ((r, popped result dropped), steps, (result, dropped, rw e refl, refl))
  call_alone q get_content =
      let (items, r, e, steps) = try_iter-Steps (suc (length (C.contents q))) q [] (omega arith) in
      (
        (send_all C r items, listed items),
        trans steps (restoring-Steps r items items),
        (items, rw e refl, refl),
      )
  call_alone q (enqueue item) =
      let (r, e, c) = C.send_lem q item in ((r, enqueued), step (rw e refl) here, (rw e refl, refl))
