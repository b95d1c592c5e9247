-- ===== src/QueueServer/Exclusive/Moves.antt =====
-- Every step of src/queue_server.rs moves items from place to place, and makes no copy.
use mathlib.Core.List.{Perm, perm_middle}
use mathlib.Core.List.Perm
use brqueue.Base.{
  String, ◌≡◌, refl, sym, ◌∙◌, inl, inr, none, some, Option, List, [], ◌∷◌, ◌++◌, Result, ok, err,
  append_assoc, append-nil, Eq, Bool-cases,
}
use brqueue.Base.Permutations.{
  move_to_front, Within, Within-of_perm, Within-refl, Within-right, Within-trans, Within-append,
}
use brqueue.Std.HashMap
use brqueue.Std.Mutex
use brqueue.Models.{Priority, low, high}
use brqueue.Models.Tags
use brqueue.Models.QueueItem.{QueueItem}
use brqueue.QueueServer.Manager
use brqueue.QueueServer.Manager.{InternalQueueManager}
use brqueue.QueueServer.Manager.Priorities.{
  high_items, low_items, Enqueued, Popped, from_high, from_low, nothing, pop-Popped,
}
use brqueue.QueueServer.Runtime.{Runtime}
use brqueue.QueueServer.Operations.{
  QueueServer, add_item_to_queue, after_save, enqueue, pop_queue, note_processing, acknowledge,
  requeue, fail,
}
use brqueue.QueueServer.Enqueue.{queued, add_item_to_queue_full, add_item_to_queue_sent}
use brqueue.FileManager
use brqueue.Models.QueueItem
use brqueue.QueueServer.Delivery.{forgotten}
use brqueue.QueueServer.WellFormed.{zero_or_positive}
use brqueue.QueueServer.Places.{
  map_append, keys, keys-insert, keys-remove, keys-remove_found, names, queued_names, places,
}
use brqueue.QueueServer.Exclusive.{found, Handed}

module _ {A : Type 0} where
  ++_cancel : (xs ys zs : List A) → xs ++ ys ≡ xs ++ zs → ys ≡ zs
  ++_cancel [] ys zs h = h
  ++_cancel (x ∷ xs) ys zs h = ++_cancel xs ys zs (cc)

module _ {U T : Type 0} ⦃e : Eq U⦄ (R : Runtime U T) where
  Popped-Within :
      {tags : Tags.Tags} {m n : InternalQueueManager R.channel} {item : Option (QueueItem U T)}
      → Popped R.channel tags m n item
      → Within (names R (found R (ok item)) ++ queued_names R n) (queued_names R m)
  Popped-Within {m = m} {n = n} (from_high {item} fits kept same) = rw same (
      Within-of_perm (
        Perm.append_right (names R (low_items R.channel m))
          (Perm.symm (Perm.map (λ x. x.id) kept))))
  Popped-Within {m = m} {n = n} (from_low {item} rejected fits kept gone) = rw gone (
      Within-trans (Within-of_perm (Perm.symm (Perm.map (λ x. x.id) kept)))
        (Within-right (names R (high_items R.channel m)) (names R (low_items R.channel m))))
  Popped-Within {m = m} {n = n} (nothing rejected others gone empty) =
      rw (gone, empty)
        (queued_names R m, rw (append-nil (queued_names R m)) (Perm.refl (queued_names R m)))

  Enqueued-Perm :
      (p : Priority) (m n : InternalQueueManager R.channel) (item : QueueItem U T)
      → Enqueued R.channel p m item n
      → Perm (queued_names R n) (item.id ∷ queued_names R m)
  Enqueued-Perm low m n item (same, grown) =
      rw (same, grown, map_append (λ x. x.id) (low_items R.channel m) (item ∷ []))
        (move_to_front item.id (names R (high_items R.channel m)) (names R (low_items R.channel m)))
  Enqueued-Perm high m n item (grown, same) =
      rw
        (
          same,
          grown,
          map_append (λ x. x.id) (high_items R.channel m) (item ∷ []),
          append_assoc (names R (high_items R.channel m)) (item.id ∷ [])
              (names R (low_items R.channel m)),
        )
        (perm_middle (names R (high_items R.channel m)) (names R (low_items R.channel m)))

  pub pop_queue-Within :
      (s : QueueServer R) (capabilities : List String)
      → Within
          (names R (found R (pop_queue R s capabilities).0)
            ++ places R (pop_queue R s capabilities).1)
          (places R s)
  unfolding pop_queue
  pop_queue-Within s capabilities =
      let (item, x, p) = pop-Popped R.channel s.queue capabilities in
      let m = (Manager.pop R.channel s.queue capabilities).1 in
      let k = keys s.processing.value in
      rw (x, ← append_assoc (names R (found R (ok item))) (queued_names R m) k)
        (Within-append (Popped-Within p) (Within-refl k))

  pub note_processing-Within :
      (s : QueueServer R) (item : QueueItem U T)
      → Within (places R (note_processing R (some (ok (some item)), s)).1) (item.id ∷ places R s)
  unfolding note_processing
  note_processing-Within s item = elim (Bool-cases s.processing.poisoned) [
    | inl poisoned ↦ rw (poisoned, note_processing) (Within-right (item.id ∷ []) (places R s))
    | inr sound ↦
        rw (sound, note_processing)
          (Within-trans
            (Within-append (Within-refl (queued_names R s.queue))
              (keys-insert s.processing.value item.id item))
            (Within-of_perm (perm_middle (queued_names R s.queue) (keys s.processing.value))))
  ]

  pub acknowledge-Within :
      (s : QueueServer R) (id : U) → Within (places R (acknowledge R s id).1) (places R s)
  unfolding acknowledge
  acknowledge-Within s id = elim (Bool-cases s.processing.poisoned) [
    | inl poisoned ↦ rw (poisoned, acknowledge) (Within-refl (places R s))
    | inr sound ↦
        rw (sound, acknowledge)
          (Within-append (Within-refl (queued_names R s.queue)) (keys-remove s.processing.value id))
  ]

  -- An item that is queued, or handed to a consumer that waits, goes to one place.
  add_item_to_queue-Within :
      (s : QueueServer R) (item : QueueItem U T) (handed : List (QueueItem U T))
      → Handed R s handed (add_item_to_queue R s item).1
      → Within (names R handed ++ places R (add_item_to_queue R s item).1) (item.id ∷ places R s)
  add_item_to_queue-Within s item handed h =
      elim (zero_or_positive (R.rendezvous.ready s.waiting)) [
        | inl idle ↦
            let (x, c) = add_item_to_queue_full R s item idle in
            let none_handed : [] ≡ handed =
              ++_cancel (R.rendezvous.handed s.waiting) [] handed
                (append-nil (R.rendezvous.handed s.waiting) ∙ rw x at h) in
            rw (x, ← none_handed)
              (Within-of_perm (
                Perm.append_right (keys s.processing.value)
                  (Enqueued-Perm item.priority s.queue (queued R s item).queue item c)))
        | inr busy ↦
            let (w, x, c) = add_item_to_queue_sent R s item busy in
            let one_handed : item ∷ [] ≡ handed =
              ++_cancel (R.rendezvous.handed s.waiting) (item ∷ []) handed (sym c ∙ rw x at h) in
            rw (x, ← one_handed) (Within-refl (item.id ∷ places R s))
      ]

  nothing-Handed :
      (s : QueueServer R) (handed : List (QueueItem U T)) → Handed R s handed s → [] ≡ handed
  nothing-Handed s handed h =
      ++_cancel (R.rendezvous.handed s.waiting) [] handed
        (append-nil (R.rendezvous.handed s.waiting) ∙ h)

  after_save-Within :
      (s : QueueServer R) (item : QueueItem U T)
      (saved : Result FileManager.Error (Unit {0}) × R.storage.State)
      (handed : List (QueueItem U T))
      → Handed R s handed (after_save R s item saved).1
      → Within (names R handed ++ places R (after_save R s item saved).1) (item.id ∷ places R s)
  unfolding after_save
  after_save-Within s item (err x, f) handed h =
      rw (← nothing-Handed s handed h) (Within-right (item.id ∷ []) (places R s))
  after_save-Within s item (ok u, f) handed h =
      add_item_to_queue-Within (record s { file_manager = Mutex.write s.file_manager f }) item
        handed h

  pub enqueue-Within :
      (s : QueueServer R) (id : U) (message : T) (priority : Priority) (capabilities : List String)
      (handed : List (QueueItem U T))
      → Handed R s handed (enqueue R s id message priority capabilities).1
      → Within
          (names R handed ++ places R (enqueue R s id message priority capabilities).1)
          (id ∷ places R s)
  unfolding enqueue QueueItem.new
  enqueue-Within s id message priority capabilities handed h =
      elim (Bool-cases s.file_manager.poisoned) [
        | inl poisoned ↦
            rw (poisoned, enqueue, ← nothing-Handed s handed (rw (poisoned, enqueue) at h))
              (Within-right (id ∷ []) (places R s))
        | inr sound ↦
            rw (sound, enqueue) (after_save-Within s _ _ handed (rw (sound, enqueue) at h))
      ]

  requeue-Within :
      (s : QueueServer R) (id : U) (item : Option (QueueItem U T)) (handed : List (QueueItem U T))
      → HashMap.get s.processing.value id ≡ item
      → ((x : QueueItem U T) → HashMap.get s.processing.value id ≡ some x → x.id ≡ id)
      → Handed R s handed (requeue R (forgotten R s id) item).1
      → Within (names R handed ++ places R (requeue R (forgotten R s id) item).1) (places R s)
  unfolding requeue
  requeue-Within s id none handed k keyed h =
      rw (← nothing-Handed s handed h)
        (Within-append (Within-refl (queued_names R s.queue)) (keys-remove s.processing.value id))
  requeue-Within s id (some item) handed k keyed h =
      let q = queued_names R s.queue in
      Within-trans (add_item_to_queue-Within (forgotten R s id) item handed h) (
        rw (keyed item k) (
          Within-trans
            (Within-of_perm
              (Perm.symm (perm_middle q (keys (HashMap.remove s.processing.value id)))))
            (Within-append (Within-refl q) (keys-remove_found s.processing.value id item k))))

  pub fail-Within :
      (s : QueueServer R) (id : U) (handed : List (QueueItem U T))
      → ((x : QueueItem U T) → HashMap.get s.processing.value id ≡ some x → x.id ≡ id)
      → Handed R s handed (fail R s id).1
      → Within (names R handed ++ places R (fail R s id).1) (places R s)
  unfolding fail
  fail-Within s id handed keyed h = elim (Bool-cases s.processing.poisoned) [
    | inl poisoned ↦
        rw (poisoned, fail, ← nothing-Handed s handed (rw (poisoned, fail) at h))
          (Within-refl (places R s))
    | inr sound ↦
        rw (sound, fail)
          (requeue-Within s id (HashMap.get s.processing.value id) handed refl keyed
            (rw (sound, fail) at h))
  ]
