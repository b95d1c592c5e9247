-- ===== src/QueueServer/WellFormed.antt =====
-- The invariant of a queue server of src/queue_server.rs, over every sequence of its operations.
use mathlib.Core.List.{Mem, mem-append, mem-cons, not-mem-nil}
use mathlib.Core.Logic.Or
use brqueue.Base.{
  ℕ, zero, suc, ◌<◌, String, ◌≡◌, refl, ap, ◌∙◌, subst, ◌⊎◌, inl, inr, some, List, [], ◌∷◌, ◌++◌,
  Option, Result, ok, err, Eq, arith, Bool-cases,
}
use brqueue.Std.Mutex
use brqueue.Models.{Priority, low, high}
use brqueue.Models.Tags
use brqueue.Models.QueueItem.{QueueItem}
use brqueue.QueueServer.Manager.{InternalQueueManager}
use brqueue.QueueServer.Manager.Priorities.{
  high_items, low_items, Enqueued, Popped, Popped-high, Popped-low,
}
use brqueue.QueueServer.Runtime.{Runtime}
use brqueue.QueueServer.Operations.{QueueServer, add_item_to_queue, after_save, enqueue}
use brqueue.FileManager
use brqueue.QueueServer.Enqueue.{queued, add_item_to_queue_full, add_item_to_queue_sent}
use brqueue.QueueServer.Delivery.{in_process}

priority_set : IsSet Priority
priority_set = hlevel

pub zero_or_positive : (n : ℕ) → (n ≡ 0) ⊎ (0 < n)
zero_or_positive zero = inl refl
zero_or_positive (suc n) = inr (omega arith)

module _ {U T : Type 0} ⦃e : Eq U⦄ (R : Runtime U T) where
  -- Each queue holds the items of its own priority.
  pub record IsSorted (m : InternalQueueManager R.channel) : Type 0 where
    pub all_high : (x : QueueItem U T) → Mem x (high_items R.channel m) → x.priority ≡ high
    pub all_low : (x : QueueItem U T) → Mem x (low_items R.channel m) → x.priority ≡ low

  -- And what is being processed stands under its own identifier.
  pub record IsValid (s : QueueServer R) : Type 0 where
    pub sorted : IsSorted s.queue
    pub keyed : (id : U) (x : QueueItem U T) → in_process R s id ≡ some x → x.id ≡ id

  mem-snoc :
      (x y : QueueItem U T) (l : List (QueueItem U T)) (p : Priority)
      → y.priority ≡ p
      → ((z : QueueItem U T) → Mem z l → z.priority ≡ p)
      → Mem x (l ++ y ∷ [])
      → x.priority ≡ p
  mem-snoc x y l p h k m = Or.elim (priority_set x.priority p) (mem-append.0 m) (k x) (λ last.
      Or.elim (priority_set x.priority p) (mem-cons.0 last) (λ here. ap (λ z. z.priority) here ∙ h)
        (λ none_left. absurd (not-mem-nil none_left)))

  Enqueued-IsSorted :
      (p : Priority) (m n : InternalQueueManager R.channel) (item : QueueItem U T)
      → item.priority ≡ p
      → IsSorted m
      → Enqueued R.channel p m item n
      → IsSorted n
  Enqueued-IsSorted low m n item h s (same, grown) = record {
    all_high = λ x k. s.all_high x (subst (Mem x) same k);
    all_low =
        λ x k. mem-snoc x item (low_items R.channel m) low h s.all_low (subst (Mem x) grown k);
  }
  Enqueued-IsSorted high m n item h s (grown, same) = record {
    all_high =
        λ x k. mem-snoc x item (high_items R.channel m) high h s.all_high (subst (Mem x) grown k);
    all_low = λ x k. s.all_low x (subst (Mem x) same k);
  }

  pub Popped-IsSorted :
      {tags : Tags.Tags} {m n : InternalQueueManager R.channel} {found : Option (QueueItem U T)}
      → Popped R.channel tags m n found
      → IsSorted m
      → IsSorted n
  Popped-IsSorted p s = record {
    all_high = λ x k. s.all_high x (Popped-high R.channel p x k);
    all_low = λ x k. s.all_low x (Popped-low R.channel p x k);
  }

  pub add_item_to_queue-IsValid :
      (s : QueueServer R) (item : QueueItem U T)
      → IsValid s
      → IsValid (add_item_to_queue R s item).1
  add_item_to_queue-IsValid s item v = elim (zero_or_positive (R.rendezvous.ready s.waiting)) [
    | inl idle ↦
        let (x, c) = add_item_to_queue_full R s item idle in
        rw x (record {
          sorted =
              Enqueued-IsSorted item.priority s.queue (queued R s item).queue item refl v.sorted c;
          keyed = v.keyed;
        })
    | inr busy ↦
        let (w, x, _) = add_item_to_queue_sent R s item busy in
        rw x (record { sorted = v.sorted; keyed = v.keyed })
  ]

  after_save-IsValid :
      (s : QueueServer R) (item : QueueItem U T)
      (r : Result FileManager.Error (Unit {0}) × R.storage.State)
      → IsValid s
      → IsValid (after_save R s item r).1
  unfolding after_save
  after_save-IsValid s item (err x, f) v = record { sorted = v.sorted; keyed = v.keyed }
  after_save-IsValid s item (ok u, f) v =
      add_item_to_queue-IsValid (record s { file_manager = Mutex.write s.file_manager f }) item
        (record { sorted = v.sorted; keyed = v.keyed })

  pub enqueue-IsValid :
      (s : QueueServer R) (id : U) (message : T) (priority : Priority) (capabilities : List String)
      → IsValid s
      → IsValid (enqueue R s id message priority capabilities).1
  unfolding enqueue
  enqueue-IsValid s id message priority capabilities v = elim (Bool-cases s.file_manager.poisoned) [
    | inl poisoned ↦ rw (poisoned, enqueue) v
    | inr sound ↦ rw (sound, enqueue) (after_save-IsValid s _ _ v)
  ]
