-- ===== src/Models/Routing.antt =====
-- Which consumers an item of src/models.rs is routed to.
use brqueue.Base.{String, ◌≡◌, ◌↔◌, true, List, string_eq}
use brqueue.Std.HashSet
use brqueue.Models.{Priority}
use brqueue.Models.Tags
use brqueue.Models.QueueItem

module _ {U T : Type 0} (id : U) (payload : T) (priority : Priority)
    (required offered : List String) where
  -- A consumer can handle an item exactly when every tag in the list that the item was created with
  -- is in the list of capabilities that the consumer sent, whatever their order and repetitions.
  pub can_be_handled_by_iff :
      (QueueItem.can_be_handled_by
          (QueueItem.new id payload (Tags.from required) priority)
          (Tags.from offered)
        ≡ true)
      ↔ ((tag : String)
          → HashSet.contains required tag ≡ true
          → HashSet.contains offered tag ≡ true)
  unfolding QueueItem.can_be_handled_by QueueItem.new Tags.from Tags.is_superset HashSet.is_superset
  can_be_handled_by_iff =
      let (to, from) =
        HashSet.is_subset_iff (HashSet.from_iter required) (HashSet.from_iter offered) in
      (
        λ h tag m.
            rw (← HashSet.contains-from_iter offered tag)
              (to h tag (rw (HashSet.contains-from_iter required tag) m)),
        λ h. from λ tag m.
            rw (HashSet.contains-from_iter offered tag)
              (h tag (rw (← HashSet.contains-from_iter required tag) m)),
      )
