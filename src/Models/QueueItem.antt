-- ===== src/Models/QueueItem.antt =====
-- `QueueItem` of src/models.rs, over the types `U` of identifiers (uuid::Uuid) and `T` of payloads.
use brqueue.Base.{Bool}
use brqueue.Models.Tags
use brqueue.Models.Tags.{Tags}
use brqueue.Models.{Priority}

pub record QueueItem (U T : Type 0) : Type 0 where
  pub payload : T
  pub required_tags : Tags
  pub id : U
  pub priority : Priority

-- `QueueItem::new`, with the random identifier that `Uuid::new_v4` draws as an argument.
unfoldable pub new : {U T : Type 0} → U → T → Tags → Priority → QueueItem U T
new id payload tags priority = record {
  payload = payload;
  required_tags = tags;
  id = id;
  priority = priority;
}

unfoldable pub can_be_handled_by : {U T : Type 0} → QueueItem U T → Tags → Bool
unfolding Tags.is_superset
can_be_handled_by item tags = Tags.is_superset tags item.required_tags
