-- ===== src/FileManager/Journal.antt =====
-- What the files of src/internal_queue_file_manager.rs stand for: the items that were saved and the
-- ids that were marked as completed, in their order.
use brqueue.Base.{◌≡◌, List, [], ◌∷◌, ◌++◌, ok, Eq, filter, string_eq}
use brqueue.Std.Fs.{Bytes, no_faults}
use brqueue.Std.HashSet
use brqueue.Models.{Priority, low, high}
use brqueue.Models.QueueItem.{QueueItem}
use brqueue.FileItemReader.{Codec, serialize_items}
use brqueue.FileItemReader.Writing.{serialize_items-snoc}
use brqueue.FileManager.Files.{FileKind, items, completed, Store, Exec, ◌>>=◌, ◌>>◌, pure}
use brqueue.FileManager.Access.{StoredItems, is_live, mark_as_completed}
use brqueue.FileManager.Opened.{appended, saving}

pub record Journal (U T : Type 0) : Type 0 where
  pub high_priority : List (QueueItem U T)
  pub low_priority : List (QueueItem U T)
  pub completed : List U

-- The calls that the queue makes between two collections.
pub data Command (U T : Type 0) : Type 0 where
  save : QueueItem U T → Command U T
  complete : U → Command U T

module _ {U T : Type 0} where
  -- An item is added to the list of its priority.
  unfoldable pub record_item : Priority → QueueItem U T → Journal U T → Journal U T
  record_item high item journal = record journal {
    high_priority = journal.high_priority ++ item ∷ [];
  }
  record_item low item journal = record journal { low_priority = journal.low_priority ++ item ∷ [] }

  unfoldable pub record_command : Command U T → Journal U T → Journal U T
  unfolding record_item
  record_command (save item) journal = record_item item.priority item journal
  record_command (complete id) journal = record journal { completed = journal.completed ++ id ∷ [] }

  unfoldable pub record_commands : List (Command U T) → Journal U T → Journal U T
  record_commands [] journal = journal
  record_commands (c ∷ cs) journal = record_commands cs (record_command c journal)

  abbrev pub nothing : Journal U T
  nothing = record { high_priority = []; low_priority = []; completed = [] }

  -- The items that are not completed.
  unfoldable pub pending : ⦃e : Eq U⦄ → Journal U T → StoredItems U T
  pending journal =
      let live = is_live (HashSet.from_iter journal.completed) in
      record {
        high_priority = filter live journal.high_priority;
        low_priority = filter live journal.low_priority;
      }

  -- The journal without what is completed.
  abbrev pub compacted : ⦃e : Eq U⦄ → Journal U T → Journal U T
  compacted journal =
      let live = is_live (HashSet.from_iter journal.completed) in
      record {
        high_priority = filter live journal.high_priority;
        low_priority = filter live journal.low_priority;
        completed = [];
      }

module _ {U T : Type 0} (codec : Codec (QueueItem U T)) (ids : Codec U) where
  abbrev pub run_command : Command U T → Exec Store (Unit {0})
  run_command (save item) = saving codec item
  run_command (complete id) = mark_as_completed no_faults ids id

  unfoldable pub run_commands : List (Command U T) → Exec Store (Unit {0})
  unfolding ◌>>=◌
  run_commands [] = pure tt
  run_commands (c ∷ cs) = run_command c >> run_commands cs

  -- The items and the ids can be serialized.
  abbrev pub IsSerializable : Command U T → Type 0
  IsSerializable (save item) = (bytes : Bytes) × (codec.serialize item ≡ ok bytes)
  IsSerializable (complete id) = (bytes : Bytes) × (ids.serialize id ≡ ok bytes)

  pub record Encodes (content : FileKind → Bytes) (journal : Journal U T) : Type 0 where
    pub high_priority : serialize_items codec journal.high_priority ≡ ok (content (items high))
    pub low_priority : serialize_items codec journal.low_priority ≡ ok (content (items low))
    pub completed : serialize_items ids journal.completed ≡ ok (content completed)

module _ {U T : Type 0} (codec : Codec (QueueItem U T)) (ids : Codec U) where
  pub Encodes-record_item :
      (content : FileKind → Bytes) (journal : Journal U T) (p : Priority) (item : QueueItem U T)
      (bytes : Bytes)
      → codec.serialize item ≡ ok bytes
      → Encodes codec ids content journal
      → Encodes codec ids (appended (items p) bytes content) (record_item p item journal)
  unfolding record_item string_eq
  Encodes-record_item content journal high item bytes h n = record {
    high_priority = serialize_items-snoc codec journal.high_priority item _ bytes n.high_priority h;
    low_priority = n.low_priority;
    completed = n.completed;
  }
  Encodes-record_item content journal low item bytes h n = record {
    high_priority = n.high_priority;
    low_priority = serialize_items-snoc codec journal.low_priority item _ bytes n.low_priority h;
    completed = n.completed;
  }

  pub Encodes-complete :
      (content : FileKind → Bytes) (journal : Journal U T) (id : U) (bytes : Bytes)
      → ids.serialize id ≡ ok bytes
      → Encodes codec ids content journal
      → Encodes codec ids (appended completed bytes content) (record_command (complete id) journal)
  unfolding record_command string_eq
  Encodes-complete content journal id bytes h n = record {
    high_priority = n.high_priority;
    low_priority = n.low_priority;
    completed = serialize_items-snoc ids journal.completed id _ bytes n.completed h;
  }
