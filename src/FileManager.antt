-- ===== src/FileManager.antt =====
-- src/internal_queue_file_manager.rs: the errors of the file manager, and the part of it that the
-- queue server calls, as an interface.
pub mod Files
pub mod Saving
pub mod Access
pub mod Collection
pub mod Opened
pub mod Journal
pub mod Recording
pub mod Views
pub mod Compaction
pub mod Merging
pub mod Collecting
pub mod Refinement
pub mod Removal
pub mod Pending
pub mod Simulation
pub mod Starting
pub mod Interrupted
pub mod Buffered
pub mod Unwritten
pub mod Unflushed
pub mod Rewriting
use brqueue.Base.{String, Bool, Result}
use brqueue.Std.Io.{IoError}
use brqueue.Models.QueueItem.{QueueItem}

-- A serialization error of the crate bincode is the text that it displays, which is all that the
-- program uses of it.
pub data Error : Type 0 where
  io_error : IoError → Error
  failed_to_serialize_work_item : String → Error
  mutex_corrupted : Error
  garbage_collection_failed : Error

-- `InternalQueueFileManager::new` and `save_item`.
pub record Storage (U T : Type 0) : Type 1 where
  pub State : Type 0
  pub new : String → Bool → Result Error State
  pub save_item : State → QueueItem U T → Result Error (Unit {0}) × State
