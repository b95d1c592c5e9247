-- ===== src/QueueServer/Errors.antt =====
-- The errors of src/queue_server.rs.
use Prim.Native.String.{◌++◌ as ◌<>◌}
use brqueue.Base.{String}
use brqueue.Std.Io.{IoError}
use brqueue.FileManager

pub data Error : Type 0 where
  queue_corrupted : Error
  io_error : IoError → Error
  mutex_corrupted : Error
  failed_to_serialize_work_item : String → Error
  garbage_collection_failed : Error

-- `convert::From` of the file manager's errors.
unfoldable pub from : FileManager.Error → Error
from (FileManager.Error.io_error e) = io_error e
from (FileManager.Error.failed_to_serialize_work_item e) = failed_to_serialize_work_item e
from FileManager.Error.mutex_corrupted = mutex_corrupted
from FileManager.Error.garbage_collection_failed = garbage_collection_failed

-- The `Display` of an error.
unfoldable pub display : Error → String
display queue_corrupted = "Queue corrupted"
display (io_error e) = "Failed to open persistence files: " <> e.text
display mutex_corrupted = "File mutex corrupted"
display (failed_to_serialize_work_item e) = "Failed to serialize work item: " <> e
display garbage_collection_failed = "Garbage collection failed"
