-- ===== src/FileManager/Access.antt =====
-- How src/internal_queue_file_manager.rs loads the items, marks an item as completed, and flushes.
use brqueue.Base.{String, Bool, not, none, some, List, Result, ok, err, Eq, filter}
use brqueue.Std.Fs.{Disk, Faults}
use brqueue.Std.Io.{IoError}
use brqueue.Std.BufWriter
use brqueue.Std.BufWriter.{BufWriter, then_flush}
use brqueue.Std.HashSet
use brqueue.Std.HashSet.{HashSet}
use brqueue.Std.Mutex
use brqueue.Std.Mutex.{Mutex}
use brqueue.Models.{low, high}
use brqueue.Models.QueueItem.{QueueItem}
use brqueue.FileManager.{Error, io_error, failed_to_serialize_work_item, mutex_corrupted}
use brqueue.FileManager.Files.{
  FileReferences, FileKind, items, completed, file, set, extension, get_file_path, with_io, Store,
  Exec, ◌>>=◌, ◌>>◌, pure,
}
use brqueue.FileItemReader
use brqueue.FileItemReader.{Codec, collect}

pub record StoredItems (U T : Type 0) : Type 0 where
  pub high_priority : List (QueueItem U T)
  pub low_priority : List (QueueItem U T)

-- The references, if their lock is sound.
unfoldable pub references : Exec Store FileReferences
references s = elim (Mutex.lock s.manager.open_files) [
  | none ↦ (err mutex_corrupted, s)
  | some f ↦ (ok f, s)
]

-- A writer of the references, if its lock is sound.
unfoldable pub writer : FileKind → FileReferences → Exec Store BufWriter
writer kind f s = elim (Mutex.lock (file kind f)) [
  | none ↦ (err mutex_corrupted, s)
  | some w ↦ (ok w, s)
]

-- What a writer and the disk are after an operation on the writer.
unfoldable pub set_writer :
    {A : Type 0}
    → FileKind
    → (BufWriter → Disk → Result Error A × BufWriter × Disk)
    → BufWriter
    → Exec Store A
set_writer kind f w s =
    let (r, changed, disk) = f w s.disk in
    (
      r,
      record {
        manager = record s.manager {
          open_files =
              Mutex.write s.manager.open_files (set kind s.manager.open_files.value changed);
        };
        disk = disk;
      },
    )

-- The conversion of an `IOError` by `?`.
abbrev pub io :
    Result IoError (Unit {0}) × BufWriter × Disk → Result Error (Unit {0}) × BufWriter × Disk
io (r, w, disk) = (with_io r, w, disk)

-- `!completed_ids.contains(&item.id)`
abbrev pub is_live : {U T : Type 0} ⦃e : Eq U⦄ → HashSet U → QueueItem U T → Bool
is_live completed_ids item = not (HashSet.contains completed_ids item.id)

module _ (faults : Faults) where
  -- The items of a file, as `collect` reads them all.
  unfoldable pub read_items : {X : Type 0} → Codec X → String → Exec Store (List X)
  read_items codec path s = elim (FileItemReader.new_from_file faults s.disk path) [
    | err e ↦ (err (io_error e), s)
    | ok reader ↦ (ok (collect codec reader), s)
  ]

  module _ {U T : Type 0} ⦃e : Eq U⦄ (codec : Codec (QueueItem U T)) (ids : Codec U) where
    unfoldable pub load_items : Exec Store (StoredItems U T)
    unfolding references read_items ◌>>=◌
    load_items s =
        let base = s.manager.file_prefix in
        (do
          _ ← references
          completed_ids ← read_items ids (get_file_path base (extension completed))
          high_priority ← read_items codec (get_file_path base (extension (items high)))
          low_priority ← read_items codec (get_file_path base (extension (items low)))
          let live = is_live (HashSet.from_iter completed_ids)
          pure (record {
            high_priority = filter live high_priority;
            low_priority = filter live low_priority;
          }))
          s

  unfoldable pub mark_as_completed : {U : Type 0} → Codec U → U → Exec Store (Unit {0})
  unfolding references writer set_writer ◌>>=◌
  mark_as_completed ids id = do
    f ← references
    w ← writer completed f
    encoded ← λ s. elim (ids.serialize id) [
      | err x ↦ (err (failed_to_serialize_work_item x), s)
      | ok encoded ↦ (ok encoded, s)
    ]
    set_writer completed (λ w disk. io (then_flush faults (BufWriter.write faults w disk encoded)))
        w

  -- The results of the flushes are ignored.
  unfoldable pub flush_file : FileKind → FileReferences → Exec Store (Unit {0})
  unfolding writer set_writer ◌>>=◌
  flush_file kind f = do
    w ← writer kind f
    set_writer kind
        (λ w disk. let (_, changed, d) = BufWriter.flush faults w disk in (ok tt, changed, d)) w

  unfoldable pub flush_data : Exec Store (Unit {0})
  unfolding references flush_file ◌>>=◌
  flush_data = do
    f ← references
    flush_file (items high) f
    flush_file (items low) f
    flush_file completed f
