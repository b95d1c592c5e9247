-- ===== src/FileManager/Collection.antt =====
-- The garbage collection of src/internal_queue_file_manager.rs: new files without the completed items,
-- while the items that come in go to other files, whose content is added at the end.
use brqueue.Base.{[], String, none, some, List, ◌∷◌, Result, ok, err, Eq, filter}
use brqueue.Std.Fs
use brqueue.Std.Fs.{Disk, Faults, Bytes}
use brqueue.Std.BufWriter
use brqueue.Std.BufWriter.{BufWriter}
use brqueue.Std.HashSet
use brqueue.Std.HashSet.{HashSet}
use brqueue.Std.Mutex
use brqueue.Models.{Priority, low, high}
use brqueue.Models.QueueItem.{QueueItem}
use brqueue.FileManager.{Error, failed_to_serialize_work_item, mutex_corrupted}
use brqueue.FileManager.Files.{
  FileReferences, FileKind, items, completed, extension, get_file_path, Store, Exec, ◌>>=◌, ◌>>◌,
  on_disk, with_disk, open_for_append, drop_files,
}
use brqueue.FileManager.Access.{read_items, writer, set_writer, io, is_live}
use brqueue.FileItemReader.{Codec}

-- `format!("{}.bak", extension)` and `format!("{}_gc", prefix)`.
unfoldable pub backup : FileKind → String
backup (items high) = "_low_priority.dat.bak"
backup (items low) = "_high_priority.dat.bak"
backup completed = "_completed.dat.bak"

abbrev pub gc_suffix : String
gc_suffix = "_gc"

module _ (faults : Faults) where
  -- `*guard = open_for_append(base)?`, which drops the references that were there. A poisoned lock is
  -- passed over.
  unfoldable pub switch_to : String → Exec Store (Unit {0})
  unfolding with_disk ◌>>=◌
  switch_to base s = elim (Mutex.lock s.manager.open_files) [
    | none ↦ (ok tt, s)
    | some old ↦
        (do
          opened ← with_disk (open_for_append faults base)
          λ t. (
            ok tt,
            record {
              manager = record t.manager { open_files = Mutex.write t.manager.open_files opened };
              disk = drop_files faults old t.disk;
            },
          ))
          s
  ]

  -- `serialize_into(&mut target, &item)?` for each item. The error of a write is wrapped as one of
  -- bincode.
  unfoldable pub write_items :
      {X : Type 0}
      → Codec X
      → List X
      → BufWriter
      → Disk
      → Result Error (Unit {0}) × BufWriter × Disk
  write_items codec [] w disk = (ok tt, w, disk)
  write_items codec (x ∷ xs) w disk = elim (codec.serialize x) [
    | err e ↦ (err (failed_to_serialize_work_item e), w, disk)
    | ok encoded ↦
        let (r, changed, d) = BufWriter.write faults w disk encoded in
        elim r [
          | err e ↦ (err (failed_to_serialize_work_item e.text), changed, d)
          | ok u ↦ write_items codec xs changed d
        ]
  ]

  -- The items, and then `flush()?`.
  unfoldable pub write_and_flush :
      {X : Type 0}
      → Codec X
      → List X
      → BufWriter
      → Disk
      → Result Error (Unit {0}) × BufWriter × Disk
  unfolding write_items
  write_and_flush codec xs w disk =
      let (r, changed, d) = write_items codec xs w disk in
      elim r [ err e ↦ (err e, changed, d) | ok u ↦ io (BufWriter.flush faults changed d) ]

  -- A new file, whose writer is dropped in the end.
  unfoldable pub write_new : {X : Type 0} → Codec X → String → List X → Exec Disk (Unit {0})
  unfolding write_and_flush
  write_new codec path xs disk =
      let (r, w, d) = write_and_flush codec xs (record { path = path; buffer = [] }) disk in
      (r, BufWriter.drop faults w d)

  unfoldable pub rename : String → String → Exec Store (Unit {0})
  unfolding with_disk on_disk
  rename from to = with_disk (on_disk (λ disk. Fs.rename faults disk from to))

  unfoldable pub remove_file : String → Exec Store (Unit {0})
  unfolding with_disk on_disk
  remove_file path = with_disk (on_disk (λ disk. Fs.remove_file faults disk path))

  unfoldable pub create : String → Exec Store (Unit {0})
  unfolding with_disk on_disk
  create path = with_disk (on_disk (λ disk. Fs.create faults disk path))

  -- The items of a file of the collection are added to a file of the references.
  unfoldable pub copy_back :
      {X : Type 0} → Codec X → FileKind → FileReferences → String → Exec Store (Unit {0})
  copy_back codec kind f gc_path = do
    w ← writer kind f
    xs ← read_items faults codec (get_file_path gc_path (extension kind))
    set_writer kind (λ w disk. write_and_flush codec xs w disk) w

  unfoldable pub remove_gc_files : String → Exec Store (Unit {0})
  remove_gc_files gc_path = do
    remove_file (get_file_path gc_path (extension completed))
    remove_file (get_file_path gc_path (extension (items high)))
    remove_file (get_file_path gc_path (extension (items low)))

  module _ {U T : Type 0} ⦃e : Eq U⦄ (codec : Codec (QueueItem U T)) (ids : Codec U) where
    -- A file of items that is written anew from its backup, without the completed items.
    unfoldable pub rewrite : String → Priority → HashSet U → Exec Store (Unit {0})
    rewrite base p completed_ids = do
      let path = get_file_path base (extension (items p))
      create path
      xs ← read_items faults codec (get_file_path base (backup (items p)))
      with_disk (write_new codec path (filter (is_live completed_ids) xs))

    -- From the renaming to the removal of the backups.
    unfoldable pub compact : String → Exec Store (Unit {0})
    compact base = do
      let path : FileKind → String = λ kind. get_file_path base (extension kind)
      let backup_path : FileKind → String = λ kind. get_file_path base (backup kind)
      rename (path (items high)) (backup_path (items high))
      rename (path (items low)) (backup_path (items low))
      xs ← read_items faults ids (path completed)
      let completed_ids = HashSet.from_iter xs
      rewrite base high completed_ids
      rewrite base low completed_ids
      remove_file (backup_path (items high))
      remove_file (backup_path (items low))
      remove_file (path completed)

    -- What came in during the collection is added to the normal files; a poisoned lock is passed over.
    unfoldable pub merge : String → Exec Store (Unit {0})
    merge gc_path s = elim (Mutex.lock s.manager.open_files) [
      | none ↦ (ok tt, s)
      | some f ↦
          (do
            copy_back ids completed f gc_path
            copy_back codec (items high) f gc_path
            copy_back codec (items low) f gc_path)
            s
    ]

    -- `during` is what the other threads do to the manager while the collection runs.
    unfoldable pub run_garbage_collection : (Store → Store) → Exec Store (Unit {0})
    run_garbage_collection during s =
        let base = s.manager.file_prefix in
        let gc_path = get_file_path base gc_suffix in
        elim (Mutex.lock s.manager.gc_lock) [
          | none ↦ (err mutex_corrupted, s)
          | some u ↦
              (do
                switch_to gc_path
                λ t. (ok tt, during t)
                compact base
                switch_to base
                merge gc_path
                remove_gc_files gc_path)
                s
        ]
