-- ===== src/FileManager/Saving.antt =====
-- How src/internal_queue_file_manager.rs saves an item.
use brqueue.Base.{
  String, ◌≡◌, refl, ap, ◌∙◌, Bool, true, false, none, some, ◌++◌, Result, ok, err, if◌then◌else◌,
  string_eq, ◌≢◌, arith,
}
use brqueue.Std.Fs.{Disk, Faults, Bytes, writing}
use brqueue.Std.Io.{IoError}
use brqueue.Std.BufWriter
use brqueue.Std.BufWriter.{BufWriter, write-Flushed, Flushed, then_flush, contents}
use brqueue.Std.Mutex
use brqueue.Std.Mutex.{Mutex}
use brqueue.Models.QueueItem.{QueueItem}
use brqueue.FileManager.{Error, failed_to_serialize_work_item, mutex_corrupted}
use brqueue.FileManager.Files.{InternalQueueFileManager, file_of, set_file, with_io}
use brqueue.FileItemReader.{Codec}

module _ (faults : Faults) where
  -- `file.write(&encoded)?; if self.require_flush { file.flush()?; }`
  unfoldable pub write_encoded :
      Bool → BufWriter → Disk → Bytes → Result IoError (Unit {0}) × BufWriter × Disk
  write_encoded require_flush w disk encoded =
      if require_flush
      then then_flush faults (BufWriter.write faults w disk encoded)
      else BufWriter.write faults w disk encoded

  module _ {U T : Type 0} (codec : Codec (QueueItem U T)) where
    unfoldable pub save_item :
        InternalQueueFileManager
        → Disk
        → QueueItem U T
        → Result Error (Unit {0}) × InternalQueueFileManager × Disk
    unfolding write_encoded
    save_item m disk item = elim (Mutex.lock m.open_files) [
      | none ↦ (err mutex_corrupted, m, disk)
      | some references ↦ elim (Mutex.lock (file_of item.priority references)) [
        | none ↦ (err mutex_corrupted, m, disk)
        | some file ↦ elim (codec.serialize item) [
          | err e ↦ (err (failed_to_serialize_work_item e), m, disk)
          | ok encoded ↦
              let (r, w, d) = write_encoded m.require_flush file disk encoded in
              (
                with_io r,
                record m {
                  open_files = Mutex.write m.open_files (set_file item.priority references w);
                },
                d,
              )
        ]
      ]
    ]

    pub save_item-eq :
        (m : InternalQueueFileManager) (disk : Disk) (item : QueueItem U T) (encoded : Bytes)
        → m.open_files.poisoned ≡ false
        → (file_of item.priority m.open_files.value).poisoned ≡ false
        → codec.serialize item ≡ ok encoded
        → let r =
            write_encoded m.require_flush
              (file_of item.priority m.open_files.value).value
              disk
              encoded in
          save_item m disk item ≡ (
            with_io r.0,
            record m {
              open_files = Mutex.write m.open_files (set_file item.priority m.open_files.value r.1);
            },
            r.2,
          )
    unfolding save_item
    save_item-eq m disk item encoded sound file_sound encodes = ground arith

    -- If the locks are sound, flushing is required, the item can be serialized and its file can be
    -- written, then `save_item` succeeds; the file of the item's priority then ends with what its
    -- writer kept back and the encoded item, and every other file is as it was.
    save_item-stored :
        (m : InternalQueueFileManager) (disk : Disk) (item : QueueItem U T) (encoded : Bytes)
        → let file = (file_of item.priority m.open_files.value).value in
          m.open_files.poisoned ≡ false
          → (file_of item.priority m.open_files.value).poisoned ≡ false
          → m.require_flush ≡ true
          → codec.serialize item ≡ ok encoded
          → faults writing file.path ≡ none
          → let r = save_item m disk item in
            (r.0 ≡ ok tt)
            × (contents r.2 file.path ≡ contents disk file.path ++ (file.buffer ++ encoded))
            × ((path : String) → path ≢ file.path → contents r.2 path ≡ contents disk path)
    unfolding write_encoded
    save_item-stored m disk item encoded sound file_sound flushes encodes writes =
        let file = (file_of item.priority m.open_files.value).value in
        let f = write-Flushed faults file.path file.buffer encoded disk writes in
        let step = save_item-eq m disk item encoded sound file_sound encodes in
        let flushed : write_encoded m.require_flush file disk encoded
            ≡ then_flush faults (BufWriter.write faults file disk encoded) =
          rw (flushes, write_encoded) refl in
        (
          ap (λ z. z.0) step ∙ ap (λ z. with_io z.0) flushed ∙ ap with_io f.done,
          ap (λ z. contents z.2 file.path) step
              ∙ ap (λ z. contents z.2 file.path) flushed
              ∙ f.stored,
          λ path ne.
              ap (λ z. contents z.2 path) step
              ∙ ap (λ z. contents z.2 path) flushed
              ∙ f.others path ne,
        )
