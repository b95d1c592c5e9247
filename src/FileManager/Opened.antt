-- ===== src/FileManager/Opened.antt =====
-- The file manager of src/internal_queue_file_manager.rs between two calls: its files are open, and
-- its writers keep nothing back, since every operation flushes. There are no errors of the file system.
use Prim.Native.String.{◌++◌ as ◌<>◌}
use brqueue.Base.{
  ◌≡◌, refl, ap, ◌∙◌, ◌⊎◌, inl, inr, String, true, false, some, [], ◌++◌, Result, ok, if◌then◌else◌,
  string_eq, ◌==◌, ==_self, subst, ==-append,
}
use brqueue.Std.Fs.{Disk, Bytes, no_faults}
use brqueue.Std.Io.{IoError}
use brqueue.Std.HashMap
use brqueue.Std.BufWriter
use brqueue.Std.BufWriter.{BufWriter, then_flush}
use brqueue.Std.BufWriter.Writes.{Written, get-Written, write-Kept, Stored, then_flush-Stored}
use brqueue.Std.Mutex
use brqueue.Std.Mutex.{Mutex}
use brqueue.Models.{Priority, low, high}
use brqueue.Models.QueueItem.{QueueItem}
use brqueue.FileItemReader.{Codec}
use brqueue.FileManager.{Error}
use brqueue.FileManager.Files.{
  FileReferences, InternalQueueFileManager, FileKind, items, completed, set, file_of, set_file,
  extension, with_io, Store, Exec, ◌>>=◌,
}
use brqueue.FileManager.Access.{references, writer, set_writer, mark_as_completed}
use brqueue.FileManager.Saving.{save_item, save_item-eq, write_encoded}

abbrev pub writer_at : String → FileKind → BufWriter
writer_at p kind = record { path = p <> extension kind; buffer = [] }

abbrev pub references_at : String → FileReferences
references_at p = record {
  high_priority_file = Mutex.new (writer_at p (items high));
  low_priority_file = Mutex.new (writer_at p (items low));
  completed_file_index_file = Mutex.new (writer_at p completed);
}

-- The manager of `base`, while it writes to the files of `p`.
abbrev pub store_at : String → String → Disk → Store
store_at base p disk = record {
  manager = record {
    file_prefix = base;
    open_files = Mutex.new (references_at p);
    gc_lock = Mutex.new tt;
    require_flush = true;
  };
  disk = disk;
}

file_of-references_at :
    (p : String) (priority : Priority)
    → file_of priority (references_at p) ≡ Mutex.new (writer_at p (items priority))
file_of-references_at p low = refl
file_of-references_at p high = refl

set_file-references_at :
    (p : String) (priority : Priority)
    → set_file priority (references_at p) (writer_at p (items priority)) ≡ references_at p
set_file-references_at p low = refl
set_file-references_at p high = refl

pub kinds : (k j : FileKind) → (k ≡ j) ⊎ ((extension k == extension j) ≡ false)
unfolding string_eq
kinds (items high) (items high) = inl refl
kinds (items high) (items low) = inr refl
kinds (items high) completed = inr refl
kinds (items low) (items high) = inr refl
kinds (items low) (items low) = inl refl
kinds (items low) completed = inr refl
kinds completed (items high) = inr refl
kinds completed (items low) = inr refl
kinds completed completed = inl refl

-- What the files hold once these bytes have been added to one of them.
abbrev pub appended : FileKind → Bytes → (FileKind → Bytes) → FileKind → Bytes
appended k bytes content j = if extension k == extension j then content j ++ bytes else content j

-- The files of `p` hold this, and every other file is as before.
pub record Holds (p : String) (before : Disk) (content : FileKind → Bytes) (disk : Disk)
    : Type 0 where
  pub stored : (k : FileKind) → HashMap.get disk (p <> extension k) ≡ some (content k)
  pub others :
      (j : String)
      → ((k : FileKind) → (p <> extension k == j) ≡ false)
      → HashMap.get disk j ≡ HashMap.get before j

stored-appended :
    (p : String) (k j : FileKind) (content : FileKind → Bytes) (bytes : Bytes) (disk d : Disk)
    → HashMap.get disk (p <> extension j) ≡ some (content j)
    → Written (p <> extension k) disk (content k ++ bytes) d
    → (k ≡ j) ⊎ ((extension k == extension j) ≡ false)
    → HashMap.get d (p <> extension j) ≡ some (appended k bytes content j)
stored-appended p k j content bytes disk d h w (inl same) =
    subst (λ i. HashMap.get d (p <> extension i) ≡ some (appended k bytes content i)) same
      (get-Written (p <> extension k) disk d (content k ++ bytes) w
        ∙ rw (==_self (extension k)) refl)
stored-appended p k j content bytes disk d h w (inr differ) =
    w (p <> extension j) ∙ rw (==-append p (extension k) (extension j), differ) h

pub Holds-appended :
    (p : String) (before : Disk) (content : FileKind → Bytes) (k : FileKind) (bytes : Bytes)
    (disk d : Disk)
    → Holds p before content disk
    → Written (p <> extension k) disk (content k ++ bytes) d
    → Holds p before (appended k bytes content) d
Holds-appended p before content k bytes disk d h w = record {
  stored = λ j. stored-appended p k j content bytes disk d (h.stored j) w (kinds k j);
  others = λ j apart. w j ∙ rw (apart k) (h.others j apart);
}

pub set-references_at :
    (p : String) (k : FileKind) → set k (references_at p) (writer_at p k) ≡ references_at p
set-references_at p (items high) = refl
set-references_at p (items low) = refl
set-references_at p completed = refl

-- A method has succeeded, and the files hold this.
pub record Succeeded (base p : String) (before : Disk) (content : FileKind → Bytes)
    (r : Result Error (Unit {0}) × Store) : Type 0 where
  pub step : r ≡ (ok tt, store_at base p r.1.disk)
  pub holds : Holds p before content r.1.disk

-- `save_item` as a method on the manager and the disk.
abbrev pub saving : {U T : Type 0} → Codec (QueueItem U T) → QueueItem U T → Exec Store (Unit {0})
saving codec item s =
    let (r, m, d) = save_item no_faults codec s.manager s.disk item in
    (r, record { manager = m; disk = d })

-- The end of a file after a write that is flushed.
write-Stored :
    (p : String) (before : Disk) (content : FileKind → Bytes) (k : FileKind) (bytes : Bytes)
    (disk : Disk)
    → Holds p before content disk
    → Stored
        (p <> extension k)
        disk
        (content k ++ bytes)
        (then_flush no_faults (BufWriter.write no_faults (writer_at p k) disk bytes))
write-Stored p before content k bytes disk h =
    then_flush-Stored (p <> extension k) disk (content k ++ bytes) _
      (write-Kept (p <> extension k) [] disk (content k) bytes (h.stored k))

module _ (base p : String) (before : Disk) (content : FileKind → Bytes) (disk : Disk)
    (h : Holds p before content disk) where
  pub saving-Succeeded :
      {U T : Type 0} (codec : Codec (QueueItem U T)) (item : QueueItem U T) (bytes : Bytes)
      → codec.serialize item ≡ ok bytes
      → Succeeded base p before
          (appended (items item.priority) bytes content)
          (saving codec item (store_at base p disk))
  unfolding write_encoded
  saving-Succeeded codec item bytes encodes =
      let k = items item.priority in
      let m = (store_at base p disk).manager in
      let w = write-Stored p before content k bytes disk h in
      let priority = item.priority in
      let after : Result IoError (Unit {0}) × BufWriter × Disk
          → Result Error (Unit {0}) × InternalQueueFileManager × Disk =
        λ r. (
          with_io r.0,
          record m {
            open_files = Mutex.write m.open_files (set_file priority (references_at p) r.1);
          },
          r.2,
        ) in
      let d = (then_flush no_faults (BufWriter.write no_faults (writer_at p k) disk bytes)).2 in
      let step : save_item no_faults codec m disk item ≡ (ok tt, m, d) =
        save_item-eq no_faults codec m disk item bytes refl
          (ap (λ z. z.poisoned) (file_of-references_at p priority)) encodes
        ∙ ap (λ z. after (write_encoded no_faults true z.value disk bytes))
            (file_of-references_at p priority)
        ∙ ap after w.step
        ∙ ap (λ f. (ok tt, record m { open_files = Mutex.write m.open_files f }, d))
            (set_file-references_at p priority) in
      rw step
        (record { step = refl; holds = Holds-appended p before content k bytes disk d h w.written })

  pub mark_as_completed-Succeeded :
      {U : Type 0} (ids : Codec U) (id : U) (bytes : Bytes)
      → ids.serialize id ≡ ok bytes
      → Succeeded base p before
          (appended completed bytes content)
          (mark_as_completed no_faults ids id (store_at base p disk))
  unfolding mark_as_completed ◌>>=◌ references writer set_writer
  mark_as_completed-Succeeded ids id bytes encodes =
      let w = write-Stored p before content completed bytes disk h in
      rw (encodes, w.step)
        (record {
          step = refl;
          holds = Holds-appended p before content completed bytes disk _ h w.written;
        })
