-- ===== src/FileManager/Starting.antt =====
-- `InternalQueueFileManager::new` of src/internal_queue_file_manager.rs, on a disk without files and
-- on one that an earlier manager has left. There are no errors of the file system.
use Prim.Native.String.{◌++◌ as ◌<>◌}
use brqueue.Base.{◌≡◌, refl, ◌∙◌, String, true, Option, none, some, Result, ok, Eq, string_eq}
use brqueue.Std.Fs
use brqueue.Std.Fs.{Disk, Bytes, no_faults}
use brqueue.Std.HashMap
use brqueue.Std.BufWriter.{contents}
use brqueue.Models.{high, low}
use brqueue.Models.QueueItem.{QueueItem}
use brqueue.FileItemReader.{Codec, serialize_items}
use brqueue.FileManager.{Error}
use brqueue.FileManager.Files.{
  FileKind, items, completed, extension, InternalQueueFileManager, new, new_in,
}
use brqueue.FileManager.Collection.{gc_suffix}
use brqueue.FileManager.Opened.{store_at}
use brqueue.FileManager.Journal.{Journal, nothing, Encodes}
use brqueue.FileManager.Collecting.{Persists}
use brqueue.FileManager.Merging.{path_apart_gc}
use brqueue.FileManager.Views.{open_for_append-eq, all_touched, all_touched-Holds}

new-eq :
    (parent : String → Option String) (base folder : String) (disk : Disk)
    → parent base ≡ some folder
    → new no_faults parent base true disk
      ≡ some (ok (store_at base base disk).manager, all_touched base disk)
unfolding new new_in Fs.create_dir_all
new-eq parent base folder disk h = rw (new, h, new_in, open_for_append-eq base disk) refl

module _ {U T : Type 0} ⦃e : Eq U⦄ (codec : Codec (QueueItem U T)) (ids : Codec U)
    (base : String) where
  -- A manager has been opened, and the journal is on the disk.
  pub record Opened (journal : Journal U T)
      (r : Option (Result Error InternalQueueFileManager × Disk)) : Type 0 where
    pub disk : Disk
    pub step : r ≡ some (ok (store_at base base disk).manager, disk)
    pub persists : Persists codec ids base journal disk

  new_by :
      (parent : String → Option String) (folder : String) (journal : Journal U T) (disk : Disk)
      → parent base ≡ some folder
      → ((k : FileKind) → HashMap.get disk ((base <> gc_suffix) <> extension k) ≡ none)
      → Encodes codec ids (λ k. contents disk (base <> extension k)) journal
      → Opened journal (new no_faults parent base true disk)
  new_by parent folder journal disk h gone n =
      let holds = all_touched-Holds base disk in
      record {
        disk = all_touched base disk;
        step = new-eq parent base folder disk h;
        persists = record {
          represents = record {
            content = λ k. contents disk (base <> extension k);
            holds = record { stored = holds.stored; others = λ j apart. refl };
            encodes = n;
          };
          collected = λ k.
              holds.others ((base <> gc_suffix) <> extension k) (path_apart_gc base k) ∙ gone k;
        };
      }

  -- If the prefix has a parent folder and none of the files is there, `new` opens a manager whose
  -- files hold no items.
  new-nothing :
      (parent : String → Option String) (folder : String) (disk : Disk)
      → parent base ≡ some folder
      → ((k : FileKind) → HashMap.get disk (base <> extension k) ≡ none)
      → ((k : FileKind) → HashMap.get disk ((base <> gc_suffix) <> extension k) ≡ none)
      → Opened nothing (new no_faults parent base true disk)
  unfolding contents serialize_items
  new-nothing parent folder disk h none_there gone =
      new_by parent folder nothing disk h gone (record {
        high_priority = rw (none_there (items high)) refl;
        low_priority = rw (none_there (items low)) refl;
        completed = rw (none_there completed) refl;
      })

  -- If the prefix has a parent folder and the disk holds a journal and no files of a collection,
  -- then `new`, as after a restart, opens a manager that flushes and whose files hold the same
  -- journal; there are no errors of the file system.
  pub new-Persists :
      (parent : String → Option String) (folder : String) (journal : Journal U T) (disk : Disk)
      → parent base ≡ some folder
      → Persists codec ids base journal disk
      → Opened journal (new no_faults parent base true disk)
  unfolding contents
  new-Persists parent folder journal disk h p =
      let r = p.represents in
      new_by parent folder journal disk h p.collected (record {
        high_priority = rw (r.holds.stored (items high)) r.encodes.high_priority;
        low_priority = rw (r.holds.stored (items low)) r.encodes.low_priority;
        completed = rw (r.holds.stored completed) r.encodes.completed;
      })
