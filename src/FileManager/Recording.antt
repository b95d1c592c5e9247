-- ===== src/FileManager/Recording.antt =====
-- Saving, marking and loading of src/internal_queue_file_manager.rs, against the journal that the
-- files stand for.
use Prim.Native.String.{◌++◌ as ◌<>◌}
use brqueue.Base.{
  Bool, true, ◌≡◌, refl, ap, String, some, List, [], ◌∷◌, Result, ok, Eq, All, string_eq,
}
use brqueue.Std.Fs
use brqueue.Std.Fs.{Disk, Bytes, no_faults}
use brqueue.Std.HashMap
use brqueue.Std.Mutex
use brqueue.Models.QueueItem.{QueueItem}
use brqueue.FileItemReader
use brqueue.FileItemReader.{Codec, serialize_items, collect}
use brqueue.FileItemReader.Reading.{collect-written}
use brqueue.FileManager.{Error}
use brqueue.FileManager.Files.{
  FileReferences, FileKind, items, completed, extension, get_file_path, Store, ◌>>=◌, >>=-ok,
}
use brqueue.Models.{low, high}
use brqueue.FileManager.Access.{references, read_items, load_items}
use brqueue.FileManager.Opened.{
  references_at, store_at, Holds, saving-Succeeded, mark_as_completed-Succeeded,
}
use brqueue.FileManager.Journal.{
  Journal, Command, save, complete, record_command, record_commands, pending, run_command,
  run_commands, IsSerializable, Encodes, Encodes-record_item, Encodes-complete,
}

-- A file of items that can be serialized is read back whole.
pub read_items-eq :
    {X : Type 0} (reader : Codec X) (xs : List X) (path : String) (bytes : Bytes) (s : Store)
    → HashMap.get s.disk path ≡ some bytes
    → serialize_items reader xs ≡ ok bytes
    → read_items no_faults reader path s ≡ (ok xs, s)
unfolding read_items FileItemReader.new_from_file Fs.open_file
read_items-eq reader xs path bytes s h q =
    rw (h, read_items) (ap (λ z. (ok z, s)) (collect-written reader xs bytes q))

-- A manager whose locks are sound.
abbrev pub sound_at : String → FileReferences → Bool → Disk → Store
sound_at base references require_flush disk = record {
  manager = record {
    file_prefix = base;
    open_files = Mutex.new references;
    gc_lock = Mutex.new tt;
    require_flush = require_flush;
  };
  disk = disk;
}

module _ {U T : Type 0} (codec : Codec (QueueItem U T)) (ids : Codec U) where
  -- The files of `p` hold the journal, and every other file is as before.
  pub record Represents (p : String) (before : Disk) (journal : Journal U T) (disk : Disk)
      : Type 0 where
    pub content : FileKind → Bytes
    pub holds : Holds p before content disk
    pub encodes : Encodes codec ids content journal

  pub record Ran (base p : String) (before : Disk) (journal : Journal U T)
      (r : Result Error (Unit {0}) × Store) : Type 0 where
    pub step : r ≡ (ok tt, store_at base p r.1.disk)
    pub represents : Represents p before journal r.1.disk

  pub run_command-Ran :
      (base p : String) (before : Disk) (journal : Journal U T) (disk : Disk) (c : Command U T)
      → IsSerializable codec ids c
      → Represents p before journal disk
      → Ran base p before
          (record_command c journal)
          (run_command codec ids c (store_at base p disk))
  unfolding record_command
  run_command-Ran base p before journal disk (save item) (bytes, q) r =
      let s = saving-Succeeded base p before r.content disk r.holds codec item bytes q in
      record {
        step = s.step;
        represents = record {
          content = _;
          holds = s.holds;
          encodes =
              Encodes-record_item codec ids r.content journal item.priority item bytes q r.encodes;
        };
      }
  run_command-Ran base p before journal disk (complete id) (bytes, q) r =
      let s = mark_as_completed-Succeeded base p before r.content disk r.holds ids id bytes q in
      record {
        step = s.step;
        represents = record {
          content = _;
          holds = s.holds;
          encodes = Encodes-complete codec ids r.content journal id bytes q r.encodes;
        };
      }

  pub run_commands-Ran :
      (base p : String) (before : Disk) (journal : Journal U T) (disk : Disk)
      (cs : List (Command U T))
      → All (IsSerializable codec ids) cs
      → Represents p before journal disk
      → Ran base p before
          (record_commands cs journal)
          (run_commands codec ids cs (store_at base p disk))
  unfolding run_commands record_commands
  run_commands-Ran base p before journal disk [] h r = record { step = refl; represents = r }
  run_commands-Ran base p before journal disk (c ∷ cs) (first, others) r =
      let s = run_command-Ran base p before journal disk c first r in
      let d = (run_command codec ids c (store_at base p disk)).1.disk in
      let eq =
        >>=-ok (run_command codec ids c) (λ _. run_commands codec ids cs) (store_at base p disk) _
          tt s.step in
      rw eq (run_commands-Ran base p before (record_command c journal) d cs others s.represents)

  -- What is loaded from files that hold the journal.
  pub load_items-Encodes :
      ⦃e : Eq U⦄ (base : String) (f : FileReferences) (require_flush : Bool) (disk : Disk)
      (content : FileKind → Bytes) (journal : Journal U T)
      → ((k : FileKind) → HashMap.get disk (base <> extension k) ≡ some (content k))
      → Encodes codec ids content journal
      → load_items no_faults codec ids (sound_at base f require_flush disk)
        ≡ (ok (pending journal), sound_at base f require_flush disk)
  unfolding load_items get_file_path references ◌>>=◌ pending
  load_items-Encodes base f require_flush disk content journal there n =
      let s = sound_at base f require_flush disk in
      rw
        (
          read_items-eq ids journal.completed (base <> extension completed) (content completed) s
              (there completed) n.completed,
          read_items-eq codec journal.high_priority (base <> extension (items high))
              (content (items high)) s (there (items high)) n.high_priority,
          read_items-eq codec journal.low_priority (base <> extension (items low))
              (content (items low)) s (there (items low)) n.low_priority,
        )
        refl

  pub load_items-Represents :
      ⦃e : Eq U⦄ (base p : String) (before : Disk) (journal : Journal U T) (disk : Disk)
      → Represents base before journal disk
      → load_items no_faults codec ids (store_at base p disk)
        ≡ (ok (pending journal), store_at base p disk)
  load_items-Represents base p before journal disk r =
      load_items-Encodes base (references_at p) true disk r.content journal r.holds.stored r.encodes
