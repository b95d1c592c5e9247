-- ===== src/FileManager/Collecting.antt =====
-- `run_garbage_collection` of src/internal_queue_file_manager.rs, against the journal that the files
-- stand for. There are no errors of the file system.
use Prim.Native.String.{◌++◌ as ◌<>◌}
use brqueue.Base.{
  ◌≡◌, refl, sym, ap, ◌∙◌, String, none, some, List, Result, ok, Eq, All, string_eq, <>_assoc,
}
use brqueue.Std.Fs.{Disk, Bytes, no_faults}
use brqueue.Std.HashMap
use brqueue.Std.HashSet
use brqueue.Std.BufWriter.{contents}
use brqueue.Models.{high, low}
use brqueue.Models.QueueItem.{QueueItem}
use brqueue.FileItemReader.{Codec, serialize_items}
use brqueue.FileItemReader.Writing.{serialize_items-filter}
use brqueue.FileManager.{Error}
use brqueue.FileManager.Files.{
  FileKind, items, completed, extension, get_file_path, Store, >>=-step,
}
use brqueue.FileManager.Access.{is_live}
use brqueue.FileManager.Collection
use brqueue.FileManager.Collection.{
  gc_suffix, switch_to, compact, merge, remove_gc_files, run_garbage_collection,
}
use brqueue.FileManager.Opened.{store_at}
use brqueue.FileManager.Journal.{
  Journal, nothing, compacted, Command, record_commands, run_commands, IsSerializable, Encodes,
}
use brqueue.FileManager.Recording.{Represents, run_commands-Ran}
use brqueue.FileManager.Compaction.{compact-eq, compacted_view}
use brqueue.FileManager.Merging.{
  gc_path_apart, path_apart_gc, merge-Succeeded, joined, Encodes-joined,
}
use brqueue.FileManager.Removal.{removed, get-removed, get-removed-none, remove_gc_files-eq}
use brqueue.FileManager.Views.{View, switch_to-eq, all_touched, all_touched-Holds}

compacted_view-gc :
    (old_high old_low new_high new_low : Bytes) (v : View) (k : FileKind)
    → compacted_view old_high old_low new_high new_low v (gc_suffix <> extension k)
      ≡ v (gc_suffix <> extension k)
unfolding string_eq Collection.backup
compacted_view-gc a b c d v (items high) = refl
compacted_view-gc a b c d v (items low) = refl
compacted_view-gc a b c d v completed = refl

module _ {U T : Type 0} ⦃e : Eq U⦄ (codec : Codec (QueueItem U T)) (ids : Codec U)
    (base : String) where
  -- The journal is on the disk, and there are no files of a collection.
  pub record Persists (journal : Journal U T) (disk : Disk) : Type 0 where
    pub represents : Represents codec ids base disk journal disk
    pub collected : (k : FileKind) → HashMap.get disk ((base <> gc_suffix) <> extension k) ≡ none

  -- A method has succeeded, and the journal is on the disk.
  pub record Done (journal : Journal U T) (r : Result Error (Unit {0}) × Store) : Type 0 where
    pub step : r ≡ (ok tt, store_at base base r.1.disk)
    pub persists : Persists journal r.1.disk

  pub Represents-nothing :
      (disk : Disk)
      → ((k : FileKind) → HashMap.get disk ((base <> gc_suffix) <> extension k) ≡ none)
      → Represents codec ids (base <> gc_suffix) disk nothing (all_touched (base <> gc_suffix) disk)
  unfolding contents serialize_items
  Represents-nothing disk gone = record {
    content = _;
    holds = all_touched-Holds (base <> gc_suffix) disk;
    encodes = record {
      high_priority = rw (gone (items high)) refl;
      low_priority = rw (gone (items low)) refl;
      completed = rw (gone completed) refl;
    };
  }

  -- The files of the collection and the normal files after `compact`.
  record Compacted (disk : Disk) (added : FileKind → Bytes) (journal : Journal U T)
      (r : Result Error (Unit {0}) × Store) : Type 0 where
    d : Disk
    step : r ≡ (ok tt, store_at base (base <> gc_suffix) d)
    kept : (k : FileKind) → HashMap.get d ((base <> gc_suffix) <> extension k) ≡ some (added k)
    encodes : Encodes codec ids (λ k. contents d (base <> extension k)) journal

  compact-Compacted :
      (disk : Disk) (content added : FileKind → Bytes) (journal : Journal U T)
      → ((k : FileKind) → HashMap.get disk (base <> extension k) ≡ some (content k))
      → ((k : FileKind) → HashMap.get disk ((base <> gc_suffix) <> extension k) ≡ some (added k))
      → Encodes codec ids content journal
      → Compacted disk added
          (compacted journal)
          (compact no_faults codec ids base (store_at base (base <> gc_suffix) disk))
  unfolding contents serialize_items string_eq Collection.backup
  compact-Compacted disk content added journal there gc_there n =
      let live = is_live (HashSet.from_iter journal.completed) in
      let h =
        serialize_items-filter codec live journal.high_priority (content (items high))
          n.high_priority in
      let l =
        serialize_items-filter codec live journal.low_priority (content (items low))
          n.low_priority in
      let v : View = λ s. HashMap.get disk (base <> s) in
      let c =
        compact-eq codec ids base (base <> gc_suffix) disk v journal.high_priority
          journal.low_priority journal.completed (content (items high)) (content (items low))
          (content completed) h.0 l.0 (λ s. refl) (there (items high)) (there (items low))
          (there completed) n.high_priority n.low_priority n.completed h.1 l.1 in
      let gc_path : (k : FileKind)
          → (base <> gc_suffix) <> extension k ≡ base <> (gc_suffix <> extension k) =
        λ k. <>_assoc base gc_suffix (extension k) in
      record {
        d = c.0;
        step = c.1;
        kept = λ k.
            ap (HashMap.get c.0) (gc_path k)
            ∙ c.2 (gc_suffix <> extension k)
            ∙ compacted_view-gc (content (items high)) (content (items low)) h.0 l.0 v k
            ∙ ap (HashMap.get disk) (sym (gc_path k))
            ∙ gc_there k;
        encodes = record {
          high_priority = rw (c.2 (extension (items high))) h.1;
          low_priority = rw (c.2 (extension (items low))) l.1;
          completed = rw (c.2 (extension completed)) refl;
        };
      }

  -- With no errors of the file system and a manager that flushes, if the disk holds a journal, what
  -- the other threads write during a garbage collection can be serialized, and no files of an
  -- earlier collection are there, the collection succeeds; the files then hold the items of the
  -- journal that were not completed, without the ids of the completed ones, and after them what the
  -- other threads wrote, and the files of the collection are gone.
  pub run_garbage_collection-Done :
      (journal : Journal U T) (cs : List (Command U T)) (disk : Disk)
      → Persists journal disk
      → All (IsSerializable codec ids) cs
      → Done (joined (compacted journal) (record_commands cs nothing)) (
          run_garbage_collection no_faults codec ids
            (λ s. (run_commands codec ids cs s).1)
            (store_at base base disk))
  unfolding run_garbage_collection get_file_path
  run_garbage_collection-Done journal cs disk p h =
      let gc = base <> gc_suffix in
      let r = p.represents in
      let d1 = all_touched gc disk in
      let ran =
        run_commands-Ran codec ids base gc disk nothing d1 cs h
          (Represents-nothing disk p.collected) in
      let d2 = (run_commands codec ids cs (store_at base gc d1)).1.disk in
      let g = ran.represents in
      let there : (k : FileKind) → HashMap.get d2 (base <> extension k) ≡ some (r.content k) = λ k.
        g.holds.others (base <> extension k) (λ i. gc_path_apart base i k) ∙ r.holds.stored k in
      let c = compact-Compacted d2 r.content g.content journal there g.holds.stored r.encodes in
      let d4 = all_touched base c.d in
      let normal : FileKind → Bytes = λ k. contents c.d (base <> extension k) in
      let merged =
        merge-Succeeded codec ids base c.d normal g.content (record_commands cs nothing) d4
          (all_touched-Holds base c.d) c.kept g.encodes in
      let d5 = (merge no_faults codec ids gc (store_at base base d4)).1.disk in
      let gc_there : (k : FileKind) → HashMap.get d5 (gc <> extension k) ≡ some (g.content k) =
        λ k. merged.holds.others (gc <> extension k) (path_apart_gc base k) ∙ c.kept k in
      let eq : run_garbage_collection no_faults codec ids (λ s. (run_commands codec ids cs s).1)
            (store_at base base disk)
          ≡ (ok tt, store_at base base (removed gc d5)) =
        >>=-step _ _ (switch_to-eq base gc base disk) (
          >>=-step _ _ (ap (λ z. (ok tt, z.1)) ran.step) (
            >>=-step _ _ c.step (
              >>=-step _ _ (switch_to-eq base base gc c.d) (
                >>=-step _ _ merged.step
                  (remove_gc_files-eq base base gc d5 g.content gc_there))))) in
      rw eq (record {
        step = refl;
        persists = record {
          represents = record {
            content = _;
            holds = record {
              stored = λ k.
                  get-removed gc (base <> extension k) d5 (λ i. gc_path_apart base i k)
                  ∙ merged.holds.stored k;
              others = λ j apart. refl;
            };
            encodes =
                Encodes-joined codec ids normal g.content (compacted journal) _ c.encodes g.encodes;
          };
          collected = get-removed-none gc d5;
        };
      })
