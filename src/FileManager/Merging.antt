-- ===== src/FileManager/Merging.antt =====
-- `run_garbage_collection` of src/internal_queue_file_manager.rs: what came in during the collection is
-- added to the normal files.
use Prim.Native.String.{◌++◌ as ◌<>◌}
use brqueue.Base.{
  ◌≡◌, refl, ◌∙◌, String, false, some, List, [], ◌++◌, Result, ok, string_eq, ◌==◌, ==-append,
  <>_assoc, Eq, arith,
}
use brqueue.Std.Fs.{Disk, Bytes, no_faults}
use brqueue.Std.HashMap
use brqueue.Std.BufWriter.{BufWriter}
use brqueue.Models.{high, low}
use brqueue.Models.QueueItem.{QueueItem}
use brqueue.FileItemReader.{Codec, serialize_items}
use brqueue.FileItemReader.Writing.{serialize_items-append}
use brqueue.FileManager.{Error}
use brqueue.FileManager.Files.{FileKind, items, completed, extension, get_file_path, >>=-step}
use brqueue.FileManager.Access.{writer, set_writer}
use brqueue.FileManager.Collection.{copy_back, merge, gc_suffix, write_and_flush}
use brqueue.FileManager.Opened.{
  store_at, writer_at, references_at, appended, Holds, Holds-appended, Succeeded, set-references_at,
}
use brqueue.FileManager.Journal.{Journal, Encodes}
use brqueue.FileManager.Recording.{read_items-eq}
use brqueue.FileManager.Rewriting.{write_and_flush-Rewritten}

gc_apart : (k j : FileKind) → (gc_suffix <> extension k == extension j) ≡ false
unfolding string_eq
gc_apart (items high) (items high) = refl
gc_apart (items high) (items low) = refl
gc_apart (items high) completed = refl
gc_apart (items low) (items high) = refl
gc_apart (items low) (items low) = refl
gc_apart (items low) completed = refl
gc_apart completed (items high) = refl
gc_apart completed (items low) = refl
gc_apart completed completed = refl

-- The files of a collection are not the normal ones.
pub gc_path_apart :
    (base : String) (k j : FileKind)
    → ((base <> gc_suffix) <> extension k == base <> extension j) ≡ false
gc_path_apart base k j =
    rw
      (
        <>_assoc base gc_suffix (extension k),
        ==-append base (gc_suffix <> extension k) (extension j),
      )
      (gc_apart k j)

pub path_apart_gc :
    (base : String) (k j : FileKind)
    → (base <> extension j == (base <> gc_suffix) <> extension k) ≡ false
path_apart_gc base k j = ground (arith, gc_path_apart base k j)

writer-eq :
    (base p : String) (k : FileKind) (disk : Disk)
    → writer k (references_at p) (store_at base p disk) ≡ (ok (writer_at p k), store_at base p disk)
unfolding writer
writer-eq base p (items high) disk = refl
writer-eq base p (items low) disk = refl
writer-eq base p completed disk = refl

set_writer-eq :
    (base p : String) (k : FileKind) (disk d : Disk)
    (f : BufWriter → Disk → Result Error (Unit {0}) × BufWriter × Disk)
    → f (writer_at p k) disk ≡ (ok tt, writer_at p k, d)
    → set_writer k f (writer_at p k) (store_at base p disk) ≡ (ok tt, store_at base p d)
unfolding set_writer
set_writer-eq base p k disk d f h = rw (h, set-references_at p k) refl

-- The bytes of one file of the collection are added to the normal file.
copy_back-Succeeded :
    {X : Type 0} (codec : Codec X) (base gc_path : String) (before : Disk)
    (content : FileKind → Bytes) (k : FileKind) (xs : List X) (bytes : Bytes) (disk : Disk)
    → Holds base before content disk
    → HashMap.get disk (gc_path <> extension k) ≡ some bytes
    → serialize_items codec xs ≡ ok bytes
    → Succeeded base base before
        (appended k bytes content)
        (copy_back no_faults codec k (references_at base) gc_path (store_at base base disk))
unfolding copy_back get_file_path
copy_back-Succeeded codec base gc_path before content k xs bytes disk h there q =
    let w =
      write_and_flush-Rewritten codec (base <> extension k) xs bytes [] disk (content k) q
        (h.stored k) in
    let d = (write_and_flush no_faults codec xs (writer_at base k) disk).2 in
    let eq : copy_back no_faults codec k (references_at base) gc_path (store_at base base disk)
        ≡ (ok tt, store_at base base d) =
      >>=-step _ _ (writer-eq base base k disk) (
        >>=-step _ _
          (read_items-eq codec xs (gc_path <> extension k) bytes (store_at base base disk) there q)
          (set_writer-eq base base k disk d (write_and_flush no_faults codec xs) w.step)) in
    rw eq (record {
      step = refl;
      holds = Holds-appended base before content k bytes disk d h w.written;
    })

pub merge-Succeeded :
    {U T : Type 0} ⦃e : Eq U⦄ (codec : Codec (QueueItem U T)) (ids : Codec U) (base : String)
    (before : Disk) (content added : FileKind → Bytes) (journal : Journal U T) (disk : Disk)
    → Holds base before content disk
    → ((k : FileKind) → HashMap.get before ((base <> gc_suffix) <> extension k) ≡ some (added k))
    → Encodes codec ids added journal
    → Succeeded base base before
        (appended (items low) (added (items low)) (
          appended
            (items high)
            (added (items high))
            (appended completed (added completed) content)))
        (merge no_faults codec ids (base <> gc_suffix) (store_at base base disk))
unfolding merge
merge-Succeeded codec ids base before content added journal disk h there n =
    let gc = base <> gc_suffix in
    let kept : (content : FileKind → Bytes) (d : Disk)
        → Holds base before content d
        → (k : FileKind) → HashMap.get d (gc <> extension k) ≡ some (added k) =
      λ content d h k. h.others (gc <> extension k) (path_apart_gc base k) ∙ there k in
    let f = references_at base in
    let r1 =
      copy_back-Succeeded ids base gc before content completed journal.completed (added completed)
        disk h (kept content disk h completed) n.completed in
    let c1 = appended completed (added completed) content in
    let d1 = (copy_back no_faults ids completed f gc (store_at base base disk)).1.disk in
    let r2 =
      copy_back-Succeeded codec base gc before c1 (items high) journal.high_priority
        (added (items high)) d1 r1.holds (kept c1 d1 r1.holds (items high)) n.high_priority in
    let c2 = appended (items high) (added (items high)) c1 in
    let d2 = (copy_back no_faults codec (items high) f gc (store_at base base d1)).1.disk in
    let r3 =
      copy_back-Succeeded codec base gc before c2 (items low) journal.low_priority
        (added (items low)) d2 r2.holds (kept c2 d2 r2.holds (items low)) n.low_priority in
    let eq : merge no_faults codec ids gc (store_at base base disk)
        ≡ (ok tt, store_at base base _) =
      >>=-step _ _ r1.step (>>=-step _ _ r2.step r3.step) in
    rw eq (record { step = refl; holds = r3.holds })

-- One journal after another.
abbrev pub joined : {U T : Type 0} → Journal U T → Journal U T → Journal U T
joined first second = record {
  high_priority = first.high_priority ++ second.high_priority;
  low_priority = first.low_priority ++ second.low_priority;
  completed = first.completed ++ second.completed;
}

pub Encodes-joined :
    {U T : Type 0} (codec : Codec (QueueItem U T)) (ids : Codec U)
    (content added : FileKind → Bytes) (first second : Journal U T)
    → Encodes codec ids content first
    → Encodes codec ids added second
    → Encodes codec ids
        (appended (items low) (added (items low)) (
          appended
            (items high)
            (added (items high))
            (appended completed (added completed) content)))
        (joined first second)
unfolding string_eq
Encodes-joined codec ids content added first second n m = record {
  high_priority = serialize_items-append codec _ _ _ _ n.high_priority m.high_priority;
  low_priority = serialize_items-append codec _ _ _ _ n.low_priority m.low_priority;
  completed = serialize_items-append ids _ _ _ _ n.completed m.completed;
}
