-- ===== src/FileManager/Unwritten.antt =====
-- `save_item` of src/internal_queue_file_manager.rs when it need not flush. There are no errors of the
-- file system.
use Prim.Native.String.{◌++◌ as ◌<>◌}
use brqueue.Base.{
  ◌≡◌, refl, sym, ap, ◌∙◌, String, false, ◌++◌, append_assoc, Result, ok, if◌then◌else◌, string_eq,
  ◌==◌, ==-append, ==_self, ◌⊎◌, inl, inr, subst, arith,
}
use brqueue.Std.Fs.{Disk, Bytes, no_faults}
use brqueue.Std.Io.{IoError}
use brqueue.Std.BufWriter
use brqueue.Std.BufWriter.{BufWriter}
use brqueue.Std.BufWriter.Writes.{Written, write-Kept}
use brqueue.Std.Mutex
use brqueue.Models.{Priority, high, low}
use brqueue.Models.QueueItem.{QueueItem}
use brqueue.FileItemReader.{Codec}
use brqueue.FileManager.{Error}
use brqueue.FileManager.Files.{
  InternalQueueFileManager, FileKind, items, extension, file_of, set_file, with_io,
}
use brqueue.FileManager.Saving.{save_item, save_item-eq, write_encoded}
use brqueue.FileManager.Opened.{appended, saving, kinds}
use brqueue.FileManager.Buffered.{holding, buffered_at, Keeps, Kept}

-- What `save_item` does with the file of a priority.
after_write :
    InternalQueueFileManager
    → Priority
    → Result IoError (Unit {0}) × BufWriter × Disk
    → Result Error (Unit {0}) × InternalQueueFileManager × Disk
after_write m priority (r, w, d) = (
  with_io r,
  record m { open_files = Mutex.write m.open_files (set_file priority m.open_files.value w) },
  d,
)

after_write-eq :
    (base p : String) (buffers : FileKind → Bytes) (priority : Priority) (bytes : Bytes)
    (disk d : Disk)
    → after_write
        (buffered_at base p buffers disk).manager
        priority
        (ok tt, holding p (items priority) bytes, d)
      ≡ (
        ok tt,
        (buffered_at base p
            (λ k. if extension (items priority) == extension k then bytes else buffers k)
            disk).manager,
        d,
      )
unfolding after_write string_eq
after_write-eq base p buffers high bytes disk d = refl
after_write-eq base p buffers low bytes disk d = refl

file_of-buffered_at :
    (base p : String) (buffers : FileKind → Bytes) (disk : Disk) (priority : Priority)
    → file_of priority (buffered_at base p buffers disk).manager.open_files.value
      ≡ Mutex.new (holding p (items priority) (buffers (items priority)))
file_of-buffered_at base p buffers disk high = refl
file_of-buffered_at base p buffers disk low = refl

-- A value for one file.
abbrev changed : FileKind → Bytes → (FileKind → Bytes) → FileKind → Bytes
changed k bytes others j = if extension k == extension j then bytes else others j

together-changed :
    (k j : FileKind) (whole stored buffers : FileKind → Bytes) (bytes first last : Bytes)
    → ((i : FileKind) → stored i ++ buffers i ≡ whole i)
    → first ++ last ≡ stored k ++ (buffers k ++ bytes)
    → (k ≡ j) ⊎ ((extension k == extension j) ≡ false)
    → changed k first stored j ++ changed k last buffers j ≡ appended k bytes whole j
together-changed k j whole stored buffers bytes first last h q (inr differ) = rw differ (h j)
together-changed k j whole stored buffers bytes first last h q (inl same) =
    subst (λ i. changed k first stored i ++ changed k last buffers i ≡ appended k bytes whole i)
      same
      (rw (==_self (extension k))
        (q ∙ sym (append_assoc (stored k) (buffers k) bytes) ∙ ap (λ z. z ++ bytes) (h k)))

Keeps-write :
    (p : String) (k : FileKind) (whole buffers : FileKind → Bytes) (disk d : Disk) (bytes : Bytes)
    (keeps : Keeps p whole buffers disk) (first last : Bytes)
    → Written (p <> extension k) disk first d
    → first ++ last ≡ keeps.stored k ++ (buffers k ++ bytes)
    → Keeps p (appended k bytes whole) (changed k last buffers) d
Keeps-write p k whole buffers disk d bytes keeps first last w q = record {
  stored = changed k first keeps.stored;
  there = λ j.
      w (p <> extension j)
      ∙ rw (==-append p (extension k) (extension j)) (ground (arith, keeps.there j));
  together = λ j.
      together-changed k j whole keeps.stored buffers bytes first last keeps.together q (kinds k j);
}

module _ {U T : Type 0} (codec : Codec (QueueItem U T)) where
  saving-eq :
      (base p : String) (whole buffers : FileKind → Bytes) (disk : Disk) (item : QueueItem U T)
      (bytes : Bytes)
      → codec.serialize item ≡ ok bytes
      → let m = (buffered_at base p buffers disk).manager in
        let k = items item.priority in
        save_item no_faults codec m disk item
        ≡ after_write m item.priority
            (BufWriter.write no_faults (holding p k (buffers k)) disk bytes)
  unfolding write_encoded after_write
  saving-eq base p whole buffers disk item bytes h =
      let m = (buffered_at base p buffers disk).manager in
      let same = file_of-buffered_at base p buffers disk item.priority in
      save_item-eq no_faults codec m disk item bytes refl (ap (λ z. z.poisoned) same) h
      ∙ ap (λ z. after_write m item.priority (BufWriter.write no_faults z.value disk bytes)) same

  pub saving-Kept :
      (base p : String) (whole buffers : FileKind → Bytes) (disk : Disk) (item : QueueItem U T)
      (bytes : Bytes)
      → codec.serialize item ≡ ok bytes
      → Keeps p whole buffers disk
      → Kept base p
          (appended (items item.priority) bytes whole)
          (saving codec item (buffered_at base p buffers disk))
  saving-Kept base p whole buffers disk item bytes h keeps =
      let k = items item.priority in
      let m = (buffered_at base p buffers disk).manager in
      let w =
        write-Kept (p <> extension k) (buffers k) disk (keeps.stored k) bytes (keeps.there k) in
      let d = (BufWriter.write no_faults (holding p k (buffers k)) disk bytes).2 in
      record {
        buffers = changed k w.buffer buffers;
        disk = d;
        step =
            ap (λ r. (r.0, record { manager = r.1; disk = r.2 }))
              (saving-eq base p whole buffers disk item bytes h
                ∙ ap (after_write m item.priority) w.step
                ∙ after_write-eq base p buffers item.priority w.buffer disk d);
        keeps =
            Keeps-write p k whole buffers disk d bytes keeps w.stored w.buffer w.written w.together;
      }
