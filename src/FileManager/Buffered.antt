-- ===== src/FileManager/Buffered.antt =====
-- The file manager of src/internal_queue_file_manager.rs when it need not flush: what its writers
-- keep back, and `flush_data`. There are no errors of the file system.
use Prim.Native.String.{◌++◌ as ◌<>◌}
use brqueue.Base.{
  ◌≡◌, refl, ap, ◌∙◌, String, false, some, [], ◌++◌, Result, ok, if◌then◌else◌, string_eq, ◌==◌,
  ==-append,
}
use brqueue.Std.Fs.{Disk, Bytes, no_faults}
use brqueue.Std.HashMap
use brqueue.Std.BufWriter
use brqueue.Std.BufWriter.{BufWriter}
use brqueue.Std.BufWriter.Writes.{flush-eq, flush-Written}
use brqueue.Std.Mutex
use brqueue.Models.{high, low}
use brqueue.FileManager.{Error}
use brqueue.FileManager.Files.{FileKind, items, completed, extension, Store, ◌>>=◌}
use brqueue.FileManager.Access.{references, writer, set_writer, flush_file, flush_data}

abbrev pub holding : String → FileKind → Bytes → BufWriter
holding p k bytes = record { path = p <> extension k; buffer = bytes }

-- The manager of `base` that writes to the files of `p`, and what its writers keep back.
abbrev pub buffered_at : String → String → (FileKind → Bytes) → Disk → Store
buffered_at base p buffers disk = record {
  manager = record {
    file_prefix = base;
    open_files = Mutex.new (record {
      high_priority_file = Mutex.new (holding p (items high) (buffers (items high)));
      low_priority_file = Mutex.new (holding p (items low) (buffers (items low)));
      completed_file_index_file = Mutex.new (holding p completed (buffers completed));
    });
    gc_lock = Mutex.new tt;
    require_flush = false;
  };
  disk = disk;
}

-- The bytes of a file, and those that its writer keeps back.
pub record Keeps (p : String) (whole buffers : FileKind → Bytes) (disk : Disk) : Type 0 where
  pub stored : FileKind → Bytes
  pub there : (k : FileKind) → HashMap.get disk (p <> extension k) ≡ some (stored k)
  pub together : (k : FileKind) → stored k ++ buffers k ≡ whole k

-- All files after `flush_data`.
pub flush_data-eq :
    (base p : String) (buffers : FileKind → Bytes) (disk : Disk)
    → let d1 = (BufWriter.flush no_faults (holding p (items high) (buffers (items high))) disk).2 in
      let d2 = (BufWriter.flush no_faults (holding p (items low) (buffers (items low))) d1).2 in
      let d3 = (BufWriter.flush no_faults (holding p completed (buffers completed)) d2).2 in
      flush_data no_faults (buffered_at base p buffers disk)
      ≡ (ok tt, buffered_at base p (λ k. []) d3)
unfolding flush_data flush_file references writer set_writer ◌>>=◌
flush_data-eq base p buffers disk =
    let d1 = (BufWriter.flush no_faults (holding p (items high) (buffers (items high))) disk).2 in
    let d2 = (BufWriter.flush no_faults (holding p (items low) (buffers (items low))) d1).2 in
    rw
      (
        flush-eq (p <> extension (items high)) (buffers (items high)) disk,
        flush-eq (p <> extension (items low)) (buffers (items low)) d1,
        flush-eq (p <> extension completed) (buffers completed) d2,
      )
      refl

each_kind :
    (P : FileKind → Type 0) → P (items high) → P (items low) → P completed → (k : FileKind) → P k
each_kind P h l c (items high) = h
each_kind P h l c (items low) = l
each_kind P h l c completed = c

flushed :
    (p : String) (k j : FileKind) (disk : Disk) (old buffer : Bytes)
    → HashMap.get disk (p <> extension k) ≡ some old
    → HashMap.get (BufWriter.flush no_faults (holding p k buffer) disk).2 (p <> extension j) ≡ (
        if extension k == extension j
        then some (old ++ buffer)
        else HashMap.get disk (p <> extension j))
flushed p k j disk old buffer h =
    flush-Written (p <> extension k) buffer disk old h (p <> extension j)
    ∙ rw (==-append p (extension k) (extension j)) refl

pub flushed_all :
    (p : String) (whole buffers : FileKind → Bytes) (disk : Disk)
    → Keeps p whole buffers disk
    → let d1 = (BufWriter.flush no_faults (holding p (items high) (buffers (items high))) disk).2 in
      let d2 = (BufWriter.flush no_faults (holding p (items low) (buffers (items low))) d1).2 in
      let d3 = (BufWriter.flush no_faults (holding p completed (buffers completed)) d2).2 in
      (k : FileKind) → HashMap.get d3 (p <> extension k) ≡ some (whole k)
unfolding string_eq
flushed_all p whole buffers disk keeps =
    let d1 = (BufWriter.flush no_faults (holding p (items high) (buffers (items high))) disk).2 in
    let d2 = (BufWriter.flush no_faults (holding p (items low) (buffers (items low))) d1).2 in
    let after_high : (j : FileKind) → _ = λ j.
      flushed p (items high) j disk (keeps.stored (items high)) (buffers (items high))
        (keeps.there (items high)) in
    let low_there : HashMap.get d1 (p <> extension (items low)) ≡ some (keeps.stored (items low)) =
      after_high (items low) ∙ keeps.there (items low) in
    let after_low : (j : FileKind) → _ =
      λ j. flushed p (items low) j d1 (keeps.stored (items low)) (buffers (items low)) low_there in
    let completed_there : HashMap.get d2 (p <> extension completed)
        ≡ some (keeps.stored completed) =
      after_low completed ∙ after_high completed ∙ keeps.there completed in
    let after_completed : (j : FileKind) → _ =
      λ j. flushed p completed j d2 (keeps.stored completed) (buffers completed) completed_there in
    each_kind _
      (after_completed (items high)
        ∙ after_low (items high)
        ∙ after_high (items high)
        ∙ ap some (keeps.together (items high)))
      (after_completed (items low) ∙ after_low (items low) ∙ ap some (keeps.together (items low)))
      (after_completed completed ∙ ap some (keeps.together completed))

-- A method has succeeded, and what the files and their writers hold.
pub record Kept (base p : String) (whole : FileKind → Bytes) (r : Result Error (Unit {0}) × Store)
    : Type 0 where
  pub buffers : FileKind → Bytes
  pub disk : Disk
  pub step : r ≡ (ok tt, buffered_at base p buffers disk)
  pub keeps : Keeps p whole buffers disk
