-- ===== src/Std/BufWriter/Writes.antt =====
-- Writers on a file system without errors: what every file holds after an operation, for
-- src/internal_queue_file_manager.rs.
use brqueue.Base.{
  ◌≡◌, refl, sym, ◌∙◌, ◌<◌, ◌+◌, String, some, [], ◌∷◌, ◌++◌, append_assoc, append-nil, ok, length,
  if◌then◌else◌, string_eq, ◌==◌, ==_self, ite, dec_lt, arith, Result,
}
use brqueue.Std.Fs.{Disk, Bytes, no_faults}
use brqueue.Std.Io.{IoError}
use brqueue.Std.HashMap
use brqueue.Std.BufWriter.{
  BufWriter, capacity, contents, append, flush, put, write, then_flush, flush-Flushed,
}

-- One file holds these bytes, and every other file is as before.
abbrev pub Written : String → Disk → Bytes → Disk → Type 0
Written path disk stored d =
    (j : String) → HashMap.get d j ≡ (if path == j then some stored else HashMap.get disk j)

pub get-Written :
    (path : String) (disk d : Disk) (stored : Bytes)
    → Written path disk stored d
    → HashMap.get d path ≡ some stored
get-Written path disk d stored w = w path ∙ rw (==_self path) refl

pub Written-trans :
    (path : String) (disk d t : Disk) (first second : Bytes)
    → Written path disk first d
    → Written path d second t
    → Written path disk second t
Written-trans path disk d t first second v w j = ground (arith, v j, w j)

pub Written-self :
    (path : String) (disk : Disk) (old : Bytes)
    → HashMap.get disk path ≡ some old
    → Written path disk old disk
Written-self path disk old h j = ground arith

append-Written :
    (path : String) (disk : Disk) (old bytes : Bytes)
    → HashMap.get disk path ≡ some old
    → Written path disk (old ++ bytes) (append no_faults disk path bytes).1
unfolding append contents
append-Written path disk old bytes h j = rw h (HashMap.get-insert disk path j (old ++ bytes))

pub flush-Written :
    (path : String) (buffer : Bytes) (disk : Disk) (old : Bytes)
    → HashMap.get disk path ≡ some old
    → Written path disk
        (old ++ buffer)
        (flush no_faults (record { path = path; buffer = buffer }) disk).2
unfolding flush append
flush-Written path [] disk old h = rw (append-nil old) (Written-self path disk old h)
flush-Written path (b ∷ buffer) disk old h = append-Written path disk old (b ∷ buffer) h

pub flush-eq :
    (path : String) (buffer : Bytes) (disk : Disk)
    → let r = flush no_faults (record { path = path; buffer = buffer }) disk in
      r ≡ (ok tt, record { path = path; buffer = [] }, r.2)
flush-eq path buffer disk =
    let f = flush-Flushed no_faults path buffer disk refl in cc (f.done, f.emptied)

-- A writer that has succeeded: some of the bytes are in its file, the rest is kept back.
pub record Kept (path : String) (disk : Disk) (whole : Bytes)
    (r : Result IoError (Unit {0}) × BufWriter × Disk) : Type 0 where
  pub buffer : Bytes
  pub stored : Bytes
  pub step : r ≡ (ok tt, record { path = path; buffer = buffer }, r.2)
  pub written : Written path disk stored r.2
  pub together : stored ++ buffer ≡ whole

put-Kept :
    (path : String) (disk : Disk) (old bytes : Bytes) (d : Dec (length bytes < capacity))
    → HashMap.get disk path ≡ some old
    → Kept path disk (old ++ bytes) (
        ite d
          (ok tt, record { path = path; buffer = bytes }, disk)
          (let (r, t) = append no_faults disk path bytes in
            (r, record { path = path; buffer = [] }, t)))
unfolding append
put-Kept path disk old bytes (yes small) h = record {
  buffer = bytes;
  stored = old;
  step = refl;
  written = Written-self path disk old h;
  together = refl;
}
put-Kept path disk old bytes (no large) h = record {
  buffer = [];
  stored = old ++ bytes;
  step = refl;
  written = append-Written path disk old bytes h;
  together = append-nil (old ++ bytes);
}

write_by-Kept :
    (path : String) (buffer : Bytes) (disk : Disk) (old bytes : Bytes)
    (d : Dec (length buffer + length bytes < capacity))
    → HashMap.get disk path ≡ some old
    → let w : BufWriter = record { path = path; buffer = buffer } in
      Kept path disk (old ++ (buffer ++ bytes)) (
        ite d
          (ok tt, record { path = path; buffer = buffer ++ bytes }, disk)
          (put no_faults bytes (flush no_faults w disk)))
write_by-Kept path buffer disk old bytes (yes fits) h = record {
  buffer = buffer ++ bytes;
  stored = old;
  step = refl;
  written = Written-self path disk old h;
  together = refl;
}
write_by-Kept path buffer disk old bytes (no full) h =
    let t = (flush no_faults (record { path = path; buffer = buffer }) disk).2 in
    let f = flush-Written path buffer disk old h in
    let k =
      put-Kept path t (old ++ buffer) bytes (dec_lt (length bytes) capacity)
        (get-Written path disk t (old ++ buffer) f) in
    rw (flush-eq path buffer disk) (record {
      buffer = k.buffer;
      stored = k.stored;
      step = k.step;
      written = Written-trans path disk t _ (old ++ buffer) k.stored f k.written;
      together = k.together ∙ append_assoc old buffer bytes;
    })

pub write-Kept :
    (path : String) (buffer : Bytes) (disk : Disk) (old bytes : Bytes)
    → HashMap.get disk path ≡ some old
    → Kept path disk
        (old ++ (buffer ++ bytes))
        (write no_faults (record { path = path; buffer = buffer }) disk bytes)
unfolding write
write-Kept path buffer disk old bytes h =
    write_by-Kept path buffer disk old bytes (dec_lt (length buffer + length bytes) capacity) h

-- Bytes that are written and flushed are in the file.
pub record Stored (path : String) (disk : Disk) (whole : Bytes)
    (r : Result IoError (Unit {0}) × BufWriter × Disk) : Type 0 where
  pub step : r ≡ (ok tt, record { path = path; buffer = [] }, r.2)
  pub written : Written path disk whole r.2

pub then_flush-Stored :
    (path : String) (disk : Disk) (whole : Bytes) (r : Result IoError (Unit {0}) × BufWriter × Disk)
    → Kept path disk whole r
    → Stored path disk whole (then_flush no_faults r)
then_flush-Stored path disk whole r k = rw (k.step) (record {
  step = flush-eq path k.buffer r.2;
  written = rw (sym k.together) (
      Written-trans path disk r.2 _ k.stored (k.stored ++ k.buffer) k.written
        (flush-Written path k.buffer r.2 k.stored (get-Written path disk r.2 k.stored k.written)));
})
