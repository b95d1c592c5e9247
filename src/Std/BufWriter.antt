-- ===== src/Std/BufWriter.antt =====
-- `std::io::BufWriter` over a file that is opened for appending: bytes are kept back until there are
-- 8 KiB of them or until they are flushed. The file system takes all the bytes of a write or, with a
-- fault, none.
pub mod Writes
use brqueue.Base.{
  ℕ, ◌+◌, ◌<◌, String, ◌≡◌, refl, ap, subst, ◌∙◌, sym, false, Option, none, some, [], ◌∷◌, ◌++◌,
  append_assoc, append-nil, Result, ok, err, length, if◌then◌else◌, string_eq, ◌==◌, ==_self, ite,
  dec_lt, arith, ◌≢◌,
}
use brqueue.Std.Fs.{Disk, Faults, Bytes, writing}
use brqueue.Std.Io.{IoError}
use brqueue.Std.HashMap

pub record BufWriter : Type 0 where
  pub path : String
  pub buffer : Bytes

abbrev pub capacity : ℕ
capacity = 8192

abbrev pub bytes_or_none : Option Bytes → Bytes
bytes_or_none none = []
bytes_or_none (some bytes) = bytes

-- The bytes of a file; none of a file that is not there.
unfoldable pub contents : Disk → String → Bytes
contents disk path = bytes_or_none (HashMap.get disk path)

module _ (faults : Faults) where
  unfoldable pub append : Disk → String → Bytes → Result IoError (Unit {0}) × Disk
  append disk path bytes = elim (faults writing path) [
    | some e ↦ (err e, disk)
    | none ↦ (ok tt, HashMap.insert disk path (contents disk path ++ bytes))
  ]

  abbrev flushed :
      BufWriter → Result IoError (Unit {0}) × Disk → Result IoError (Unit {0}) × BufWriter × Disk
  flushed w (ok u, disk) = (ok tt, record w { buffer = [] }, disk)
  flushed w (err e, disk) = (err e, w, disk)

  unfoldable pub flush : BufWriter → Disk → Result IoError (Unit {0}) × BufWriter × Disk
  flush w disk = elim w.buffer [
    | [] ↦ (ok tt, w, disk)
    | _ ∷ _ ↦ flushed w (append disk w.path w.buffer)
  ]

  -- Bytes that do not fit are written at once if they are as many as a whole buffer.
  abbrev put :
      Bytes
      → Result IoError (Unit {0}) × BufWriter × Disk
      → Result IoError (Unit {0}) × BufWriter × Disk
  put bytes (err e, w, disk) = (err e, w, disk)
  put bytes (ok u, w, disk) =
      ite (dec_lt (length bytes) capacity) (ok tt, record w { buffer = w.buffer ++ bytes }, disk)
        (let (r, d) = append disk w.path bytes in (r, w, d))

  unfoldable pub write : BufWriter → Disk → Bytes → Result IoError (Unit {0}) × BufWriter × Disk
  unfolding flush
  write w disk bytes =
      ite (dec_lt (length w.buffer + length bytes) capacity)
        (ok tt, record w { buffer = w.buffer ++ bytes }, disk) (put bytes (flush w disk))

  -- A writer that is dropped is flushed, and an error is ignored.
  unfoldable pub drop : BufWriter → Disk → Disk
  drop w disk = (flush w disk).2

  -- With no fault, the bytes of a writer end up in its file, after those that are there, and every other
  -- file stays.
  pub record Flushed (w : BufWriter) (disk : Disk) (bytes : Bytes)
      (r : Result IoError (Unit {0}) × BufWriter × Disk) : Type 0 where
    pub done : r.0 ≡ ok tt
    pub emptied : r.1 ≡ record w { buffer = [] }
    pub stored : contents r.2 w.path ≡ contents disk w.path ++ bytes
    pub others : (path : String) → path ≢ w.path → contents r.2 path ≡ contents disk path

  contents-append :
      (disk : Disk) (path : String) (bytes : Bytes) (j : String)
      → contents (HashMap.insert disk path bytes) j ≡ (if path == j then bytes else contents disk j)
  unfolding contents
  contents-append disk path bytes j = ground (arith, HashMap.get-insert disk path j bytes)

  append-stored :
      (disk : Disk) (path : String) (bytes : Bytes) (j : String)
      → faults writing path ≡ none
      → contents (append disk path bytes).1 j
        ≡ (if path == j then contents disk path ++ bytes else contents disk j)
  unfolding append
  append-stored disk path bytes j h =
      rw (h, append) (contents-append disk path (contents disk path ++ bytes) j)

  append-done :
      (disk : Disk) (path : String) (bytes : Bytes)
      → faults writing path ≡ none
      → (append disk path bytes).0 ≡ ok tt
  unfolding append
  append-done disk path bytes h = rw (h, append) refl

  other_path : (path j : String) → j ≢ path → (path == j) ≡ false
  other_path path j ne = ground arith

  append-Flushed :
      (path : String) (disk : Disk) (bytes : Bytes) (buffer : Bytes)
      → faults writing path ≡ none
      → Flushed
          (record { path = path; buffer = buffer })
          disk
          bytes
          (
            (append disk path bytes).0,
            record { path = path; buffer = [] },
            (append disk path bytes).1,
          )
  append-Flushed path disk bytes buffer h = record {
    done = append-done disk path bytes h;
    emptied = refl;
    stored = append-stored disk path bytes path h ∙ rw (==_self path) refl;
    others = λ j ne. append-stored disk path bytes j h ∙ rw (other_path path j ne) refl;
  }

  flush-Flushed :
      (path : String) (buffer : Bytes) (disk : Disk)
      → faults writing path ≡ none
      → Flushed
          (record { path = path; buffer = buffer })
          disk
          buffer
          (flush (record { path = path; buffer = buffer }) disk)
  unfolding flush append
  flush-Flushed path [] disk h = record {
    done = refl;
    emptied = refl;
    stored = sym (append-nil (contents disk path));
    others = λ j ne. refl;
  }
  flush-Flushed path (b ∷ buffer) disk h =
      subst (λ r. Flushed (record { path = path; buffer = b ∷ buffer }) disk (b ∷ buffer) r)
        (rw (h, flush, append) refl) (append-Flushed path disk (b ∷ buffer) (b ∷ buffer) h)

  abbrev pub then_flush :
      Result IoError (Unit {0}) × BufWriter × Disk → Result IoError (Unit {0}) × BufWriter × Disk
  then_flush (err e, w, disk) = (err e, w, disk)
  then_flush (ok u, w, disk) = flush w disk

  -- Two steps of a writer, one after the other.
  Flushed-trans :
      (path : String) (buffer first second kept : Bytes) (disk : Disk)
      (r t : Result IoError (Unit {0}) × BufWriter × Disk)
      → Flushed (record { path = path; buffer = buffer }) disk first r
      → Flushed (record { path = path; buffer = kept }) r.2 second t
      → Flushed (record { path = path; buffer = buffer }) disk (first ++ second) t
  Flushed-trans path buffer first second kept disk r t f g = record {
    done = g.done;
    emptied = g.emptied;
    stored =
        g.stored ∙ ap (λ z. z ++ second) f.stored ∙ append_assoc (contents disk path) first second;
    others = λ j ne. g.others j ne ∙ f.others j ne;
  }

  put-Flushed :
      (path : String) (bytes : Bytes) (disk : Disk) (d : Dec (length bytes < capacity))
      → faults writing path ≡ none
      → Flushed
          (record { path = path; buffer = [] })
          disk
          bytes
          (then_flush (
            ite d
              (ok tt, record { path = path; buffer = bytes }, disk)
              (let (r, t) = append disk path bytes in (r, record { path = path; buffer = [] }, t))))
  unfolding flush
  put-Flushed path bytes disk (yes small) h =
      let f = flush-Flushed path bytes disk h in
      record { done = f.done; emptied = f.emptied; stored = f.stored; others = f.others }
  put-Flushed path bytes disk (no large) h =
      let f = append-Flushed path disk bytes [] h in
      rw (append-done disk path bytes h)
        (record { done = refl; emptied = refl; stored = f.stored; others = f.others })

  write_by :
      (path : String) (buffer bytes : Bytes) (disk : Disk)
      (d : Dec (length buffer + length bytes < capacity))
      → faults writing path ≡ none
      → Flushed
          (record { path = path; buffer = buffer })
          disk
          (buffer ++ bytes)
          (then_flush (
            ite d
              (ok tt, record { path = path; buffer = buffer ++ bytes }, disk)
              (put bytes (flush (record { path = path; buffer = buffer }) disk))))
  write_by path buffer bytes disk (yes fits) h =
      let f = flush-Flushed path (buffer ++ bytes) disk h in
      record { done = f.done; emptied = f.emptied; stored = f.stored; others = f.others }
  write_by path buffer bytes disk (no full) h =
      let w : BufWriter = record { path = path; buffer = buffer } in
      let f = flush-Flushed path buffer disk h in
      let d = (flush w disk).2 in
      let step : flush w disk ≡ (ok tt, record { path = path; buffer = [] }, d) =
        cc (f.done, f.emptied) in
      rw step (
        Flushed-trans path buffer buffer bytes [] disk (flush w disk) _ f
          (put-Flushed path bytes d (dec_lt (length bytes) capacity) h))

  -- A write and then a flush, as `?` chains them, store what was kept back and the new bytes.
  pub write-Flushed :
      (path : String) (buffer bytes : Bytes) (disk : Disk)
      → faults writing path ≡ none
      → Flushed
          (record { path = path; buffer = buffer })
          disk
          (buffer ++ bytes)
          (then_flush (write (record { path = path; buffer = buffer }) disk bytes))
  unfolding write
  write-Flushed path buffer bytes disk h =
      write_by path buffer bytes disk (dec_lt (length buffer + length bytes) capacity) h
