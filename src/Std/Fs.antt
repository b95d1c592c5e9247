-- ===== src/Std/Fs.antt =====
-- `std::fs`: files by their paths. A fault is an error that the operating system gives for an
-- operation on a path; without one an operation fails only on a file that is not there.
use brqueue.Base.{ℕ, String, Option, none, some, List, [], Result, ok, err, string_eq}
use brqueue.Std.Io.{IoError, not_found}
use brqueue.Std.HashMap
use brqueue.Std.HashMap.{HashMap}

abbrev pub Bytes : Type 0
Bytes = List ℕ

abbrev pub Disk : Type 0
Disk = HashMap String Bytes

pub data Operation : Type 0 where
  opening creating creating_folder writing renaming removing : Operation

abbrev pub Faults : Type 0
Faults = Operation → String → Option IoError

-- A file system without errors of its own.
abbrev pub no_faults : Faults
no_faults op path = none

abbrev pub missing : IoError
missing = record { kind = not_found; text = "No such file or directory (os error 2)" }

abbrev pub or_missing : Option Bytes → Result IoError Bytes
or_missing none = err missing
or_missing (some bytes) = ok bytes

abbrev pub unless {ℓ} : {A : Type ℓ} → Option IoError → Result IoError A → Result IoError A
unless none r = r
unless (some e) r = err e

module _ (faults : Faults) where
  -- `File::open`: the bytes that a reader of the file gets.
  unfoldable pub open_file : Disk → String → Result IoError Bytes
  open_file disk path = unless (faults opening path) (or_missing (HashMap.get disk path))

  -- `File::create`, which empties a file that is there.
  unfoldable pub create : Disk → String → Result IoError Disk
  create disk path = unless (faults creating path) (ok (HashMap.insert disk path []))

  -- `fs::create_dir_all`. Folders hold nothing that is read back.
  unfoldable pub create_dir_all : String → Result IoError (Unit {0})
  create_dir_all path = unless (faults creating_folder path) (ok tt)

  -- `OpenOptions::new().append(true).create(true).open(path)`.
  unfoldable pub open_append : Disk → String → Result IoError Disk
  open_append disk path =
      unless (faults opening path) (
        ok
          (elim (HashMap.get disk path) [ none ↦ HashMap.insert disk path [] | some bytes ↦ disk ]))

  -- `fs::rename`, which replaces a file that is there.
  unfoldable pub rename : Disk → String → String → Result IoError Disk
  rename disk from to = unless (faults renaming from) (elim (HashMap.get disk from) [
    | none ↦ err missing
    | some bytes ↦ ok (HashMap.insert (HashMap.remove disk from) to bytes)
  ])

  unfoldable pub remove_file : Disk → String → Result IoError Disk
  remove_file disk path = unless (faults removing path) (elim (HashMap.get disk path) [
    | none ↦ err missing
    | some bytes ↦ ok (HashMap.remove disk path)
  ])
