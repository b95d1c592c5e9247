-- ===== src/FileManager/Views.antt =====
-- The files whose paths begin with the prefix of the manager of src/internal_queue_file_manager.rs,
-- by what follows the prefix.
use Prim.Native.String.{◌++◌ as ◌<>◌}
use brqueue.Base.{
  ◌≡◌, refl, ap, ◌∙◌, String, Option, none, some, [], Result, ok, if◌then◌else◌, string_eq, ◌==◌,
  ==-append, arith,
}
use brqueue.Std.Fs
use brqueue.Std.Fs.{Disk, Bytes, no_faults}
use brqueue.Std.HashMap
use brqueue.Std.Io.{IoError}
use brqueue.Std.BufWriter
use brqueue.Std.BufWriter.{BufWriter, contents}
use brqueue.Std.BufWriter.Writes.{Written, get-Written, Written-self}
use brqueue.Std.Mutex
use brqueue.Std.Mutex.{Mutex}
use brqueue.Models.{high, low}
use brqueue.FileManager.Files.{
  FileKind, items, completed, extension, get_file_path, Exec, ◌>>=◌, on_disk, >>=-step, pure,
  with_disk, open_one, open_for_append, drop_files,
}
use brqueue.FileManager.Collection.{rename, remove_file, create, switch_to}
use brqueue.FileManager.Opened.{writer_at, references_at, store_at, Holds}

abbrev pub View : Type 0
View = String → Option Bytes

abbrev pub Sees : String → Disk → View → Type 0
Sees base disk v = (s : String) → HashMap.get disk (base <> s) ≡ v s

abbrev pub put : String → Bytes → View → View
put a bytes v s = if a == s then some bytes else v s

abbrev pub hide : String → View → View
hide a v s = if a == s then none else v s

pub remove_path-eq :
    (base q path : String) (disk : Disk) (bytes : Bytes)
    → HashMap.get disk path ≡ some bytes
    → remove_file no_faults path (store_at base q disk)
      ≡ (ok tt, store_at base q (HashMap.remove disk path))
unfolding remove_file with_disk on_disk Fs.remove_file HashMap.get HashMap.remove
remove_path-eq base q path disk bytes h = rw h refl

module _ (base q : String) (disk : Disk) (v : View) (sees : Sees base disk v) where
  pub Sees-Written :
      (a : String) (bytes : Bytes) (d : Disk)
      → Written (base <> a) disk bytes d
      → Sees base d (put a bytes v)
  Sees-Written a bytes d w s = w (base <> s) ∙ rw (==-append base a s, sees s) refl

  pub Sees-insert :
      (a : String) (bytes : Bytes)
      → Sees base (HashMap.insert disk (base <> a) bytes) (put a bytes v)
  Sees-insert a bytes = Sees-Written a bytes _ (λ j. HashMap.get-insert disk (base <> a) j bytes)

  pub Sees-remove : (a : String) → Sees base (HashMap.remove disk (base <> a)) (hide a v)
  Sees-remove a s =
      HashMap.get-remove disk (base <> a) (base <> s) ∙ rw (==-append base a s, sees s) refl

  pub rename-eq :
      (a b : String) (bytes : Bytes)
      → v a ≡ some bytes
      → rename no_faults (base <> a) (base <> b) (store_at base q disk) ≡ (
        ok tt,
        store_at base q (HashMap.insert (HashMap.remove disk (base <> a)) (base <> b) bytes),
      )
  unfolding rename with_disk on_disk Fs.rename HashMap.get HashMap.insert
  rename-eq a b bytes h = rw (sees a ∙ h) refl

  pub remove_file-eq :
      (a : String) (bytes : Bytes)
      → v a ≡ some bytes
      → remove_file no_faults (base <> a) (store_at base q disk)
        ≡ (ok tt, store_at base q (HashMap.remove disk (base <> a)))
  remove_file-eq a bytes h = remove_path-eq base q (base <> a) disk bytes (sees a ∙ h)

  pub create-eq :
      (a : String)
      → create no_faults (base <> a) (store_at base q disk)
        ≡ (ok tt, store_at base q (HashMap.insert disk (base <> a) []))
  unfolding create with_disk on_disk Fs.create
  create-eq a = refl

pub with_disk-ok :
    (m : Exec Disk (Unit {0})) (base q : String) (disk d : Disk)
    → m disk ≡ (ok tt, d)
    → with_disk m (store_at base q disk) ≡ (ok tt, store_at base q d)
unfolding with_disk
with_disk-ok m base q disk d h = ap (λ r. (r.0, store_at base q r.1)) h

-- A file that is opened for appending is there from then on.
touched_by : Option Bytes → Disk → String → Disk
touched_by none disk path = HashMap.insert disk path []
touched_by (some bytes) disk path = disk

touched : Disk → String → Disk
unfolding touched_by
touched disk path = touched_by (HashMap.get disk path) disk path

touched_by-Written :
    (disk : Disk) (path : String) (o : Option Bytes)
    → HashMap.get disk path ≡ o
    → Written path disk (contents disk path) (touched_by o disk path)
unfolding touched_by contents
touched_by-Written disk path none h j = rw h (HashMap.get-insert disk path j [])
touched_by-Written disk path (some bytes) h j = rw h (Written-self path disk bytes h j)

touched-Written :
    (disk : Disk) (path : String) → Written path disk (contents disk path) (touched disk path)
unfolding touched
touched-Written disk path = touched_by-Written disk path (HashMap.get disk path) refl

touched-keeps :
    (disk : Disk) (path j : String) (bytes : Bytes)
    → HashMap.get disk j ≡ some bytes
    → HashMap.get (touched disk path) j ≡ some bytes
unfolding contents
touched-keeps disk path j bytes h = ground (arith, touched-Written disk path j)

contents-touched :
    (disk : Disk) (path j : String) → contents (touched disk path) j ≡ contents disk j
unfolding contents
contents-touched disk path j = ground (arith, touched-Written disk path j)

touched-there :
    (disk : Disk) (path : String) → HashMap.get (touched disk path) path ≡ some (contents disk path)
touched-there disk path =
    get-Written path disk (touched disk path) (contents disk path) (touched-Written disk path)

open_append-eq :
    (disk : Disk) (path : String) (o : Option Bytes)
    → HashMap.get disk path ≡ o
    → Fs.open_append no_faults disk path ≡ ok (touched disk path)
unfolding Fs.open_append touched touched_by HashMap.get HashMap.insert
open_append-eq disk path none h = rw h refl
open_append-eq disk path (some bytes) h = rw h refl

on_disk-ok :
    (f : Disk → Result IoError Disk) (disk d : Disk) → f disk ≡ ok d → on_disk f disk ≡ (ok tt, d)
unfolding on_disk
on_disk-ok f disk d h = rw (on_disk, h) refl

open_one-eq :
    (p : String) (k : FileKind) (disk : Disk)
    → open_one no_faults p k disk
      ≡ (ok (Mutex.new (writer_at p k)), touched disk (p <> extension k))
unfolding open_one get_file_path ◌>>=◌ on_disk
open_one-eq p k disk =
    let path = p <> extension k in
    let opening = on_disk (λ d. Fs.open_append no_faults d path) in
    >>=-step {s = disk} opening (λ _. pure (Mutex.new (writer_at p k)))
      (on_disk-ok (λ d. Fs.open_append no_faults d path) disk (touched disk path)
        (open_append-eq disk path (HashMap.get disk path) refl))
      refl

unfoldable pub all_touched : String → Disk → Disk
unfolding touched
all_touched p disk =
    touched (touched (touched disk (p <> extension (items high))) (p <> extension (items low)))
      (p <> extension completed)

pub open_for_append-eq :
    (p : String) (disk : Disk)
    → open_for_append no_faults p disk ≡ (ok (references_at p), all_touched p disk)
unfolding open_for_append all_touched ◌>>=◌
open_for_append-eq p disk =
    let first = touched disk (p <> extension (items high)) in
    let second = touched first (p <> extension (items low)) in
    rw
      (
        open_one-eq p (items high) disk,
        open_one-eq p (items low) first,
        open_one-eq p completed second,
      )
      refl

pub switch_to-eq :
    (base p q : String) (disk : Disk)
    → switch_to no_faults p (store_at base q disk) ≡ (ok tt, store_at base p (all_touched p disk))
unfolding switch_to with_disk drop_files BufWriter.drop BufWriter.flush ◌>>=◌
switch_to-eq base p q disk = rw (open_for_append-eq p disk) refl

all_touched-stored :
    (p : String) (disk : Disk) (k : FileKind)
    → HashMap.get (all_touched p disk) (p <> extension k) ≡ some (contents disk (p <> extension k))
unfolding all_touched
all_touched-stored p disk (items high) =
    touched-keeps _ _ _ _ (touched-keeps _ _ _ _ (touched-there disk (p <> extension (items high))))
all_touched-stored p disk (items low) =
    touched-keeps _ _ _ _ (touched-there _ (p <> extension (items low)))
    ∙ ap some (contents-touched disk _ (p <> extension (items low)))
all_touched-stored p disk completed =
    touched-there _ (p <> extension completed)
    ∙ ap some (contents-touched _ _ _ ∙ contents-touched disk _ _)

-- The files are there, with what they held.
pub all_touched-Holds :
    (p : String) (disk : Disk)
    → Holds p disk (λ k. contents disk (p <> extension k)) (all_touched p disk)
unfolding all_touched
all_touched-Holds p disk = record {
  stored = all_touched-stored p disk;
  others = λ j apart.
      touched-Written _ (p <> extension completed) j
      ∙ rw (apart completed) (
          touched-Written _ (p <> extension (items low)) j
          ∙ rw (apart (items low)) (
              touched-Written disk (p <> extension (items high)) j ∙ rw (apart (items high)) refl));
}
