-- ===== src/FileManager/Files.antt =====
-- The files of src/internal_queue_file_manager.rs and how they are opened. Its methods take the
-- manager and the disk, and return them as they left them, also with an error.
use Prim.Native.String.{◌++◌ as ◌<>◌}
use brqueue.Base.{◌≡◌, refl, ◌∙◌, [], String, Bool, Option, none, some, Result, ok, err}
use brqueue.Std.Fs
use brqueue.Std.Fs.{Disk, Faults}
use brqueue.Std.Io.{IoError}
use brqueue.Std.BufWriter
use brqueue.Std.BufWriter.{BufWriter}
use brqueue.Std.Mutex
use brqueue.Std.Mutex.{Mutex}
use brqueue.Models.{Priority, low, high}
use brqueue.FileManager.{Error, io_error}

pub record FileReferences : Type 0 where
  pub high_priority_file : Mutex BufWriter
  pub low_priority_file : Mutex BufWriter
  pub completed_file_index_file : Mutex BufWriter

-- Without the marker of the type of the items.
pub record InternalQueueFileManager : Type 0 where
  pub file_prefix : String
  pub open_files : Mutex FileReferences
  pub gc_lock : Mutex (Unit {0})
  pub require_flush : Bool

abbrev pub file_of : Priority → FileReferences → Mutex BufWriter
file_of low f = f.low_priority_file
file_of high f = f.high_priority_file

abbrev pub set_file : Priority → FileReferences → BufWriter → FileReferences
set_file low f w = record f { low_priority_file = Mutex.write f.low_priority_file w }
set_file high f w = record f { high_priority_file = Mutex.write f.high_priority_file w }

abbrev pub with_io : Result IoError (Unit {0}) → Result Error (Unit {0})
with_io (ok u) = ok tt
with_io (err e) = err (io_error e)

-- The three files by what they hold.
pub data FileKind : Type 0 where
  items : Priority → FileKind
  completed : FileKind

abbrev pub file : FileKind → FileReferences → Mutex BufWriter
file (items p) f = file_of p f
file completed f = f.completed_file_index_file

abbrev pub set : FileKind → FileReferences → BufWriter → FileReferences
set (items p) f w = set_file p f w
set completed f w = record f {
  completed_file_index_file = Mutex.write f.completed_file_index_file w;
}

-- COMPLETED_EXTENSION, HIGH_PRIORITY_EXTENSION and LOW_PRIORITY_EXTENSION.
abbrev pub extension : FileKind → String
extension completed = "_completed.dat"
extension (items high) = "_low_priority.dat"
extension (items low) = "_high_priority.dat"

unfoldable pub get_file_path : String → String → String
get_file_path base ext = base <> ext

-- The manager and the disk that it works on.
pub record Store : Type 0 where
  pub manager : InternalQueueFileManager
  pub disk : Disk

-- A method that can fail on a state: what was changed before an error stays changed.
abbrev pub Exec {ℓ} : Type 0 → Type ℓ → Type ℓ
Exec S A = S → Result Error A × S

abbrev pub continue {ℓ κ} :
    {S : Type 0} {A : Type ℓ} {B : Type κ} → Result Error A → (A → Exec S B) → Exec S B
continue (ok a) f s = f a s
continue (err e) f s = (err e, s)

-- The operator `?`.
infixl 5 ◌>>=◌ ◌>>◌
unfoldable pub ◌>>=◌ {ℓ κ} :
    {S : Type 0} {A : Type ℓ} {B : Type κ} → Exec S A → (A → Exec S B) → Exec S B
◌>>=◌ m f s = let (r, t) = m s in continue r f t

pub >>=-ok {ℓ κ} :
    {S : Type 0} {A : Type ℓ} {B : Type κ} (m : Exec S A) (f : A → Exec S B) (s t : S) (a : A)
    → m s ≡ (ok a, t)
    → (m >>= f) s ≡ f a t
unfolding ◌>>=◌
>>=-ok m f s t a h = rw h refl

pub >>=-step {ℓ κ} :
    {S : Type 0} {A : Type ℓ} {B : Type κ} {s t : S} {a : A} {r : Result Error B × S} (m : Exec S A)
    (f : A → Exec S B)
    → m s ≡ (ok a, t)
    → f a t ≡ r
    → (m >>= f) s ≡ r
>>=-step m f h k = >>=-ok m f _ _ _ h ∙ k

abbrev pub ◌>>◌ {ℓ} : {S : Type 0} {B : Type ℓ} → Exec S (Unit {0}) → Exec S B → Exec S B
m >> n = m >>= λ _. n

abbrev pub pure {ℓ} : {S : Type 0} {A : Type ℓ} → A → Exec S A
pure a s = (ok a, s)

abbrev pub fail {ℓ} : {S : Type 0} {A : Type ℓ} → Error → Exec S A
fail e s = (err e, s)

-- An operation on the disk, whose error is an `IOError`.
unfoldable pub on_disk : (Disk → Result IoError Disk) → Exec Disk (Unit {0})
on_disk f disk = elim (f disk) [ err e ↦ (err (io_error e), disk) | ok changed ↦ (ok tt, changed) ]

unfoldable pub with_disk {ℓ} : {A : Type ℓ} → Exec Disk A → Exec Store A
with_disk m s = let (r, disk) = m s.disk in (r, record s { disk = disk })

module _ (faults : Faults) where
  unfoldable pub open_one : String → FileKind → Exec Disk (Mutex BufWriter)
  unfolding on_disk get_file_path ◌>>=◌
  open_one base kind = do
    let path = get_file_path base (extension kind)
    on_disk (λ disk. Fs.open_append faults disk path)
    pure (Mutex.new (record { path = path; buffer = [] }))

  unfoldable pub open_for_append : String → Exec Disk FileReferences
  unfolding open_one ◌>>=◌
  open_for_append filename = do
    high_file ← open_one filename (items high)
    low_file ← open_one filename (items low)
    completed_file ← open_one filename completed
    pure (record {
      high_priority_file = high_file;
      low_priority_file = low_file;
      completed_file_index_file = completed_file;
    })

  -- The references are dropped, and with them their writers.
  unfoldable pub drop_files : FileReferences → Disk → Disk
  drop_files f disk = BufWriter.drop faults f.completed_file_index_file.value (
      BufWriter.drop faults f.low_priority_file.value
        (BufWriter.drop faults f.high_priority_file.value disk))

  abbrev managed :
      String
      → Bool
      → Result Error FileReferences × Disk
      → Result Error InternalQueueFileManager × Disk
  managed prefix require_flush (err e, disk) = (err e, disk)
  managed prefix require_flush (ok references, disk) = (
    ok (record {
      file_prefix = prefix;
      open_files = Mutex.new references;
      gc_lock = Mutex.new tt;
      require_flush = require_flush;
    }),
    disk,
  )

  -- `InternalQueueFileManager::new` once it has the parent folder.
  unfoldable pub new_in :
      String → String → Bool → Disk → Result Error InternalQueueFileManager × Disk
  unfolding open_for_append
  new_in folder prefix require_flush disk = elim (Fs.create_dir_all faults folder) [
    | err e ↦ (err (io_error e), disk)
    | ok u ↦ managed prefix require_flush (open_for_append prefix disk)
  ]

  -- `InternalQueueFileManager::new`, with `Path::parent` as an argument; `none` is a panic.
  unfoldable pub new :
      (String → Option String)
      → String
      → Bool
      → Disk
      → Option (Result Error InternalQueueFileManager × Disk)
  unfolding new_in
  new parent prefix require_flush disk = elim (parent prefix) [
    | none ↦ none
    | some folder ↦ some (new_in folder prefix require_flush disk)
  ]
