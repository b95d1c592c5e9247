-- ===== src/FileManager/Removal.antt =====
-- The end of `run_garbage_collection` of src/internal_queue_file_manager.rs: the files of the
-- collection are removed.
use Prim.Native.String.{◌++◌ as ◌<>◌}
use brqueue.Base.{◌≡◌, refl, ◌∙◌, String, false, none, some, ok, string_eq, ◌==◌}
use brqueue.Std.Fs.{Disk, Bytes, no_faults}
use brqueue.Std.HashMap
use brqueue.Models.{high, low}
use brqueue.FileManager.Files.{FileKind, items, completed, extension, get_file_path, >>=-step}
use brqueue.FileManager.Collection.{remove_gc_files}
use brqueue.FileManager.Opened.{store_at}
use brqueue.FileManager.Views.{View, Sees, hide, Sees-remove, remove_path-eq}

unfoldable pub removed : String → Disk → Disk
removed gc_path disk =
    HashMap.remove
      (HashMap.remove (HashMap.remove disk (gc_path <> extension completed))
        (gc_path <> extension (items high)))
      (gc_path <> extension (items low))

pub get-removed :
    (gc_path j : String) (disk : Disk)
    → ((k : FileKind) → (gc_path <> extension k == j) ≡ false)
    → HashMap.get (removed gc_path disk) j ≡ HashMap.get disk j
unfolding removed
get-removed gc_path j disk apart =
    HashMap.get-remove _ (gc_path <> extension (items low)) j
    ∙ rw (apart (items low)) (
        HashMap.get-remove _ (gc_path <> extension (items high)) j
        ∙ rw (apart (items high)) (
            HashMap.get-remove disk (gc_path <> extension completed) j ∙ rw (apart completed) refl))

-- The files of a collection while they are removed.
Sees-removed :
    (gc_path : String) (disk : Disk) (v : View)
    → Sees gc_path disk v
    → Sees gc_path (removed gc_path disk) (
        hide (extension (items low)) (hide (extension (items high)) (hide (extension completed) v)))
unfolding removed
Sees-removed gc_path disk v sees =
    Sees-remove gc_path gc_path _ _
      (Sees-remove gc_path gc_path _ _
        (Sees-remove gc_path gc_path disk v sees (extension completed)) (extension (items high)))
      (extension (items low))

pub get-removed-none :
    (gc_path : String) (disk : Disk) (k : FileKind)
    → HashMap.get (removed gc_path disk) (gc_path <> extension k) ≡ none
unfolding string_eq
get-removed-none gc_path disk (items high) =
    Sees-removed gc_path disk (λ s. HashMap.get disk (gc_path <> s)) (λ s. refl)
      (extension (items high))
get-removed-none gc_path disk (items low) =
    Sees-removed gc_path disk (λ s. HashMap.get disk (gc_path <> s)) (λ s. refl)
      (extension (items low))
get-removed-none gc_path disk completed =
    Sees-removed gc_path disk (λ s. HashMap.get disk (gc_path <> s)) (λ s. refl)
      (extension completed)

pub remove_gc_files-eq :
    (base q gc_path : String) (disk : Disk) (added : FileKind → Bytes)
    → ((k : FileKind) → HashMap.get disk (gc_path <> extension k) ≡ some (added k))
    → remove_gc_files no_faults gc_path (store_at base q disk)
      ≡ (ok tt, store_at base q (removed gc_path disk))
unfolding remove_gc_files get_file_path removed string_eq
remove_gc_files-eq base q gc_path disk added there =
    let v : View = λ s. HashMap.get disk (gc_path <> s) in
    let d1 = HashMap.remove disk (gc_path <> extension completed) in
    let v1 = hide (extension completed) v in
    let s1 : Sees gc_path d1 v1 =
      Sees-remove gc_path gc_path disk v (λ s. refl) (extension completed) in
    let d2 = HashMap.remove d1 (gc_path <> extension (items high)) in
    let v2 = hide (extension (items high)) v1 in
    let s2 : Sees gc_path d2 v2 = Sees-remove gc_path gc_path d1 v1 s1 (extension (items high)) in
    >>=-step _ _
      (remove_path-eq base q (gc_path <> extension completed) disk (added completed)
        (there completed))
      (>>=-step _ _
        (remove_path-eq base q (gc_path <> extension (items high)) d1 (added (items high))
          (s1 (extension (items high)) ∙ there (items high)))
        (remove_path-eq base q (gc_path <> extension (items low)) d2 (added (items low))
          (s2 (extension (items low)) ∙ there (items low))))
