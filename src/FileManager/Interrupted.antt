-- ===== src/FileManager/Interrupted.antt =====
-- `run_garbage_collection` of src/internal_queue_file_manager.rs when a file cannot be renamed.
use Prim.Native.String.{◌++◌ as ◌<>◌}
use brqueue.Base.{◌≡◌, refl, ap, ◌∙◌, String, none, some, List, ok, err, Eq, All, string_eq}
use brqueue.Std.Fs
use brqueue.Std.Fs.{
  Disk, Faults, Operation, opening, creating, creating_folder, writing, renaming, removing,
  no_faults,
}
use brqueue.Std.Io.{IoError}
use brqueue.Std.BufWriter
use brqueue.Models.QueueItem.{QueueItem}
use brqueue.FileItemReader.{Codec}
use brqueue.FileManager.{Error, io_error}
use brqueue.FileManager.Files.{
  extension, get_file_path, Exec, ◌>>=◌, >>=-step, on_disk, with_disk, open_one, open_for_append,
  drop_files,
}
use brqueue.FileManager.Access.{load_items}
use brqueue.FileManager.Collection.{gc_suffix, switch_to, rename, compact, run_garbage_collection}
use brqueue.FileManager.Opened.{store_at}
use brqueue.FileManager.Journal.{
  Journal, Command, nothing, record_commands, pending, run_commands, IsSerializable,
}
use brqueue.FileManager.Recording.{Represents, run_commands-Ran, load_items-Represents}
use brqueue.FileManager.Collecting.{Persists, Represents-nothing}
use brqueue.FileManager.Merging.{gc_path_apart}
use brqueue.FileManager.Views.{switch_to-eq, all_touched}

-- Only renaming fails.
abbrev pub renaming_fails : IoError → Faults
renaming_fails e opening path = none
renaming_fails e creating path = none
renaming_fails e creating_folder path = none
renaming_fails e writing path = none
renaming_fails e renaming path = some e
renaming_fails e removing path = none

>>=-err {ℓ κ} :
    {S : Type 0} {A : Type ℓ} {B : Type κ} {s t : S} {e : Error} (m : Exec S A) (f : A → Exec S B)
    → m s ≡ (err e, t)
    → (m >>= f) s ≡ (err e, t)
unfolding ◌>>=◌
>>=-err m f h = rw h refl

switch_to-renaming_fails :
    (e : IoError) (base p q : String) (disk : Disk)
    → switch_to (renaming_fails e) p (store_at base q disk)
      ≡ switch_to no_faults p (store_at base q disk)
unfolding switch_to open_for_append open_one on_disk with_disk drop_files BufWriter.drop
    BufWriter.flush BufWriter.append Fs.open_append ◌>>=◌
switch_to-renaming_fails e base p q disk = refl

module _ {U T : Type 0} ⦃e : Eq U⦄ (codec : Codec (QueueItem U T)) (ids : Codec U)
    (base : String) where
  compact-renaming_fails :
      (e : IoError) (q : String) (disk : Disk)
      → compact (renaming_fails e) codec ids base (store_at base q disk)
        ≡ (err (io_error e), store_at base q disk)
  unfolding compact rename with_disk on_disk Fs.rename get_file_path
  compact-renaming_fails e q disk = >>=-err _ _ refl

  -- The normal files hold one journal and those of a collection another, to which the manager writes.
  record Split (journal apart : Journal U T) (disk : Disk) : Type 0 where
    normal : Represents codec ids base disk journal disk
    collecting : Represents codec ids (base <> gc_suffix) disk apart disk

  Split-run_commands :
      (journal : Journal U T) (before disk : Disk) (more : Journal U T)
      → Represents codec ids base before journal before
      → Represents codec ids (base <> gc_suffix) before more disk
      → Split journal more disk
  Split-run_commands journal before disk more r g = record {
    normal = record {
      content = r.content;
      holds = record {
        stored = λ k.
            g.holds.others (base <> extension k) (λ i. gc_path_apart base i k) ∙ r.holds.stored k;
        others = λ j apart. refl;
      };
      encodes = r.encodes;
    };
    collecting = record {
      content = g.content;
      holds = record { stored = g.holds.stored; others = λ j apart. refl };
      encodes = g.encodes;
    };
  }

  -- If the disk holds a journal and no files of a collection, no file can be renamed, and what is
  -- written can be serialized, then a garbage collection of a manager that flushes gives the error
  -- of the renaming; the calls that follow succeed, and what they and the other threads have saved
  -- and marked since the collection began is not loaded.
  pub run_garbage_collection-renaming_fails :
      (e : IoError) (journal : Journal U T) (during later : List (Command U T)) (disk : Disk)
      → Persists codec ids base journal disk
      → All (IsSerializable codec ids) during
      → All (IsSerializable codec ids) later
      → let r =
          run_garbage_collection
            (renaming_fails e)
            codec
            ids
            (λ s. (run_commands codec ids during s).1)
            (store_at base base disk) in
        let t = run_commands codec ids later r.1 in
        (r.0 ≡ err (io_error e))
        × (t.0 ≡ ok tt)
        × ((load_items no_faults codec ids t.1).0 ≡ ok (pending journal))
  unfolding run_garbage_collection get_file_path
  run_garbage_collection-renaming_fails e journal during later disk p h k =
      let gc = base <> gc_suffix in
      let d1 = all_touched gc disk in
      let ran =
        run_commands-Ran codec ids base gc disk nothing d1 during h
          (Represents-nothing codec ids base disk p.collected) in
      let d2 = (run_commands codec ids during (store_at base gc d1)).1.disk in
      let eq : run_garbage_collection (renaming_fails e) codec ids
            (λ s. (run_commands codec ids during s).1) (store_at base base disk)
          ≡ (err (io_error e), store_at base gc d2) =
        >>=-step _ _ (switch_to-renaming_fails e base gc base disk ∙ switch_to-eq base gc base disk)
          (>>=-step _ _ (ap (λ z. (ok tt, z.1)) ran.step)
            (>>=-err _ _ (compact-renaming_fails e gc d2))) in
      let s2 =
        Split-run_commands journal disk d2 (record_commands during nothing) p.represents
          ran.represents in
      let more =
        run_commands-Ran codec ids base gc d2 (record_commands during nothing) d2 later k
          s2.collecting in
      let d3 = (run_commands codec ids later (store_at base gc d2)).1.disk in
      let s3 =
        Split-run_commands journal d2 d3 (record_commands later (record_commands during nothing))
          s2.normal more.represents in
      rw eq (
        refl,
        ap (λ z. z.0) more.step,
        ap (λ z. (load_items no_faults codec ids z.1).0) more.step
            ∙ ap (λ z. z.0) (load_items-Represents codec ids base gc d3 journal d3 s3.normal),
      )
