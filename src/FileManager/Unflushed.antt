-- ===== src/FileManager/Unflushed.antt =====
-- Items that src/internal_queue_file_manager.rs saves without flushing, and `flush_data`. There are no
-- errors of the file system.
use brqueue.Base.{◌≡◌, refl, ap, ◌∙◌, String, false, List, [], ◌∷◌, Result, ok, Eq, All}
use brqueue.Std.Fs.{Disk, Bytes, no_faults}
use brqueue.Models.QueueItem.{QueueItem}
use brqueue.FileItemReader.{Codec}
use brqueue.FileManager.{Error}
use brqueue.FileManager.Files.{FileKind, items, Store, Exec, ◌>>=◌, ◌>>◌, >>=-ok, pure}
use brqueue.FileManager.Access.{load_items, flush_data}
use brqueue.FileManager.Opened.{appended, saving}
use brqueue.FileManager.Journal.{Journal, record_item, pending, Encodes, Encodes-record_item}
use brqueue.FileManager.Recording.{load_items-Encodes}
use brqueue.FileManager.Unwritten.{saving-Kept}
use brqueue.FileManager.Buffered.{buffered_at, Keeps, Kept, flush_data-eq, flushed_all}

module _ {U T : Type 0} where
  unfoldable pub record_items : List (QueueItem U T) → Journal U T → Journal U T
  record_items [] journal = journal
  record_items (x ∷ xs) journal = record_items xs (record_item x.priority x journal)

  unfoldable pub save_all : Codec (QueueItem U T) → List (QueueItem U T) → Exec Store (Unit {0})
  save_all codec [] = pure tt
  save_all codec (x ∷ xs) = saving codec x >> save_all codec xs

  abbrev pub CanSave : Codec (QueueItem U T) → QueueItem U T → Type 0
  CanSave codec item = (bytes : Bytes) × (codec.serialize item ≡ ok bytes)

module _ {U T : Type 0} (codec : Codec (QueueItem U T)) (ids : Codec U) (base : String) where
  -- The saved items are in the files and their writers.
  record Saved (journal : Journal U T) (r : Result Error (Unit {0}) × Store) : Type 0 where
    whole : FileKind → Bytes
    kept : Kept base base whole r
    encodes : Encodes codec ids whole journal

  save_all-Saved :
      (xs : List (QueueItem U T)) (journal : Journal U T) (whole buffers : FileKind → Bytes)
      (disk : Disk)
      → All (CanSave codec) xs
      → Keeps base whole buffers disk
      → Encodes codec ids whole journal
      → Saved (record_items xs journal) (save_all codec xs (buffered_at base base buffers disk))
  unfolding save_all record_items
  save_all-Saved [] journal whole buffers disk h keeps n = record {
    whole = whole;
    kept = record { buffers = buffers; disk = disk; step = refl; keeps = keeps };
    encodes = n;
  }
  save_all-Saved (x ∷ xs) journal whole buffers disk ((bytes, q), h) keeps n =
      let s = saving-Kept codec base base whole buffers disk x bytes q keeps in
      let eq =
        >>=-ok (saving codec x) (λ _. save_all codec xs) (buffered_at base base buffers disk) _ tt
          s.step in
      rw eq (
        save_all-Saved xs (record_item x.priority x journal)
          (appended (items x.priority) bytes whole) s.buffers s.disk h s.keeps
          (Encodes-record_item codec ids whole journal x.priority x bytes q n))

  -- If the file manager need not flush, and the files and what the writers keep back hold a
  -- journal, then `save_item` of items that can be serialized, one after the other, and then
  -- `flush_data`, succeed, and `load_items` gives what is left to do with the items added; there
  -- are no errors of the file system.
  pub save_all-flush_data :
      ⦃e : Eq U⦄ (xs : List (QueueItem U T)) (journal : Journal U T)
      (whole buffers : FileKind → Bytes) (disk : Disk)
      → All (CanSave codec) xs
      → Keeps base whole buffers disk
      → Encodes codec ids whole journal
      → let t = (save_all codec xs >> flush_data no_faults) (buffered_at base base buffers disk) in
        (t.0 ≡ ok tt)
        × ((load_items no_faults codec ids t.1).0 ≡ ok (pending (record_items xs journal)))
  unfolding ◌>>=◌
  save_all-flush_data xs journal whole buffers disk h keeps n =
      let s = save_all-Saved xs journal whole buffers disk h keeps n in
      let k = s.kept in
      let eq =
        >>=-ok (save_all codec xs) (λ _. flush_data no_faults) (buffered_at base base buffers disk)
          (buffered_at base base k.buffers k.disk) tt k.step
        ∙ flush_data-eq base base k.buffers k.disk in
      let there = flushed_all base s.whole k.buffers k.disk k.keeps in
      (
        ap (λ z. z.0) eq,
        ap (λ z. (load_items no_faults codec ids z.1).0) eq
            ∙ ap (λ z. z.0) (load_items-Encodes codec ids base _ false _ s.whole _ there s.encodes),
      )
