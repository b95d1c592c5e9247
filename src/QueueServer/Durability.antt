-- ===== src/QueueServer/Durability.antt =====
-- The queue server of src/queue_server.rs on the files of src/internal_queue_file_manager.rs: what
-- `enqueue` has saved is there after a restart. There are no errors of the file system.
use brqueue.Base.{◌≡◌, refl, ap, ◌∙◌, String, true, some, List, Result, ok, err, Eq}
use brqueue.Std.Fs.{Disk, Bytes, no_faults}
use brqueue.Std.Mutex
use brqueue.Std.Mutex.{Mutex}
use brqueue.Channel.{Channel}
use brqueue.Rendezvous.{Rendezvous, TrySend, sent, full, disconnected}
use brqueue.FileItemReader.{Codec}
use brqueue.FileManager
use brqueue.FileManager.{Storage}
use brqueue.FileManager.Files
use brqueue.FileManager.Files.{InternalQueueFileManager, Store, new_in}
use brqueue.FileManager.Access.{load_items}
use brqueue.FileManager.Opened.{store_at, saving}
use brqueue.FileManager.Journal.{Journal, save, record_command, pending}
use brqueue.FileManager.Collecting.{Persists}
use brqueue.FileManager.Refinement.{run_command-Done, load_items-Persists}
use brqueue.FileManager.Starting.{new-Persists}
use brqueue.Models.{Priority}
use brqueue.Models.Tags
use brqueue.Models.QueueItem
use brqueue.Models.QueueItem.{QueueItem}
use brqueue.QueueServer.Runtime.{Runtime}
use brqueue.QueueServer.Operations.{
  QueueServer, after_try_send, add_item_to_queue, after_save, enqueue,
}

abbrev opened_store :
    Result FileManager.Error InternalQueueFileManager × Disk → Result FileManager.Error Store
opened_store (ok manager, disk) = ok (record { manager = manager; disk = disk })
opened_store (err e, disk) = err e

-- The storage of a server: its files, on a disk. `parent` is `Path::parent` of a path that has one.
abbrev pub files : {U T : Type 0} → Codec (QueueItem U T) → (String → String) → Disk → Storage U T
files codec parent disk = record {
  State = Store;
  new = λ filename require_flush.
      opened_store (new_in no_faults (parent filename) filename require_flush disk);
  save_item = λ s item. saving codec item s;
}

module _ {U T : Type 0} ⦃e : Eq U⦄ (R : Runtime U T) where
  after_try_send-file_manager :
      (s : QueueServer R) (r : TrySend (QueueItem U T) × R.rendezvous.State)
      → (after_try_send R s r).1.file_manager ≡ s.file_manager
  unfolding after_try_send
  after_try_send-file_manager s (sent, w) = refl
  after_try_send-file_manager s (full item, w) = refl
  after_try_send-file_manager s (disconnected item, w) = refl

  -- The storage is as saving the item has left it, wherever the item goes.
  after_save-file_manager :
      (s : QueueServer R) (item : QueueItem U T)
      (r : Result FileManager.Error (Unit {0}) × R.storage.State)
      → (after_save R s item r).1.file_manager ≡ Mutex.write s.file_manager r.1
  unfolding after_save add_item_to_queue
  after_save-file_manager s item (err x, f) = refl
  after_save-file_manager s item (ok u, f) =
      after_try_send-file_manager (record s { file_manager = Mutex.write s.file_manager f }) _

  enqueue-file_manager :
      (s : QueueServer R) (id : U) (message : T) (priority : Priority) (capabilities : List String)
      (state : R.storage.State)
      → s.file_manager ≡ Mutex.new state
      → let item = QueueItem.new id message (Tags.from capabilities) priority in
        (enqueue R s id message priority capabilities).1.file_manager
        ≡ Mutex.new (R.storage.save_item state item).1
  unfolding enqueue
  enqueue-file_manager s id message priority capabilities state h =
      let item = QueueItem.new id message (Tags.from capabilities) priority in
      let t : QueueServer R = record s { file_manager = Mutex.new state } in
      let same : s ≡ t = ap (λ m. record s { file_manager = m }) h in
      ap (λ z. (enqueue R z id message priority capabilities).1.file_manager) same
      ∙ after_save-file_manager t item (R.storage.save_item state item)

module _ {U T : Type 0} ⦃e : Eq U⦄ (C : Channel (QueueItem U T)) (V : Rendezvous (QueueItem U T))
    (codec : Codec (QueueItem U T)) (ids : Codec U) (parent : String → String) (first : Disk) where
  abbrev pub on_files : Runtime U T
  on_files = record { channel = C; rendezvous = V; storage = files codec parent first }

  -- If the files of a queue server hold a journal, there are no files of a collection, and the
  -- locks of the file manager are sound, then after an `enqueue` of an item that can be serialized,
  -- wherever the item went, a new file manager can be opened, and it loads what is left to do with
  -- the item added; there are no errors of the file system.
  pub enqueue_survives :
      (base : String) (journal : Journal U T) (disk : Disk) (s : QueueServer on_files) (id : U)
      (message : T) (priority : Priority) (capabilities : List String) (bytes : Bytes)
      → let item = QueueItem.new id message (Tags.from capabilities) priority in
        s.file_manager ≡ Mutex.new (store_at base base disk)
        → Persists codec ids base journal disk
        → codec.serialize item ≡ ok bytes
        → let t = (enqueue on_files s id message priority capabilities).1 in
          (d : Disk) × (Files.new no_faults
              (λ p. some (parent p))
              base
              true
              t.file_manager.value.disk
            ≡ some (ok (store_at base base d).manager, d))
          × ((load_items no_faults codec ids (store_at base base d)).0
              ≡ ok (pending (record_command (save item) journal)))
  enqueue_survives base journal disk s id message priority capabilities bytes h p q =
      let item = QueueItem.new id message (Tags.from capabilities) priority in
      let saved = run_command-Done codec ids base journal (save item) disk p (bytes, q) in
      let after = record_command (save item) journal in
      let kept =
        enqueue-file_manager on_files s id message priority capabilities (store_at base base disk)
          h in
      let opened =
        new-Persists codec ids base (λ p. some (parent p)) (parent base) after _ refl
          saved.persists in
      (
        opened.disk,
        rw kept opened.step,
        ap (λ z. z.0) (load_items-Persists codec ids base after opened.disk opened.persists),
      )
