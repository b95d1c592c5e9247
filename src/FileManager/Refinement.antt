-- ===== src/FileManager/Refinement.antt =====
-- The operations of src/internal_queue_file_manager.rs against the journal that its files stand for:
-- what is saved, marked, collected and loaded, also after a restart. There are no errors of the file
-- system.
use Prim.Native.String.{◌++◌ as ◌<>◌}
use brqueue.Base.{◌≡◌, refl, ap, ◌∙◌, String, List, [], ◌∷◌, Result, ok, Eq, All, none, string_eq}
use brqueue.Std.HashMap
use brqueue.Std.Fs.{Disk, no_faults}
use brqueue.Models.QueueItem.{QueueItem}
use brqueue.FileItemReader.{Codec}
use brqueue.FileManager.{Error}
use brqueue.FileManager.Files.{FileKind, extension, Store, Exec, ◌>>=◌, ◌>>◌, >>=-ok, pure}
use brqueue.FileManager.Access.{load_items}
use brqueue.FileManager.Collection.{gc_suffix, run_garbage_collection}
use brqueue.FileManager.Opened.{store_at}
use brqueue.FileManager.Journal.{
  Journal, Command, record_command, record_commands, pending, run_command, run_commands,
  IsSerializable,
}
use brqueue.FileManager.Recording.{Ran, run_command-Ran, run_commands-Ran, load_items-Represents}
use brqueue.FileManager.Collecting.{Persists, Done, run_garbage_collection-Done}
use brqueue.FileManager.Merging.{path_apart_gc}
use brqueue.FileManager.Pending.{IsFresh}
use brqueue.FileManager.Simulation.{Refines, record_commands-Refines, compacted-Refines}

module _ {U T : Type 0} ⦃e : Eq U⦄ (codec : Codec (QueueItem U T)) (ids : Codec U)
    (base : String) where
  -- If the disk holds a journal, `load_items` gives its items that are not completed, in their order,
  -- and changes nothing.
  pub load_items-Persists :
      (journal : Journal U T) (disk : Disk)
      → Persists codec ids base journal disk
      → load_items no_faults codec ids (store_at base base disk)
        ≡ (ok (pending journal), store_at base base disk)
  load_items-Persists journal disk p =
      load_items-Represents codec ids base base disk journal disk p.represents

  Ran-Done :
      (disk : Disk) (journal : Journal U T) (r : Result Error (Unit {0}) × Store)
      → ((k : FileKind) → HashMap.get disk ((base <> gc_suffix) <> extension k) ≡ none)
      → Ran codec ids base base disk journal r
      → Done codec ids base journal r
  Ran-Done disk journal r gone ran = record {
    step = ran.step;
    persists = record {
      represents = record {
        content = ran.represents.content;
        holds = record { stored = ran.represents.holds.stored; others = λ j apart. refl };
        encodes = ran.represents.encodes;
      };
      collected = λ k.
          ran.represents.holds.others ((base <> gc_suffix) <> extension k) (path_apart_gc base k)
          ∙ gone k;
    };
  }

  pub run_command-Done :
      (journal : Journal U T) (c : Command U T) (disk : Disk)
      → Persists codec ids base journal disk
      → IsSerializable codec ids c
      → Done codec ids base
          (record_command c journal)
          (run_command codec ids c (store_at base base disk))
  run_command-Done journal c disk p h =
      Ran-Done disk _ _ p.collected
        (run_command-Ran codec ids base base disk journal disk c h p.represents)

  -- If the disk holds a journal and no files of a collection, and what is written can be
  -- serialized, then any sequence of `save_item` and `mark_as_completed` of a manager that flushes
  -- succeeds, and the disk holds the journal with that added in its order; there are no errors of
  -- the file system.
  pub run_commands-Done :
      (journal : Journal U T) (cs : List (Command U T)) (disk : Disk)
      → Persists codec ids base journal disk
      → All (IsSerializable codec ids) cs
      → Done codec ids base
          (record_commands cs journal)
          (run_commands codec ids cs (store_at base base disk))
  run_commands-Done journal cs disk p h =
      Ran-Done disk _ _ p.collected
        (run_commands-Ran codec ids base base disk journal disk cs h p.represents)

  -- The calls between two collections, or during one.
  pub data Action : Type 0 where
    calls : List (Command U T) → Action
    collect : List (Command U T) → Action

  abbrev pub commands_of : Action → List (Command U T)
  commands_of (calls cs) = cs
  commands_of (collect cs) = cs

  unfoldable pub run_actions : List Action → Exec Store (Unit {0})
  run_actions [] = pure tt
  run_actions (calls cs ∷ rest) = run_commands codec ids cs >> run_actions rest
  run_actions (collect cs ∷ rest) =
      run_garbage_collection no_faults codec ids (λ s. (run_commands codec ids cs s).1)
      >> run_actions rest

  unfoldable pub record_actions : List Action → Journal U T → Journal U T
  record_actions [] journal = journal
  record_actions (a ∷ rest) journal = record_actions rest (record_commands (commands_of a) journal)

  -- What is written can be serialized, and no item is saved with an id that was marked as completed
  -- in an earlier action.
  abbrev pub IsSound : List Action → Journal U T → Type 0
  IsSound [] journal = Unit {0}
  IsSound (a ∷ rest) journal =
      All (IsSerializable codec ids) (commands_of a)
      × All (IsFresh journal.completed) (commands_of a)
      × IsSound rest (record_commands (commands_of a) journal)

  -- A run that has succeeded, with a journal on the disk that leaves the same to do.
  record Refined (spec : Journal U T) (r : Result Error (Unit {0}) × Store) : Type 0 where
    journal : Journal U T
    done : Done codec ids base journal r
    refines : Refines journal spec

  run_actions-Refined :
      (rest : List Action) (journal spec : Journal U T) (disk : Disk)
      → Persists codec ids base journal disk
      → Refines journal spec
      → IsSound rest spec
      → Refined (record_actions rest spec) (run_actions rest (store_at base base disk))
  unfolding run_actions record_actions
  run_actions-Refined [] journal spec disk p r h = record {
    journal = journal;
    done = record { step = refl; persists = p };
    refines = r;
  }
  run_actions-Refined (calls cs ∷ rest) journal spec disk p r (s, f, h) =
      let d = run_commands-Done journal cs disk p s in
      rw
        (>>=-ok (run_commands codec ids cs) (λ _. run_actions rest) (store_at base base disk) _ tt
          d.step)
        (run_actions-Refined rest (record_commands cs journal) (record_commands cs spec) _
          d.persists (record_commands-Refines journal spec cs f r) h)
  run_actions-Refined (collect cs ∷ rest) journal spec disk p r (s, f, h) =
      let d = run_garbage_collection-Done codec ids base journal cs disk p s in
      let gc = run_garbage_collection no_faults codec ids (λ s. (run_commands codec ids cs s).1) in
      rw (>>=-ok gc (λ _. run_actions rest) (store_at base base disk) _ tt d.step) (
        run_actions-Refined rest _ (record_commands cs spec) _ d.persists
          (compacted-Refines journal spec cs f r) h)

  -- If the disk holds a journal and no files of a collection, then after any sequence of
  -- `save_item`, `mark_as_completed` and garbage collections of a manager that flushes, with calls
  -- between the collections and during them, `load_items` gives what the journal would leave to do
  -- if there were no collections, provided that what is written can be serialized and that no item
  -- is saved with an id that was completed in an earlier action; there are no errors of the file
  -- system.
  pub run_actions-load_items :
      (rest : List Action) (journal : Journal U T) (disk : Disk)
      → Persists codec ids base journal disk
      → IsSound rest journal
      → ((run_actions rest >> load_items no_faults codec ids) (store_at base base disk)).0
        ≡ ok (pending (record_actions rest journal))
  unfolding ◌>>=◌
  run_actions-load_items rest journal disk p h =
      let r =
        run_actions-Refined rest journal journal disk p (record { left = refl; done = λ a k. k })
          h in
      let d = (run_actions rest (store_at base base disk)).1.disk in
      ap (λ z. z.0)
        (>>=-ok (run_actions rest) (λ _. load_items no_faults codec ids) (store_at base base disk)
          (store_at base base d) tt r.done.step)
      ∙ ap (λ z. z.0) (load_items-Persists r.journal d r.done.persists)
      ∙ ap ok r.refines.left
