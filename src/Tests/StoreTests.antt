-- ===== src/Tests/StoreTests.antt =====
-- Tests of src/internal_queue_file_manager.rs: a run of the file manager from an empty folder, with a
-- garbage collection during which an item comes in.
use Prim.Native.String.{◌++◌ as ◌<>◌}
use brqueue.Base.{
  ℕ, ◌≡◌, refl, none, some, true, [], ◌∷◌, List, ok, string_eq, nat_eq, ℕ_discrete, err,
}
use brqueue.Std.Fs.{Disk, no_faults, missing}
use brqueue.Std.HashMap
use brqueue.Std.HashSet.{contains, from_iter}
use brqueue.FileItemReader.{serialize_items}
use brqueue.Models.{low, high}
use brqueue.FileManager.Files.{FileKind, items, completed, extension, new, ◌>>◌}
use brqueue.FileManager.Access.{load_items, flush_data}
use brqueue.FileManager.Collection.{gc_suffix, run_garbage_collection}
use brqueue.FileManager.Opened.{store_at}
use brqueue.FileManager.Journal.{
  Command, save, complete, nothing, compacted, record_command, record_item, record_commands,
  pending, run_commands,
}
use brqueue.FileManager.Collecting.{Persists, Done, run_garbage_collection-Done}
use brqueue.FileManager.Merging.{joined}
use brqueue.FileManager.Refinement.{
  calls, collect, run_actions, record_actions, run_actions-load_items, run_commands-Done,
}
use brqueue.FileManager.Starting.{Opened, new-Persists}
use brqueue.Channel.ListChannel.{list_channel}
use brqueue.Rendezvous.ListRendezvous.{list_rendezvous}
use brqueue.Models.Tags
use brqueue.Models.QueueItem
use brqueue.FileManager.{io_error}
use brqueue.FileManager.Interrupted.{renaming_fails, run_garbage_collection-renaming_fails}
use brqueue.QueueServer.Runtime.{Runtime}
use brqueue.QueueServer.Operations.{QueueServer, new_server, enqueue}
use brqueue.QueueServer.Durability.{on_files, enqueue_survives}
use brqueue.FileManager.Buffered.{buffered_at}
use brqueue.FileManager.Unflushed.{save_all, record_items, save_all-flush_data}
use brqueue.Tests.Codecs.{Item, item_with, numbers, plain_items}

abbrev empty_files : Disk
empty_files =
    ("q_low_priority.dat", []) ∷ ("q_high_priority.dat", []) ∷ ("q_completed.dat", []) ∷ []

empty_files-stored : (k : FileKind) → HashMap.get empty_files ("q" <> extension k) ≡ some []
unfolding HashMap.get string_eq
empty_files-stored (items high) = refl
empty_files-stored (items low) = refl
empty_files-stored completed = refl

empty_files-collected :
    (k : FileKind) → HashMap.get empty_files (("q" <> gc_suffix) <> extension k) ≡ none
unfolding HashMap.get string_eq
empty_files-collected (items high) = refl
empty_files-collected (items low) = refl
empty_files-collected completed = refl

empty_files-Persists : Persists plain_items numbers "q" nothing empty_files
unfolding serialize_items
empty_files-Persists = record {
  represents = record {
    content = λ k. [];
    holds = record { stored = empty_files-stored; others = λ j apart. refl };
    encodes = record { high_priority = refl; low_priority = refl; completed = refl };
  };
  collected = empty_files-collected;
}

abbrev before : List (Command ℕ (Unit {0}))
before = save (item_with [] high 7) ∷ save (item_with [] low 8) ∷ complete 7 ∷ []

abbrev during : List (Command ℕ (Unit {0}))
during = save (item_with [] low 5) ∷ complete 8 ∷ []

new-Persists_example :
    Opened plain_items numbers "q" nothing (new no_faults (λ p. some "") "q" true empty_files)
new-Persists_example =
    new-Persists plain_items numbers "q" (λ p. some "") "" nothing empty_files refl
      empty_files-Persists

run_commands-Done_example :
    Done plain_items numbers "q"
      (record_commands before nothing)
      (run_commands plain_items numbers before (store_at "q" "q" empty_files))
run_commands-Done_example =
    run_commands-Done plain_items numbers "q" nothing before empty_files empty_files-Persists
      ((_, refl), ((_, refl), ((_, refl), tt)))

run_garbage_collection-Done_example :
    Done plain_items numbers "q" (joined (compacted nothing) (record_commands during nothing)) (
      run_garbage_collection no_faults plain_items numbers
        (λ s. (run_commands plain_items numbers during s).1)
        (store_at "q" "q" empty_files))
run_garbage_collection-Done_example =
    run_garbage_collection-Done plain_items numbers "q" nothing during empty_files
      empty_files-Persists ((_, refl), ((_, refl), tt))

run_actions-load_items_example :
    ((run_actions plain_items numbers "q" (calls before ∷ collect during ∷ [])
        >> load_items no_faults plain_items numbers)
      (store_at "q" "q" empty_files)).0
    ≡ ok (record { high_priority = []; low_priority = item_with [] low 5 ∷ [] })
unfolding record_actions record_commands record_command record_item pending contains from_iter
    nat_eq ℕ_discrete
run_actions-load_items_example =
    run_actions-load_items plain_items numbers "q" (calls before ∷ collect during ∷ []) nothing
      empty_files empty_files-Persists
      (
        ((_, refl), ((_, refl), ((_, refl), tt))),
        (refl, (refl, (tt, tt))),
        (((_, refl), ((_, refl), tt)), (refl, (tt, tt)), tt),
      )

run_garbage_collection-renaming_fails_example :
    let r =
      run_garbage_collection
        (renaming_fails missing)
        plain_items
        numbers
        (λ s. (run_commands plain_items numbers during s).1)
        (store_at "q" "q" empty_files) in
    let t = run_commands plain_items numbers before r.1 in
    (r.0 ≡ err (io_error missing))
    × (t.0 ≡ ok tt)
    × ((load_items no_faults plain_items numbers t.1).0 ≡ ok (pending nothing))
run_garbage_collection-renaming_fails_example =
    run_garbage_collection-renaming_fails plain_items numbers "q" missing nothing during before
      empty_files empty_files-Persists ((_, refl), ((_, refl), tt))
      ((_, refl), ((_, refl), ((_, refl), tt)))

abbrev runtime : Runtime ℕ (Unit {0})
runtime =
    on_files (list_channel Item) (list_rendezvous Item) plain_items numbers (λ path. "") empty_files

abbrev server : QueueServer runtime
server = new_server runtime (store_at "q" "q" empty_files)

enqueue_survives_example :
    let t = (enqueue runtime server 6 tt high []).1 in
    (d : Disk) × (new no_faults (λ p. some "") "q" true t.file_manager.value.disk
      ≡ some (ok (store_at "q" "q" d).manager, d))
    × ((load_items no_faults plain_items numbers (store_at "q" "q" d)).0
        ≡ ok (record { high_priority = item_with [] high 6 ∷ []; low_priority = [] }))
unfolding Tags.from QueueItem.new pending record_command record_item from_iter contains
enqueue_survives_example =
    enqueue_survives (list_channel Item) (list_rendezvous Item) plain_items numbers (λ path. "")
      empty_files "q" nothing empty_files server 6 tt high [] _ refl empty_files-Persists refl

abbrev two_items : List Item
two_items = item_with [] high 1 ∷ item_with [] low 2 ∷ []

save_all-flush_data_example :
    let t =
      (save_all plain_items two_items >> flush_data no_faults)
        (buffered_at "q" "q" (λ k. []) empty_files) in
    (t.0 ≡ ok tt)
    × ((load_items no_faults plain_items numbers t.1).0
        ≡ ok (record {
          high_priority = item_with [] high 1 ∷ [];
          low_priority = item_with [] low 2 ∷ [];
        }))
unfolding serialize_items record_items pending record_item from_iter contains
save_all-flush_data_example =
    save_all-flush_data plain_items numbers "q" two_items nothing (λ k. []) (λ k. []) empty_files
      ((_, refl), ((_, refl), tt))
      (record { stored = λ k. []; there = empty_files-stored; together = λ k. refl })
      (record { high_priority = refl; low_priority = refl; completed = refl })
