-- ===== src/FileManager/Pending.antt =====
-- The items that a journal of src/internal_queue_file_manager.rs leaves to do, as it grows and when
-- its completed items are dropped.
use brqueue.Base.{
  ◌≡◌, refl, sym, ap, ◌∙◌, Bool, false, ◌&&◌, List, [], ◌∷◌, ◌++◌, append_assoc, append-nil, Eq,
  All, All-append, filter, filter-append, arith,
}
use brqueue.Std.HashSet.{contains, from_iter, contains-from_iter, contains-append}
use brqueue.Models.{Priority, high, low}
use brqueue.Models.QueueItem.{QueueItem}
use brqueue.FileManager.Access.{StoredItems, is_live}
use brqueue.FileManager.Journal.{
  Journal, Command, save, complete, nothing, compacted, record_item, record_command,
  record_commands, pending,
}
use brqueue.FileManager.Merging.{joined}

module _ {U T : Type 0} where
  record_item-joined :
      (p : Priority) (item : QueueItem U T) (first second : Journal U T)
      → record_item p item (joined first second) ≡ joined first (record_item p item second)
  unfolding record_item
  record_item-joined high item first second =
      ap (λ z. record (joined first second) { high_priority = z })
        (append_assoc first.high_priority second.high_priority (item ∷ []))
  record_item-joined low item first second =
      ap (λ z. record (joined first second) { low_priority = z })
        (append_assoc first.low_priority second.low_priority (item ∷ []))

  record_command-joined :
      (c : Command U T) (first second : Journal U T)
      → record_command c (joined first second) ≡ joined first (record_command c second)
  unfolding record_command
  record_command-joined (save item) first second =
      record_item-joined item.priority item first second
  record_command-joined (complete id) first second =
      ap (λ z. record (joined first second) { completed = z })
        (append_assoc first.completed second.completed (id ∷ []))

  -- What is recorded after a journal comes after it.
  record_commands-joined :
      (cs : List (Command U T)) (first second : Journal U T)
      → record_commands cs (joined first second) ≡ joined first (record_commands cs second)
  unfolding record_commands
  record_commands-joined [] first second = refl
  record_commands-joined (c ∷ cs) first second =
      ap (record_commands cs) (record_command-joined c first second)
      ∙ record_commands-joined cs first (record_command c second)

  module _ ⦃e : Eq U⦄ where
    -- The item is not one of the completed.
    abbrev pub IsFreshItem : List U → QueueItem U T → Type 0
    IsFreshItem done item = contains done item.id ≡ false

    -- The id of an item that is saved is new.
    abbrev pub IsFresh : List U → Command U T → Type 0
    IsFresh done (save item) = IsFreshItem done item
    IsFresh done (complete id) = Unit {0}

    live-append :
        (first second : List U) (item : QueueItem U T)
        → is_live (from_iter (first ++ second)) item
          ≡ (is_live (from_iter first) item && is_live (from_iter second) item)
    live-append first second item =
        rw
          (
            contains-from_iter (first ++ second) item.id,
            contains-from_iter first item.id,
            contains-from_iter second item.id,
            contains-append first second item.id,
          )
          (ground arith)

    filter-live-append :
        (first second : List U) (xs : List (QueueItem U T))
        → filter (is_live (from_iter (first ++ second))) xs
          ≡ filter (is_live (from_iter second)) (filter (is_live (from_iter first)) xs)
    filter-live-append first second [] = refl
    filter-live-append first second (x ∷ xs) =
        ground (arith, live-append first second x, filter-live-append first second xs)

    filter-fresh :
        (done : List U) (xs : List (QueueItem U T))
        → All (IsFreshItem done) xs
        → filter (is_live (from_iter done)) xs ≡ xs
    filter-fresh done [] h = refl
    filter-fresh done (x ∷ xs) (h, hs) =
        ground (arith, contains-from_iter done x.id, filter-fresh done xs hs)

    filter-joined :
        (done second : List U) (xs ys : List (QueueItem U T))
        → All (IsFreshItem done) ys
        → let live = is_live (from_iter second) in
          filter (is_live (from_iter (done ++ second))) (xs ++ ys)
          ≡ filter live (filter (is_live (from_iter done)) xs) ++ filter live ys
    filter-joined done second xs ys h =
        let live : QueueItem U T → Bool = is_live (from_iter done) in
        filter-live-append done second (xs ++ ys)
        ∙ ap (filter (is_live (from_iter second)))
            (filter-append live xs ys ∙ ap (◌++◌ (filter live xs)) (filter-fresh done ys h))
        ∙ filter-append (is_live (from_iter second)) (filter live xs) ys

    -- What is left of these items once more has been recorded.
    abbrev pub later : StoredItems U T → Journal U T → StoredItems U T
    later left more =
        let live = is_live (from_iter more.completed) in
        record {
          high_priority = filter live left.high_priority ++ filter live more.high_priority;
          low_priority = filter live left.low_priority ++ filter live more.low_priority;
        }

    -- What is left of two journals one after the other, if what is saved in the second is new.
    pending-joined :
        (first second : Journal U T)
        → All (IsFreshItem first.completed) second.high_priority
        → All (IsFreshItem first.completed) second.low_priority
        → pending (joined first second) ≡ later (pending first) second
    unfolding pending
    pending-joined first second h l =
        let d = first.completed in
        let c = second.completed in
        rw
          (
            filter-joined d c first.high_priority second.high_priority h,
            filter-joined d c first.low_priority second.low_priority l,
          )
          refl

    All-record_item :
        (done : List U) (p : Priority) (item : QueueItem U T) (journal : Journal U T)
        → IsFreshItem done item
        → All (IsFreshItem done) journal.high_priority
        → All (IsFreshItem done) journal.low_priority
        → All (IsFreshItem done) (record_item p item journal).high_priority
          × All (IsFreshItem done) (record_item p item journal).low_priority
    unfolding record_item
    All-record_item done high item journal f h l = (All-append _ _ _ h (f, tt), l)
    All-record_item done low item journal f h l = (h, All-append _ _ _ l (f, tt))

    All-record_command :
        (done : List U) (c : Command U T) (journal : Journal U T)
        → IsFresh done c
        → All (IsFreshItem done) journal.high_priority
        → All (IsFreshItem done) journal.low_priority
        → All (IsFreshItem done) (record_command c journal).high_priority
          × All (IsFreshItem done) (record_command c journal).low_priority
    unfolding record_command
    All-record_command done (save item) journal f h l =
        All-record_item done item.priority item journal f h l
    All-record_command done (complete id) journal f h l = (h, l)

    All-record_commands :
        (done : List U) (cs : List (Command U T)) (journal : Journal U T)
        → All (IsFresh done) cs
        → All (IsFreshItem done) journal.high_priority
        → All (IsFreshItem done) journal.low_priority
        → All (IsFreshItem done) (record_commands cs journal).high_priority
          × All (IsFreshItem done) (record_commands cs journal).low_priority
    unfolding record_commands
    All-record_commands done [] journal f h l = (h, l)
    All-record_commands done (c ∷ cs) journal (f, fs) h l =
        let (h2, l2) = All-record_command done c journal f h l in
        All-record_commands done cs (record_command c journal) fs h2 l2

    record_commands-IsFresh :
        (done : List U) (cs : List (Command U T))
        → All (IsFresh done) cs
        → All (IsFreshItem done) (record_commands cs nothing).high_priority
          × All (IsFreshItem done) (record_commands cs nothing).low_priority
    record_commands-IsFresh done cs h = All-record_commands done cs nothing h tt tt

    pub record_commands_after :
        (cs : List (Command U T)) (journal : Journal U T)
        → record_commands cs journal ≡ joined journal (record_commands cs nothing)
    record_commands_after cs journal =
        let whole : joined journal nothing ≡ journal = cc (
          append-nil journal.high_priority,
          append-nil journal.low_priority,
          append-nil journal.completed,
        ) in
        ap (record_commands cs) (sym whole) ∙ record_commands-joined cs journal nothing

    -- What is left after some commands depends on what was left before, and on them.
    pub pending-record_commands :
        (journal : Journal U T) (cs : List (Command U T))
        → All (IsFresh journal.completed) cs
        → pending (record_commands cs journal)
          ≡ later (pending journal) (record_commands cs nothing)
    pending-record_commands journal cs h =
        let (highs, lows) = record_commands-IsFresh journal.completed cs h in
        ap pending (record_commands_after cs journal) ∙ pending-joined journal _ highs lows

    All-IsFresh-nothing : (xs : List (QueueItem U T)) → All (IsFreshItem []) xs
    unfolding contains
    All-IsFresh-nothing [] = tt
    All-IsFresh-nothing (x ∷ xs) = (refl, All-IsFresh-nothing xs)

    pending-compacted : (journal : Journal U T) → pending (compacted journal) ≡ pending journal
    unfolding pending
    pending-compacted journal =
        rw
          (
            filter-fresh [] (compacted journal).high_priority (All-IsFresh-nothing _),
            filter-fresh [] (compacted journal).low_priority (All-IsFresh-nothing _),
          )
          refl

    -- Nothing of what is left changes if what is completed is dropped first.
    pub pending-joined-compacted :
        (journal : Journal U T) (cs : List (Command U T))
        → All (IsFresh journal.completed) cs
        → pending (joined (compacted journal) (record_commands cs nothing))
          ≡ pending (record_commands cs journal)
    pending-joined-compacted journal cs h =
        let more = record_commands cs nothing in
        pending-joined (compacted journal) more (All-IsFresh-nothing more.high_priority)
          (All-IsFresh-nothing more.low_priority)
        ∙ ap (λ z. later z more) (pending-compacted journal)
        ∙ sym (pending-record_commands journal cs h)
