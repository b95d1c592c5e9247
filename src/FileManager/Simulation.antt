-- ===== src/FileManager/Simulation.antt =====
-- Two journals of src/internal_queue_file_manager.rs that leave the same to do, one of which may have
-- dropped what is completed.
use brqueue.Base.{◌≡◌, sym, ap, ◌∙◌, true, List, [], ◌∷◌, ◌++◌, Eq, All, arith}
use brqueue.Std.HashSet.{contains, contains-append}
use brqueue.FileManager.Journal.{
  Journal, Command, save, complete, nothing, compacted, record_commands, pending,
}
use brqueue.FileManager.Merging.{joined}
use brqueue.FileManager.Pending.{
  IsFresh, later, pending-record_commands, pending-joined-compacted, record_commands_after,
}

module _ {U : Type 0} ⦃e : Eq U⦄ where
  contains-later :
      (first second more : List U) (a : U)
      → (contains first a ≡ true → contains second a ≡ true)
      → contains (first ++ more) a ≡ true
      → contains (second ++ more) a ≡ true
  contains-later first second more a h k =
      ground (arith, contains-append first more a, contains-append second more a, h)

module _ {U T : Type 0} ⦃e : Eq U⦄ where
  -- Both journals leave the same to do, and what the first has completed the second has, too.
  pub record Refines (journal spec : Journal U T) : Type 0 where
    pub left : pending journal ≡ pending spec
    pub done : (a : U) → contains journal.completed a ≡ true → contains spec.completed a ≡ true

  IsFresh-mono :
      (first second : List U) (cs : List (Command U T))
      → ((a : U) → contains first a ≡ true → contains second a ≡ true)
      → All (IsFresh second) cs
      → All (IsFresh first) cs
  IsFresh-mono first second [] h f = tt
  IsFresh-mono first second (save item ∷ cs) h (f, fs) =
      (ground (arith, h item.id), IsFresh-mono first second cs h fs)
  IsFresh-mono first second (complete id ∷ cs) h (f, fs) = (tt, IsFresh-mono first second cs h fs)

  pub record_commands-Refines :
      (journal spec : Journal U T) (cs : List (Command U T))
      → All (IsFresh spec.completed) cs
      → Refines journal spec
      → Refines (record_commands cs journal) (record_commands cs spec)
  record_commands-Refines journal spec cs f r =
      let more = record_commands cs nothing in
      record {
        left =
            pending-record_commands journal cs
              (IsFresh-mono journal.completed spec.completed cs r.done f)
            ∙ ap (λ z. later z more) r.left
            ∙ sym (pending-record_commands spec cs f);
        done = λ a.
            rw (record_commands_after cs journal, record_commands_after cs spec)
              (contains-later journal.completed spec.completed more.completed a (r.done a));
      }

  pub compacted-Refines :
      (journal spec : Journal U T) (cs : List (Command U T))
      → All (IsFresh spec.completed) cs
      → Refines journal spec
      → Refines (joined (compacted journal) (record_commands cs nothing)) (record_commands cs spec)
  unfolding contains
  compacted-Refines journal spec cs f r =
      let more = record_commands cs nothing in
      record {
        left =
            pending-joined-compacted journal cs
              (IsFresh-mono journal.completed spec.completed cs r.done f)
            ∙ (record_commands-Refines journal spec cs f r).left;
        done = λ a.
            rw (record_commands_after cs spec)
              (contains-later [] spec.completed more.completed a (λ h. ground arith));
      }
