-- ===== src/QueueServer/Exclusive.antt =====
-- Calls of the methods of src/queue_server.rs that interleave, where a pop takes an item from the
-- queues, or is handed one, before it notes the item as being processed.
pub mod Moves
pub mod AtMostOnce
use mathlib.Core.List.{Mem}
use brqueue.Base.{String, ◌≡◌, ok, Option, none, some, List, [], ◌∷◌, ◌++◌, Result, err, Eq}
use brqueue.Models.{Priority}
use brqueue.Models.QueueItem.{QueueItem}
use brqueue.QueueServer.Runtime.{Runtime}
use brqueue.QueueServer.Errors.{Error}
use brqueue.QueueServer.Operations.{
  QueueServer, enqueue, pop_queue, note_processing, acknowledge, fail,
}
use brqueue.QueueServer.Places.{names, places}

module _ {U T : Type 0} ⦃e : Eq U⦄ (R : Runtime U T) where
  -- The server, and the items that pops have in hand and have not yet noted.
  pub record System : Type 0 where
    pub server : QueueServer R
    pub hands : List (QueueItem U T)

  abbrev pub everything : System → List U
  everything s = names R s.hands ++ places R s.server

  -- The item that a result holds.
  abbrev pub found : Result Error (Option (QueueItem U T)) → List (QueueItem U T)
  found (ok (some item)) = item ∷ []
  found (ok none) = []
  found (err x) = []

  -- The items that waiting consumers were handed between two states.
  abbrev pub Handed : QueueServer R → List (QueueItem U T) → QueueServer R → Type 0
  Handed s items t = R.rendezvous.handed t.waiting ≡ R.rendezvous.handed s.waiting ++ items

  pub data Step (s : System) : System → Type 0 where
    -- The identifier that `enqueue` draws is that of no item of the server.
    enqueues :
        (id : U) (message : T) (priority : Priority) (capabilities : List String)
        (handed : List (QueueItem U T))
        → ¬ Mem id (everything s)
        → Handed s.server handed (enqueue R s.server id message priority capabilities).1
        → Step s (record {
          server = (enqueue R s.server id message priority capabilities).1;
          hands = handed ++ s.hands;
        })
    -- `self.queue.pop` of `pop_item`, in its first round or after a timeout
    takes :
        (capabilities : List String)
        → Step s (record {
          server = (pop_queue R s.server capabilities).1;
          hands = found (pop_queue R s.server capabilities).0 ++ s.hands;
        })
    -- the end of `pop`, with an item
    notes :
        (before : List (QueueItem U T)) (item : QueueItem U T) (after : List (QueueItem U T))
        → s.hands ≡ before ++ item ∷ after
        → Step s (record {
          server = (note_processing R (some (ok (some item)), s.server)).1;
          hands = before ++ after;
        })
    acknowledges : (id : U) → Step s (record s { server = (acknowledge R s.server id).1 })
    fails :
        (id : U) (handed : List (QueueItem U T))
        → Handed s.server handed (fail R s.server id).1
        → Step s (record { server = (fail R s.server id).1; hands = handed ++ s.hands })
    -- consumers begin or cease to wait
    waits :
        (w : R.rendezvous.State) → Step s (record s { server = record s.server { waiting = w } })

  pub data Reach (s : System) : System → Type 0 where
    here : Reach s s
    next : {t u : System} → Reach s t → Step t u → Reach s u
