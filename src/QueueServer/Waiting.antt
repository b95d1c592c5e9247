-- ===== src/QueueServer/Waiting.antt =====
-- A pop of src/queue_server.rs that waits for a message: when it returns, and with what.
use brqueue.Base.{
  String, ◌≡◌, refl, ◌↔◌, false, true, none, some, List, [], ◌∷◌, ok, Eq, All, arith,
}
use brqueue.Models.Tags
use brqueue.Models.QueueItem
use brqueue.Models.QueueItem.{QueueItem}
use brqueue.QueueServer.Manager
use brqueue.QueueServer.Manager.Priorities.{NothingFits, pop-NothingFits}
use brqueue.QueueServer.Runtime.{Runtime}
use brqueue.QueueServer.Operations.{
  QueueServer, Wake, received, closed, elapsed, pop_queue, wait_loop, pop_item, note_processing,
  pop,
}
use brqueue.QueueServer.Delivery.{given}

module _ {U T : Type 0} ⦃e : Eq U⦄ (R : Runtime U T) where
  -- A round of the waiting loop that ends after a second, with no item that can be handled.
  abbrev pub IsQuiet : List String → Wake R → Type 0
  IsQuiet capabilities (received item t) = ⊥
  IsQuiet capabilities (closed t) = ⊥
  IsQuiet capabilities (elapsed t) = NothingFits R.channel (Tags.from capabilities) t.queue

  wait_loop-IsQuiet :
      (capabilities : List String) (s : QueueServer R) (wakes : List (Wake R))
      → All (IsQuiet capabilities) wakes
      → (wait_loop R capabilities s wakes).0 ≡ none
  unfolding wait_loop pop_queue
  wait_loop-IsQuiet capabilities s [] quiet = refl
  wait_loop-IsQuiet capabilities s (received item t ∷ wakes) (quiet, rest) = absurd quiet
  wait_loop-IsQuiet capabilities s (closed t ∷ wakes) (quiet, rest) = absurd quiet
  wait_loop-IsQuiet capabilities s (elapsed t ∷ wakes) (quiet, rest) =
      let m = Manager.pop R.channel t.queue capabilities in
      ground (
        arith,
        (pop-NothingFits R.channel t.queue capabilities).1 quiet,
        wait_loop-IsQuiet capabilities (record t { queue = m.1 }) wakes rest,
      )

  All-wait_loop :
      (capabilities : List String) (s : QueueServer R) (wakes : List (Wake R))
      → (wait_loop R capabilities s wakes).0 ≡ none
      → All (IsQuiet capabilities) wakes
  unfolding wait_loop pop_queue
  All-wait_loop capabilities s [] h = tt
  All-wait_loop capabilities s (received item t ∷ wakes) h = cc
  All-wait_loop capabilities s (closed t ∷ wakes) h = cc
  All-wait_loop capabilities s (elapsed t ∷ wakes) h =
      let m = Manager.pop R.channel t.queue capabilities in
      let x : m.0 ≡ ok none = ground arith in
      (
        (pop-NothingFits R.channel t.queue capabilities).0 x,
        All-wait_loop capabilities (record t { queue = m.1 }) wakes (ground arith),
      )

  -- The waiting loop still waits exactly when every round so far was quiet: it returns as soon as a
  -- message comes in, the channel closes, or a round finds an item that can be handled.
  pub wait_loop-none_iff :
      (capabilities : List String) (s : QueueServer R) (wakes : List (Wake R))
      → ((wait_loop R capabilities s wakes).0 ≡ none) ↔ All (IsQuiet capabilities) wakes
  wait_loop-none_iff capabilities s wakes =
      (All-wait_loop capabilities s wakes, wait_loop-IsQuiet capabilities s wakes)

  -- A consumer that waits, because no item can be handled with its capabilities, is given any item
  -- that comes in on the channel, also one that it cannot handle: nothing checks the tags.
  pub wait_ignores_capabilities :
      (s t : QueueServer R) (capabilities : List String) (item : QueueItem U T)
      (wakes : List (Wake R))
      → NothingFits R.channel (Tags.from capabilities) s.queue
      → t.processing.poisoned ≡ false
      → QueueItem.can_be_handled_by item (Tags.from capabilities) ≡ false
      → pop R s capabilities true (received item t ∷ wakes)
        ≡ (some (ok (some item)), given R t t.queue item)
  unfolding pop pop_item pop_queue wait_loop note_processing
  wait_ignores_capabilities s t capabilities item wakes h k unfit =
      ground (arith, (pop-NothingFits R.channel s.queue capabilities).1 h)
