-- ===== src/Queue.antt =====
-- src/queue.rs: one queue of items over an unbounded channel. The sender and the receiver of the
-- source are the two ends of the channel, so a queue is the channel's state; its clones share it.
pub mod Order
pub mod Conservation
pub mod Threads
use brqueue.Base.{
  ℕ, zero, suc, String, Option, none, some, List, [], ◌∷◌, ◌++◌, Result, ok, err, length,
  if◌then◌else◌,
}
use brqueue.Channel.{Channel}
use brqueue.Models.Tags.{Tags}
use brqueue.Models.QueueItem
use brqueue.Models.QueueItem.{QueueItem}

pub data Error : Type 0 where
  queue_corrupted : Error

-- The `Display` of the error.
unfoldable pub display : Error → String
display queue_corrupted = "Queue corrupted"

module _ {U T : Type 0} (C : Channel (QueueItem U T)) where
  abbrev pub Queue : Type 0
  Queue = C.State

  unfoldable pub new : Queue
  new = C.unbounded

  sent : Queue → Option Queue → Result Error (Unit {0}) × Queue
  sent q none = (err queue_corrupted, q)
  sent q (some r) = (ok tt, r)

  unfoldable pub enqueue : Queue → QueueItem U T → Result Error (Unit {0}) × Queue
  unfolding sent
  enqueue q item = sent q (C.send q item)

  -- `for failure in failures { self.sender.send(failure); }`, which ignores the results.
  unfoldable pub send_all : Queue → List (QueueItem U T) → Queue
  unfolding sent
  send_all q [] = q
  send_all q (item ∷ items) = send_all (sent q (C.send q item)).1 items

  -- The `while let` loop of `pop`; `none` means that the fuel ran out.
  pub pop_loop : Tags → ℕ → Queue → List (QueueItem U T) → Option (Option (QueueItem U T) × Queue)
  unfolding send_all
  pop_loop capabilities zero q failures = none
  pop_loop capabilities (suc fuel) q failures = elim (C.try_recv q) [
    | none ↦ some (none, q)
    | some (item, r) ↦
        let rest = pop_loop capabilities fuel r (failures ++ item ∷ []) in
        if QueueItem.can_be_handled_by item capabilities
        then some (some item, send_all r failures)
        else rest
  ]

  finish :
      Queue
      → Option (Option (QueueItem U T) × Queue)
      → Result Error (Option (QueueItem U T)) × Queue
  finish q none = (ok none, q)
  finish q (some (popped, r)) = (ok popped, r)

  -- One round for each message in the channel, and one that finds it empty.
  unfoldable pub pop : Queue → Tags → Result Error (Option (QueueItem U T)) × Queue
  unfolding pop_loop finish
  pop q capabilities = finish q (pop_loop capabilities (suc (length (C.contents q))) q [])

  -- `try_iter().collect()`; `none` means that the fuel ran out.
  pub try_iter : ℕ → Queue → Option (List (QueueItem U T) × Queue)
  try_iter zero q = none
  try_iter (suc fuel) q = elim (C.try_recv q) [
    | none ↦ some ([], q)
    | some (item, r) ↦ elim (try_iter fuel r) [
      | none ↦ none
      | some (items, s) ↦ some (item ∷ items, s)
    ]
  ]

  refill :
      Queue → Option (List (QueueItem U T) × Queue) → Result Error (List (QueueItem U T)) × Queue
  unfolding send_all
  refill q none = (ok [], q)
  refill q (some (items, r)) = (ok items, send_all r items)

  unfoldable pub get_content : Queue → Result Error (List (QueueItem U T)) × Queue
  unfolding try_iter refill
  get_content q = refill q (try_iter (suc (length (C.contents q))) q)
