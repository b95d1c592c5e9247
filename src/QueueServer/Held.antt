-- ===== src/QueueServer/Held.antt =====
-- Which calls of src/queue_server.rs keep an item that is being processed.
use brqueue.Base.{
  String, ◌≡◌, subst, inl, inr, Bool, false, none, some, List, [], ◌∷◌, ok, err, Eq, ◌==◌, ==_self,
  All, arith, Bool-cases, Result-cases,
}
use brqueue.Std.HashMap
use brqueue.Models.{Priority}
use brqueue.Models.QueueItem.{QueueItem}
use brqueue.QueueServer.Errors.{Error}
use brqueue.QueueServer.Runtime.{Runtime}
use brqueue.QueueServer.Operations.{
  QueueServer, Wake, received, closed, elapsed, Reply, enqueue, pop_queue, wait_loop, pop_item,
  note_processing, pop, acknowledge,
}
use brqueue.QueueServer.Delivery.{in_process}
use brqueue.QueueServer.Enqueue.{enqueue-Accepted}

module _ {U T : Type 0} ⦃e : Eq U⦄ (R : Runtime U T) where
  -- The server holds an item as being processed under the identifier.
  abbrev pub IsHeld : QueueServer R → U → Type 0
  IsHeld s id = (item : QueueItem U T) × (in_process R s id ≡ some item)

  -- The server that a wake of the waiting loop finds.
  abbrev pub found : Wake R → QueueServer R
  found (received item t) = t
  found (closed t) = t
  found (elapsed t) = t

  wait_loop-IsHeld :
      (id : U) (capabilities : List String) (s : QueueServer R) (wakes : List (Wake R))
      → IsHeld s id
      → All (λ w. IsHeld (found w) id) wakes
      → IsHeld (wait_loop R capabilities s wakes).1 id
  unfolding wait_loop pop_queue
  wait_loop-IsHeld id capabilities s [] h k = h
  wait_loop-IsHeld id capabilities s (received item t ∷ wakes) h (now, later) = now
  wait_loop-IsHeld id capabilities s (closed t ∷ wakes) h (now, later) = now
  wait_loop-IsHeld id capabilities s (elapsed t ∷ wakes) h (now, later) =
      let u = (pop_queue R t capabilities).1 in
      let rest = wait_loop-IsHeld id capabilities u wakes now later in
      elim (Result-cases (pop_queue R t capabilities).0) [
        | inr (x, q) ↦ rw (q, wait_loop) now
        | inl (none, q) ↦ rw (q, wait_loop) rest
        | inl (some item, q) ↦ rw (q, wait_loop) now
      ]

  pop_item-IsHeld :
      (id : U) (capabilities : List String) (wait : Bool) (s : QueueServer R)
      (wakes : List (Wake R))
      → IsHeld s id
      → All (λ w. IsHeld (found w) id) wakes
      → IsHeld (pop_item R s capabilities wait wakes).1 id
  unfolding pop_item pop_queue
  pop_item-IsHeld id capabilities wait s wakes h k =
      let t = (pop_queue R s capabilities).1 in
      elim (Result-cases (pop_queue R s capabilities).0) [
        | inr (x, q) ↦ rw (q, pop_item) h
        | inl (some item, q) ↦ rw (q, pop_item) h
        | inl (none, q) ↦ elim (Bool-cases wait) [
          | inl w ↦ rw (q, w, pop_item) (wait_loop-IsHeld id capabilities t wakes h k)
          | inr w ↦ rw (q, w, pop_item) h
        ]
      ]

  note_processing-IsHeld :
      (id : U) (r : Reply R) → IsHeld r.1 id → IsHeld (note_processing R r).1 id
  unfolding note_processing
  note_processing-IsHeld id (none, s) h = h
  note_processing-IsHeld id (some (err x), s) h = h
  note_processing-IsHeld id (some (ok none), s) h = h
  note_processing-IsHeld id (some (ok (some item)), s) (x, h) =
      let put = HashMap.get-insert s.processing.value item.id id item in
      elim (Bool-cases s.processing.poisoned) [
        | inl p ↦ (x, ground (arith))
        | inr p ↦ elim (Bool-cases (item.id == id)) [
          | inl same ↦ (item, ground (arith, put))
          | inr differs ↦ (x, ground (arith, put))
        ]
      ]

  note_processing-found :
      (r : Reply R) (item : QueueItem U T)
      → (note_processing R r).0 ≡ some (ok (some item))
      → IsHeld (note_processing R r).1 item.id
  unfolding note_processing
  note_processing-found (none, s) item h = cc h
  note_processing-found (some (err x), s) item h = cc h
  note_processing-found (some (ok none), s) item h = cc h
  note_processing-found (some (ok (some x)), s) item h =
      let put = HashMap.get-insert s.processing.value x.id x.id x in
      let self = ==_self x.id in
      elim (Bool-cases s.processing.poisoned) [
        | inl p ↦ absurd (ground (arith))
        | inr p ↦
            let same : x ≡ item = ground (arith) in
            subst (λ y. IsHeld (note_processing R (some (ok (some x)), s)).1 y.id) same
              (x, ground (arith, put, self))
      ]

  -- A pop keeps what is held, if the other threads do while it waits.
  pub pop-IsHeld :
      (id : U) (capabilities : List String) (wait : Bool) (s : QueueServer R)
      (wakes : List (Wake R))
      → IsHeld s id
      → All (λ w. IsHeld (found w) id) wakes
      → IsHeld (pop R s capabilities wait wakes).1 id
  unfolding pop
  pop-IsHeld id capabilities wait s wakes h k =
      note_processing-IsHeld id (pop_item R s capabilities wait wakes)
        (pop_item-IsHeld id capabilities wait s wakes h k)

  -- The item that a pop returns is held.
  pub pop-found :
      (capabilities : List String) (wait : Bool) (s : QueueServer R) (wakes : List (Wake R))
      (item : QueueItem U T)
      → (pop R s capabilities wait wakes).0 ≡ some (ok (some item))
      → IsHeld (pop R s capabilities wait wakes).1 item.id
  unfolding pop
  pop-found capabilities wait s wakes item h =
      note_processing-found (pop_item R s capabilities wait wakes) item h

  pub enqueue-IsHeld :
      (id fresh : U) (s : QueueServer R) (message : T) (priority : Priority)
      (capabilities : List String)
      → IsHeld s id
      → IsHeld (enqueue R s fresh message priority capabilities).1 id
  enqueue-IsHeld id fresh s message priority capabilities h =
      elim (enqueue-Accepted R s fresh message priority capabilities) [
        | inl (_, _, _, _, same, _) ↦ rw same h
        | inr (_, _, _, _, same, _) ↦ rw same h
      ]

  -- An acknowledgement of another identifier keeps what is held.
  pub acknowledge-IsHeld :
      (id other : U) (s : QueueServer R)
      → (other == id) ≡ false
      → IsHeld s id
      → IsHeld (acknowledge R s other).1 id
  unfolding acknowledge
  acknowledge-IsHeld id other s differs (x, h) =
      let gone = HashMap.get-remove s.processing.value other id in (x, ground (arith, gone))

  -- An acknowledgement fails only when the lock is poisoned, and then changes nothing.
  pub acknowledge-same :
      (s : QueueServer R) (id : U) (x : Error)
      → (acknowledge R s id).0 ≡ err x
      → (acknowledge R s id).1 ≡ s
  unfolding acknowledge
  acknowledge-same s id x h = ground arith
