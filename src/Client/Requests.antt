-- ===== src/Client/Requests.antt =====
-- The requests of src/client.rs that touch the outstanding tasks: what a pop notes, and what an
-- acknowledgement forgets.
use brqueue.Base.{
  ◌≡◌, refl, true, false, ◌||◌, ◌&&◌, not, none, some, List, ok, Eq, ◌==◌, if◌then◌else◌, arith,
}
use brqueue.Std.Fs.{Bytes}
use brqueue.Std.HashMap
use brqueue.Std.HashSet
use brqueue.Std.Mutex
use brqueue.Models.QueueItem.{QueueItem}
use brqueue.Rpc.Messages.{PopRequest}
use brqueue.Rpc.ResponseWrapper
use brqueue.QueueServer.Runtime.{Runtime}
use brqueue.QueueServer.Operations
use brqueue.QueueServer.Operations.{QueueServer, Wake, fail, add_item_to_queue, requeue}
use brqueue.QueueServer.Delivery.{in_process, forgotten}
use brqueue.Client.Library.{Library}
use brqueue.Client.Handlers.{Client, pop, after_pop, acknowledge, acknowledge_id}

module _ {U : Type 0} ⦃e : Eq U⦄ (R : Runtime U Bytes) (lib : Library U) where
  acknowledge_eq :
      (c : Client R) (id : U)
      → c.outstanding_tasks.poisoned ≡ false
      → c.queue_server.processing.poisoned ≡ false
      → acknowledge R lib c (record { id = lib.to_string id }) ≡ (
        ok (ResponseWrapper.set_acknowledge ResponseWrapper.new (record {})),
        record c {
          queue_server = forgotten R c.queue_server id;
          outstanding_tasks =
              Mutex.write c.outstanding_tasks (HashSet.remove c.outstanding_tasks.value id);
        },
      )
  unfolding acknowledge acknowledge_id Operations.acknowledge
  acknowledge_eq c id sound h = ground (arith, lib.parse_str-to_string id)

  -- With sound locks, an acknowledge request with the text of an identifier succeeds. The task is
  -- then neither being processed nor outstanding, every other task is as it was, and the queues
  -- are too.
  acknowledge_forgets_task :
      (c : Client R) (id : U)
      → c.outstanding_tasks.poisoned ≡ false
      → c.queue_server.processing.poisoned ≡ false
      → let r = acknowledge R lib c (record { id = lib.to_string id }) in
        (r.0 ≡ ok (ResponseWrapper.set_acknowledge ResponseWrapper.new (record {})))
        × ((j : U)
            → in_process R r.1.queue_server j
              ≡ (if id == j then none else in_process R c.queue_server j))
        × ((j : U)
            → HashSet.contains r.1.outstanding_tasks.value j
              ≡ (not (id == j) && HashSet.contains c.outstanding_tasks.value j))
        × (r.1.queue_server.queue ≡ c.queue_server.queue)
  acknowledge_forgets_task c id sound h =
      let step = acknowledge_eq c id sound h in
      (
        rw step refl,
        λ j. rw step (HashMap.get-remove c.queue_server.processing.value id j),
        λ j. rw step (HashSet.contains-remove c.outstanding_tasks.value id j),
        rw step refl,
      )

  -- If the queue server gives an item to a pop request and the lock of the outstanding tasks is
  -- sound, the item becomes an outstanding task of this connection, the other outstanding tasks
  -- stay, and the answer has the payload of the item and the text of its identifier.
  pop_tracks :
      (c : Client R) (request : PopRequest) (wakes : List (Wake R)) (item : QueueItem U Bytes)
      → c.outstanding_tasks.poisoned ≡ false
      → (Operations.pop R c.queue_server request.available_capabilities request.wait_for_message
          wakes).0
        ≡ some (ok (some item))
      → let r = pop R lib c request wakes in
        (r.0
          ≡ some (
              ok (
                ResponseWrapper.set_pop ResponseWrapper.new (record {
                  had_result = true;
                  message = item.payload;
                  id = lib.to_string item.id;
                }))))
        × ((j : U)
            → HashSet.contains r.1.outstanding_tasks.value j
              ≡ (item.id == j || HashSet.contains c.outstanding_tasks.value j))
  unfolding pop after_pop
  pop_tracks c request wakes item sound h = (
    ground arith,
    λ j. ground (arith, HashSet.contains-insert c.outstanding_tasks.value item.id j),
  )
