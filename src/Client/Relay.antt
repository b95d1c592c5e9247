-- ===== src/Client/Relay.antt =====
-- Two connections of src/client.rs: an item goes from one that enqueues it to one that asks for it.
use brqueue.Base.{
  String, ◌≡◌, refl, ap, true, false, some, ok, Eq, ◌==◌, ◌||◌, if◌then◌else◌, string_eq,
}
use brqueue.Base.Int.{ℤ}
use brqueue.Std.Fs.{Bytes}
use brqueue.Std.HashMap
use brqueue.Std.HashSet
use brqueue.Models.Tags
use brqueue.Models.QueueItem
use brqueue.Models.Routing.{can_be_handled_by_iff}
use brqueue.Rpc.Messages.{EnqueueRequest, PopRequest}
use brqueue.Rpc.ResponseWrapper
use brqueue.QueueServer.Runtime.{Runtime}
use brqueue.QueueServer.Manager.Priorities.{NothingFits}
use brqueue.QueueServer.Manager.Arrivals.{pop-Enqueued}
use brqueue.QueueServer.Enqueue.{queued, enqueue_saved}
use brqueue.QueueServer.Delivery.{in_process}
use brqueue.Client.Library.{Library}
use brqueue.Client.Handlers.{Client, to_priority}
use brqueue.Client.Connection.{Round, dispatch}
use brqueue.Client.Submission.{enqueue_message, asked, saving, dispatch-enqueue}
use brqueue.Client.Retrieval.{pop_message, dispatch-pop}

module _ {U : Type 0} ⦃e : Eq U⦄ (R : Runtime U Bytes) (lib : Library U) where
  -- A connection hands the server a request to enqueue an item, and the next request that the server
  -- gets is one for an item, of another connection. No item in the queues fits the capabilities of
  -- the second request, and they have every tag that the item requires; no consumer waits, the
  -- item is saved, and the locks on the file manager, on the processing map and on the outstanding
  -- tasks of the second connection are sound. Then the first is answered with the identifier of
  -- the item, and the second with that identifier and the payload of the first request, whatever
  -- the priority of the item and whether the second request waits or not. The item is then held as
  -- being processed and is outstanding for the second connection, and no other entry is changed.
  pub dispatch_relays :
      (producer consumer : Client R) (first second : Round R) (sent_id asked_id : ℤ)
      (request : EnqueueRequest) (wanted : PopRequest) (f : R.storage.State)
      → let s = producer.queue_server in
        let item = asked R lib s first.fresh request in
        s.file_manager.poisoned ≡ false
        → R.storage.save_item s.file_manager.value item ≡ (ok tt, f)
        → R.rendezvous.ready s.waiting ≡ 0
        → s.processing.poisoned ≡ false
        → consumer.outstanding_tasks.poisoned ≡ false
        → NothingFits R.channel (Tags.from wanted.available_capabilities) s.queue
        → ((tag : String)
            → HashSet.contains request.required_capabilities tag ≡ true
            → HashSet.contains wanted.available_capabilities tag ≡ true)
        → let r = dispatch R lib producer first (enqueue_message sent_id request) in
          let t =
            dispatch R lib
              (record consumer { queue_server = r.1.queue_server })
              second
              (pop_message asked_id wanted) in
          (r.0
            ≡ some (
                ok (
                  ResponseWrapper.set_enqueue ResponseWrapper.new
                    (record { id = lib.to_string first.fresh }))))
          × (t.0
              ≡ some (
                  ok (
                    ResponseWrapper.set_pop ResponseWrapper.new (record {
                      had_result = true;
                      message = request.message;
                      id = lib.to_string first.fresh;
                    }))))
          × ((id : U)
              → in_process R t.1.queue_server id
                ≡ (if first.fresh == id then some item else in_process R s id))
          × ((id : U)
              → HashSet.contains t.1.outstanding_tasks.value id
                ≡ (first.fresh == id || HashSet.contains consumer.outstanding_tasks.value id))
  unfolding QueueItem.new
  dispatch_relays producer consumer first second sent_id asked_id request wanted f sound saved idle
        kept unlocked nothing tags =
      let s = producer.queue_server in
      let item = asked R lib s first.fresh request in
      let t = queued R (saving R lib s f) item in
      let priority = to_priority R lib request.priority in
      let (_, stands) =
        enqueue_saved R s first.fresh request.message priority request.required_capabilities f sound
          saved idle in
      let fits =
        (can_be_handled_by_iff first.fresh request.message priority request.required_capabilities
            wanted.available_capabilities).1
          tags in
      let found =
        pop-Enqueued R.channel priority s.queue t.queue item wanted.available_capabilities stands
          nothing fits in
      let sent = dispatch-enqueue R lib producer first sent_id request f sound saved idle in
      let popped =
        dispatch-pop R lib (record consumer { queue_server = t }) second asked_id wanted item kept
          unlocked found in
      (
        ap (λ p. p.0) sent,
        rw (sent, popped) refl,
        λ id. rw (sent, popped) (HashMap.get-insert s.processing.value item.id id item),
        λ id.
            rw (sent, popped) (HashSet.contains-insert consumer.outstanding_tasks.value item.id id),
      )
