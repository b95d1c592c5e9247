-- ===== src/Client/Retrieval.antt =====
-- A request for an item over a connection of src/client.rs, from its bytes through the queue server to
-- the bytes of the answer.
use brqueue.Base.{
  ℕ, ◌<◌, ◌^◌, ◌≡◌, refl, ◌∙◌, false, none, some, List, ◌∷◌, ◌++◌, ok, length, Eq, String, subst,
  sym, ok-injective, ◌==◌, ◌||◌, if◌then◌else◌,
}
use brqueue.Base.Int.{ℤ}
use brqueue.Std.Fs.{Bytes}
use brqueue.Std.Mutex
use brqueue.Std.Net.{TcpStream, Arrival, chunk, leftover}
use brqueue.Models.QueueItem.{QueueItem}
use brqueue.Rpc.Runtime.{Wire}
use brqueue.Rpc.Messages.{PopRequest}
use brqueue.Rpc.RequestWrapper.{RequestWrapper, RequestMessage}
use brqueue.Rpc.ResponseWrapper
use brqueue.Rpc.ResponseWrapper.{ResponseWrapper}
use brqueue.Rpc.RequestCodec.{request_wrapper_write}
use brqueue.Rpc.ResponseCodec.{response_wrapper_write, read_response}
use brqueue.QueueServer.Runtime.{Runtime}
use brqueue.QueueServer.Manager
use brqueue.QueueServer.Delivery.{given, pop_found, in_process}
use brqueue.QueueServer.Manager.Priorities.{Popped, pop-Popped}
use brqueue.Client.Library.{Library}
use brqueue.Client.Framing.{message, read_message, frame}
use brqueue.Client.Handlers.{Client, pop, after_pop, pop_response}
use brqueue.Client.Connection.{Round, dispatch, serve}
use brqueue.Client.Messages.{IsProtobuf}
use brqueue.Client.Exchange.{serve-exchange}
use brqueue.Models.Tags
use brqueue.Std.HashSet
use brqueue.Std.HashMap

abbrev pub pop_message : ℤ → PopRequest → RequestWrapper
pop_message ref_id request = record { ref_id = ref_id; message = some (RequestMessage.pop request) }

module _ {U : Type 0} ⦃e : Eq U⦄ (R : Runtime U Bytes) (lib : Library U) where
  -- What a request for an item is answered when there is one.
  abbrev pub handed : ℤ → QueueItem U Bytes → ResponseWrapper
  handed ref_id item =
      ResponseWrapper.set_ref_id
        (ResponseWrapper.set_pop ResponseWrapper.new (pop_response R lib item)) ref_id

  -- The connection after `item` was given to it by a server whose queues are left as `m`.
  abbrev pub holding :
      Client R → Manager.InternalQueueManager R.channel → QueueItem U Bytes → Client R
  holding c m item = record c {
    queue_server = given R c.queue_server m item;
    outstanding_tasks =
        Mutex.write c.outstanding_tasks (HashSet.insert c.outstanding_tasks.value item.id);
  }

  pub dispatch-pop :
      (c : Client R) (round : Round R) (ref_id : ℤ) (request : PopRequest)
      (item : QueueItem U Bytes)
      → c.queue_server.processing.poisoned ≡ false
      → c.outstanding_tasks.poisoned ≡ false
      → (Manager.pop R.channel c.queue_server.queue request.available_capabilities).0
        ≡ ok (some item)
      → dispatch R lib c round (pop_message ref_id request) ≡ (
        some (ok (ResponseWrapper.set_pop ResponseWrapper.new (pop_response R lib item))),
        holding c
            (Manager.pop R.channel c.queue_server.queue request.available_capabilities).1
            item,
      )
  unfolding dispatch pop after_pop
  dispatch-pop c round ref_id request item sound unlocked found =
      let done =
        pop_found R c.queue_server request.available_capabilities round.wakes item sound found
          request.wait_for_message in
      rw (done, dispatch, pop, unlocked) refl

  Popped-pop :
      (m : Manager.InternalQueueManager R.channel) (capabilities : List String)
      (item : QueueItem U Bytes)
      → (Manager.pop R.channel m capabilities).0 ≡ ok (some item)
      → Popped R.channel
          (Tags.from capabilities)
          m
          (Manager.pop R.channel m capabilities).1
          (some item)
  Popped-pop m capabilities item h =
      let (found, x, p) = pop-Popped R.channel m capabilities in
      subst
        (λ o.
          Popped R.channel (Tags.from capabilities) m (Manager.pop R.channel m capabilities).1 o)
        (ok-injective (sym x ∙ h)) p

module _ {U : Type 0} ⦃e : Eq U⦄ (R : Runtime U Bytes) (wire : Wire ℕ) (lib : Library U)
    (protobuf : IsProtobuf wire lib) where
  -- A request for an item, which waits or does not, arrives as the first bytes of a connection that
  -- is served, in one piece, and the connection can be written to. In the server that the other
  -- connections have left, the lock on the processing map is sound and the two queues give an item
  -- for the capabilities of the request; the lock on the outstanding tasks is sound too. Then the
  -- queues are left as a pop of that item leaves them, the item is held as being processed and is
  -- outstanding for the connection, with no other entry changed, the connection is served further
  -- with what follows the request, and the frame of an answer was sent, with the number of the
  -- request and the payload and the identifier of the item; when that arrives in one piece at the
  -- peer, it is read as that answer. The request and the answer are written in less than 2^31
  -- bytes, and protobuf reads and writes the messages as `IsProtobuf` says.
  pub serve-pop :
      (c : Client R) (s peer : TcpStream) (round : Round R) (rounds : List (Round R)) (ref_id : ℤ)
      (request : PopRequest) (item : QueueItem U Bytes) (bytes more reply after : Bytes)
      (rest later : List Arrival)
      → let before = round.interfere c.queue_server in
        let popped = Manager.pop R.channel before.queue request.available_capabilities in
        let answer = handed R lib ref_id item in
        length (request_wrapper_write wire (pop_message ref_id request)) < 2 ^ 31
        → length (response_wrapper_write wire answer) < 2 ^ 31
        → frame lib (request_wrapper_write wire (pop_message ref_id request)) ≡ ok bytes
        → frame lib (response_wrapper_write wire answer) ≡ ok reply
        → s.incoming ≡ chunk (bytes ++ more) ∷ rest
        → s.write_error ≡ none
        → peer.incoming ≡ chunk (reply ++ after) ∷ later
        → before.processing.poisoned ≡ false
        → c.outstanding_tasks.poisoned ≡ false
        → popped.0 ≡ ok (some item)
        → let d = holding R lib (record c { queue_server = before }) popped.1 item in
          (serve R lib c s (round ∷ rounds)
            ≡ serve R lib d
                (record s { incoming = leftover more rest; outgoing = s.outgoing ++ reply })
                rounds)
          × Popped R.channel
              (Tags.from request.available_capabilities)
              before.queue
              d.queue_server.queue
              (some item)
          × ((id : U)
              → in_process R d.queue_server id
                ≡ (if item.id == id then some item else in_process R before id))
          × ((id : U)
              → HashSet.contains d.outstanding_tasks.value id
                ≡ (item.id == id || HashSet.contains c.outstanding_tasks.value id))
          × (read_message lib peer ≡ (
            message (response_wrapper_write wire answer),
            record peer { incoming = leftover after later },
          ))
          × (read_response wire (response_wrapper_write wire answer) ≡ ok answer)
  serve-pop c s peer round rounds ref_id request item bytes more reply after rest later fits short
        framed answered h writable k sound unlocked found =
      let before = round.interfere c.queue_server in
      let popped = Manager.pop R.channel before.queue request.available_capabilities in
      let (served, got, read) =
        serve-exchange R wire lib protobuf c
          (holding R lib (record c { queue_server = before }) popped.1 item) s peer round rounds
          (pop_message ref_id request)
          (ResponseWrapper.set_pop ResponseWrapper.new (pop_response R lib item)) bytes more reply
          after rest later fits short framed answered h writable k
          (dispatch-pop R lib (record c { queue_server = before }) round ref_id request item sound
            unlocked found) in
      (
        served,
        Popped-pop R lib before.queue request.available_capabilities item found,
        λ id. HashMap.get-insert before.processing.value item.id id item,
        HashSet.contains-insert c.outstanding_tasks.value item.id,
        got,
        read,
      )
