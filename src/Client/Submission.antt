-- ===== src/Client/Submission.antt =====
-- A request over a connection of src/client.rs, from its bytes through the queue server to the bytes of
-- the answer.
use brqueue.Base.{ℕ, ◌<◌, ◌^◌, ◌≡◌, refl, false, none, some, List, ◌∷◌, ◌++◌, ok, length, Eq}
use brqueue.Base.Int.{ℤ}
use brqueue.Std.Fs.{Bytes}
use brqueue.Std.Mutex
use brqueue.Std.Net.{TcpStream, Arrival, chunk, leftover}
use brqueue.Models.QueueItem
use brqueue.Models.QueueItem.{QueueItem}
use brqueue.Rpc.Runtime.{Wire}
use brqueue.Rpc.Messages.{EnqueueRequest}
use brqueue.Rpc.RequestWrapper.{RequestWrapper, RequestMessage}
use brqueue.Rpc.ResponseWrapper
use brqueue.Rpc.ResponseWrapper.{ResponseWrapper}
use brqueue.Rpc.RequestCodec.{request_wrapper_write}
use brqueue.Rpc.ResponseCodec.{response_wrapper_write, read_response}
use brqueue.QueueServer.Runtime.{Runtime}
use brqueue.QueueServer.Manager
use brqueue.QueueServer.Operations.{QueueServer}
use brqueue.QueueServer.Enqueue.{queued, made, enqueue_saved}
use brqueue.QueueServer.Manager.Priorities.{Enqueued}
use brqueue.Client.Library.{Library}
use brqueue.Client.Framing.{message, read_message, frame}
use brqueue.Client.Handlers.{Client, enqueue, to_priority}
use brqueue.Client.Connection.{Round, dispatch, serve}
use brqueue.Client.Messages.{IsProtobuf}
use brqueue.Client.Exchange.{serve-exchange}

abbrev pub enqueue_message : ℤ → EnqueueRequest → RequestWrapper
enqueue_message ref_id request = record {
  ref_id = ref_id;
  message = some (RequestMessage.enqueue request);
}

module _ {U : Type 0} ⦃e : Eq U⦄ (R : Runtime U Bytes) (lib : Library U) where
  -- The server with the file manager after it has saved an item.
  abbrev pub saving : QueueServer R → R.storage.State → QueueServer R
  saving s f = record s { file_manager = Mutex.write s.file_manager f }

  -- What a request to enqueue is answered.
  abbrev pub accepted : ℤ → U → ResponseWrapper
  accepted ref_id id =
      ResponseWrapper.set_ref_id
        (ResponseWrapper.set_enqueue ResponseWrapper.new (record { id = lib.to_string id })) ref_id

  -- The item that a request asks for.
  abbrev pub asked : QueueServer R → U → EnqueueRequest → QueueItem U Bytes
  asked s id request =
      made R s id request.message (to_priority R lib request.priority) request.required_capabilities

  pub dispatch-enqueue :
      (c : Client R) (round : Round R) (ref_id : ℤ) (request : EnqueueRequest) (f : R.storage.State)
      → c.queue_server.file_manager.poisoned ≡ false
      → R.storage.save_item c.queue_server.file_manager.value
          (asked c.queue_server round.fresh request)
        ≡ (ok tt, f)
      → R.rendezvous.ready c.queue_server.waiting ≡ 0
      → dispatch R lib c round (enqueue_message ref_id request) ≡ (
        some (
            ok (
              ResponseWrapper.set_enqueue ResponseWrapper.new
                (record { id = lib.to_string round.fresh }))),
        record c {
          queue_server =
              queued R (saving c.queue_server f) (asked c.queue_server round.fresh request);
        },
      )
  unfolding dispatch Manager.enqueue enqueue QueueItem.new
  dispatch-enqueue c round ref_id request f sound saved idle =
      let (done, _) =
        enqueue_saved R c.queue_server round.fresh request.message
          (to_priority R lib request.priority) request.required_capabilities f sound saved idle in
      rw (done, dispatch, enqueue) refl

module _ {U : Type 0} ⦃e : Eq U⦄ (R : Runtime U Bytes) (wire : Wire ℕ) (lib : Library U)
    (protobuf : IsProtobuf wire lib) where
  -- A request to enqueue an item arrives as the first bytes of a connection that is served, in one
  -- piece, and the connection can be written to. In the server that the other connections have
  -- left, no consumer waits, the lock of the file manager is sound, and the item is saved. Then the
  -- item is last in the queue of its priority, with the other queue as it was, the connection is
  -- served further with what follows the request, and the frame of an answer was sent, with the
  -- number of the request and the identifier of the item; when that arrives in one piece at the
  -- peer, it is read as that answer. The request and the answer are written in less than 2^31
  -- bytes, and protobuf reads and writes the messages as `IsProtobuf` says.
  pub serve-enqueue :
      (c : Client R) (s peer : TcpStream) (round : Round R) (rounds : List (Round R)) (ref_id : ℤ)
      (request : EnqueueRequest) (f : R.storage.State) (bytes more reply after : Bytes)
      (rest later : List Arrival)
      → let before = round.interfere c.queue_server in
        let answer = accepted R lib ref_id round.fresh in
        length (request_wrapper_write wire (enqueue_message ref_id request)) < 2 ^ 31
        → length (response_wrapper_write wire answer) < 2 ^ 31
        → frame lib (request_wrapper_write wire (enqueue_message ref_id request)) ≡ ok bytes
        → frame lib (response_wrapper_write wire answer) ≡ ok reply
        → s.incoming ≡ chunk (bytes ++ more) ∷ rest
        → s.write_error ≡ none
        → peer.incoming ≡ chunk (reply ++ after) ∷ later
        → before.file_manager.poisoned ≡ false
        → R.storage.save_item before.file_manager.value (asked R lib before round.fresh request)
          ≡ (ok tt, f)
        → R.rendezvous.ready before.waiting ≡ 0
        → let t = queued R (saving R lib before f) (asked R lib before round.fresh request) in
          (serve R lib c s (round ∷ rounds)
            ≡ serve R lib
                (record c { queue_server = t })
                (record s { incoming = leftover more rest; outgoing = s.outgoing ++ reply })
                rounds)
          × Enqueued R.channel
              (to_priority R lib request.priority)
              before.queue
              (asked R lib before round.fresh request)
              t.queue
          × (read_message lib peer ≡ (
            message (response_wrapper_write wire answer),
            record peer { incoming = leftover after later },
          ))
          × (read_response wire (response_wrapper_write wire answer) ≡ ok answer)
  serve-enqueue c s peer round rounds ref_id request f bytes more reply after rest later fits short
        framed answered h writable k sound saved idle =
      let before = round.interfere c.queue_server in
      let item = asked R lib before round.fresh request in
      let (_, stands) =
        enqueue_saved R before round.fresh request.message (to_priority R lib request.priority)
          request.required_capabilities f sound saved idle in
      let (served, got, read) =
        serve-exchange R wire lib protobuf c
          (record c { queue_server = queued R (saving R lib before f) item }) s peer round rounds
          (enqueue_message ref_id request)
          (ResponseWrapper.set_enqueue ResponseWrapper.new
            (record { id = lib.to_string round.fresh }))
          bytes more reply after rest later fits short framed answered h writable k
          (dispatch-enqueue R lib (record c { queue_server = before }) round ref_id request f sound
            saved idle) in
      (served, stands, got, read)
