-- ===== src/Client/Exchange.antt =====
-- One round of a connection of src/client.rs whose request is answered: from the bytes of the request,
-- through the handler, to the bytes of the answer.
use brqueue.Base.{
  ℕ, ◌<◌, ◌^◌, ◌≡◌, refl, ap, ◌∙◌, none, some, List, [], ◌∷◌, ◌++◌, Result, ok, length, Eq,
}
use brqueue.Std.Fs.{Bytes}
use brqueue.Std.Net.{TcpStream, Arrival, chunk, leftover}
use brqueue.Rpc.Runtime.{Wire}
use brqueue.Rpc.RequestWrapper.{RequestWrapper}
use brqueue.Rpc.ResponseWrapper
use brqueue.Rpc.ResponseWrapper.{ResponseWrapper}
use brqueue.Rpc.RequestCodec.{request_wrapper_write}
use brqueue.Rpc.ResponseCodec.{response_wrapper_write, read_response}
use brqueue.QueueServer.Runtime.{Runtime}
use brqueue.Client.Library.{Library}
use brqueue.Client.Errors.{Error}
use brqueue.Client.Framing.{message, parse_request, read_message, frame}
use brqueue.Client.Handlers.{Client}
use brqueue.Client.Connection.{Round, dispatch, respond, serve}
use brqueue.Client.Messages.{IsProtobuf, request_arrives, reply_arrives}

-- The answer that a request is given, with its number.
abbrev pub numbered : RequestWrapper → ResponseWrapper → ResponseWrapper
numbered m answer = ResponseWrapper.set_ref_id answer m.ref_id

module _ {U : Type 0} ⦃e : Eq U⦄ (R : Runtime U Bytes) (lib : Library U) where
  serve-dispatch :
      (c d : Client R) (s t : TcpStream) (round : Round R) (rounds : List (Round R))
      (content : Bytes) (m : RequestWrapper) (r : Result Error ResponseWrapper)
      → read_message lib s ≡ (message content, t)
      → parse_request lib content ≡ ok m
      → dispatch R lib (record c { queue_server = round.interfere c.queue_server }) round m
        ≡ (some r, d)
      → serve R lib c s (round ∷ rounds) ≡ serve R lib d (respond R lib t m.ref_id r) rounds
  unfolding serve
  serve-dispatch c d s t round rounds content m r arrived parsed dispatched =
      rw (arrived, parsed, dispatched, serve)
        (λ i. serve R lib (dispatched i).1 (respond R lib (arrived i).1 m.ref_id r) rounds)

module _ {U : Type 0} ⦃e : Eq U⦄ (R : Runtime U Bytes) (wire : Wire ℕ) (lib : Library U)
    (protobuf : IsProtobuf wire lib) where
  serve-respond :
      (c d : Client R) (s : TcpStream) (round : Round R) (rounds : List (Round R))
      (m : RequestWrapper) (answer : ResponseWrapper) (bytes more reply : Bytes)
      (rest : List Arrival)
      → length (request_wrapper_write wire m) < 2 ^ 31
      → length (response_wrapper_write wire (numbered m answer)) < 2 ^ 31
      → frame lib (request_wrapper_write wire m) ≡ ok bytes
      → frame lib (response_wrapper_write wire (numbered m answer)) ≡ ok reply
      → s.incoming ≡ chunk (bytes ++ more) ∷ rest
      → s.write_error ≡ none
      → dispatch R lib (record c { queue_server = round.interfere c.queue_server }) round m
        ≡ (some (ok answer), d)
      → serve R lib c s (round ∷ rounds)
        ≡ serve R lib d
            (record s { incoming = leftover more rest; outgoing = s.outgoing ++ reply })
            rounds
  unfolding respond
  serve-respond c d s round rounds m answer bytes more reply rest fits short framed answered h
        writable dispatched =
      let (arrived, parsed) = request_arrives wire lib protobuf s m bytes more rest fits framed h in
      let t : TcpStream = record s { incoming = leftover more rest } in
      let peer : TcpStream = record s { incoming = chunk (reply ++ []) ∷ [] } in
      let (sent, _, _) =
        reply_arrives wire lib protobuf t peer (numbered m answer) reply [] [] short answered
          writable refl in
      serve-dispatch R lib c d s t round rounds (request_wrapper_write wire m) m (ok answer) arrived
        parsed dispatched
      ∙ ap (λ p. serve R lib d p.1 rounds) sent

  -- A request that arrives in one piece and is answered by its handler: the connection is served
  -- further as the handler leaves it, and the answer, with the number of the request, is sent and
  -- read back by a peer at which it arrives in one piece.
  pub serve-exchange :
      (c d : Client R) (s peer : TcpStream) (round : Round R) (rounds : List (Round R))
      (m : RequestWrapper) (answer : ResponseWrapper) (bytes more reply after : Bytes)
      (rest later : List Arrival)
      → length (request_wrapper_write wire m) < 2 ^ 31
      → length (response_wrapper_write wire (numbered m answer)) < 2 ^ 31
      → frame lib (request_wrapper_write wire m) ≡ ok bytes
      → frame lib (response_wrapper_write wire (numbered m answer)) ≡ ok reply
      → s.incoming ≡ chunk (bytes ++ more) ∷ rest
      → s.write_error ≡ none
      → peer.incoming ≡ chunk (reply ++ after) ∷ later
      → dispatch R lib (record c { queue_server = round.interfere c.queue_server }) round m
        ≡ (some (ok answer), d)
      → (serve R lib c s (round ∷ rounds)
          ≡ serve R lib d
              (record s { incoming = leftover more rest; outgoing = s.outgoing ++ reply })
              rounds)
        × (read_message lib peer ≡ (
          message (response_wrapper_write wire (numbered m answer)),
          record peer { incoming = leftover after later },
        ))
        × (read_response wire (response_wrapper_write wire (numbered m answer))
            ≡ ok (numbered m answer))
  serve-exchange c d s peer round rounds m answer bytes more reply after rest later fits short
        framed answered h writable k dispatched =
      let (_, got, read) =
        reply_arrives wire lib protobuf s peer (numbered m answer) reply after later short answered
          writable k in
      (
        serve-respond c d s round rounds m answer bytes more reply rest fits short framed answered h
            writable dispatched,
        got,
        read,
      )
