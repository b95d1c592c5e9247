-- ===== src/Client/Sessions.antt =====
-- The connections of src/client.rs as a whole: who is served, and what is left when they end.
use mathlib.Core.Option
use brqueue.Base.{
  ◌≡◌, refl, ap, ◌⊎◌, inl, inr, Bool, true, false, Option, none, some, List, ◌∷◌, Result, ok, err,
  Eq, arith, Bool-cases,
}
use brqueue.Base.Int.{ℤ}
use brqueue.Std.Fs.{Bytes}
use brqueue.Std.HashSet
use brqueue.Std.Net.{TcpStream}
use brqueue.Models.QueueItem.{QueueItem}
use brqueue.Rpc.Messages.{AuthenticateRequest}
use brqueue.Rpc.RequestWrapper
use brqueue.Rpc.RequestWrapper.{RequestWrapper, RequestMessage}
use brqueue.QueueServer.Runtime.{Runtime}
use brqueue.QueueServer.Delivery.{in_process}
use brqueue.Authentication.Errors.{AuthenticationError}
use brqueue.Authentication.Operations.{verify_user}
use brqueue.Client.Errors.{Error}
use brqueue.Client.Library.{Library}
use brqueue.Client.Framing.{Frame, message, failed, panicked, read_message, parse_request}
use brqueue.Client.Handlers.{Client, drop_connection}
use brqueue.Client.Tasks.{IsQueued, drop_connection_requeues}
use brqueue.Client.Connection.{
  Round, Ending, dropped, admit, check_login, after_read, ensure_auth, serve, after_auth,
  handle_connection, unauthenticated, crashed,
}

module _ {U : Type 0} ⦃e : Eq U⦄ (R : Runtime U Bytes) (lib : Library U) where
  -- A login: the request of a message whose user and password are right.
  pub record IsLogin (c : Client R) (m : RequestWrapper) : Type 0 where
    pub request : AuthenticateRequest
    pub asked : m.message ≡ some (RequestMessage.authenticate request)
    pub verified : verify_user lib.crypt c.auth request.username request.password ≡ ok true

  -- The first frame of the connection held a message that parses and is a login.
  abbrev pub LoggedIn : Client R → TcpStream → Type 0
  LoggedIn c s =
      (content : Bytes) × (m : RequestWrapper) × ((read_message lib s).0 ≡ message content)
      × (parse_request lib content ≡ ok m)
      × IsLogin c m

  admit-ok :
      (s : TcpStream) (ref_id : ℤ) (r : Result AuthenticationError Bool)
      → (admit R lib s ref_id r).0 ≡ ok tt
      → r ≡ ok true
  unfolding admit
  admit-ok s ref_id (ok true) h = refl
  admit-ok s ref_id (ok false) h = ground arith
  admit-ok s ref_id (err x) h = cc

  authenticate_request :
      (o : Option RequestMessage) (ref_id : ℤ)
      → RequestWrapper.has_authenticate (record { ref_id = ref_id; message = o }) ≡ true
      → (request : AuthenticateRequest) × (o ≡ some (RequestMessage.authenticate request))
  authenticate_request none ref_id h = cc
  authenticate_request (some (RequestMessage.authenticate request)) ref_id h = (request, refl)
  authenticate_request (some (RequestMessage.enqueue v)) ref_id h = cc
  authenticate_request (some (RequestMessage.pop v)) ref_id h = cc
  authenticate_request (some (RequestMessage.acknowledge v)) ref_id h = cc

  check_login-ok :
      (c : Client R) (s : TcpStream) (r : Result Error RequestWrapper)
      → (check_login R lib c s r).0 ≡ ok tt
      → (m : RequestWrapper) × (r ≡ ok m) × IsLogin c m
  unfolding check_login
  check_login-ok c s (err x) h = cc
  check_login-ok c s (ok m) h = elim (Bool-cases (RequestWrapper.has_authenticate m)) [
    | inr other ↦ cc (ap (λ b. b) other, h)
    | inl asks ↦
        let (request, asked) = authenticate_request m.message m.ref_id asks in
        (
          m,
          refl,
          record {
            request = request;
            asked = asked;
            verified =
                admit-ok s m.ref_id (verify_user lib.crypt c.auth request.username request.password)
                  (ground arith);
          },
        )
  ]

  after_read-ok :
      (c : Client R) (f : Frame) (s : TcpStream)
      → (after_read R lib c (f, s)).0 ≡ some (ok tt)
      → (content : Bytes) × (m : RequestWrapper) × (f ≡ message content)
        × (parse_request lib content ≡ ok m)
        × IsLogin c m
  unfolding after_read
  after_read-ok c panicked s h = cc
  after_read-ok c (failed x) s h = cc
  after_read-ok c (message content) s h =
      let (m, parsed, login) =
        check_login-ok c s (parse_request lib content) (Option.some-injective _ _ h) in
      (content, m, refl, parsed, login)

  -- If `ensure_auth` succeeds, the first frame of the connection held a message that parses, is an
  -- authentication request, and has a right password.
  ensure_auth-IsLogin :
      (c : Client R) (s : TcpStream) → (ensure_auth R lib c s).0 ≡ some (ok tt) → LoggedIn c s
  unfolding ensure_auth
  ensure_auth-IsLogin c s h = let (f, t) = read_message lib s in after_read-ok c f t h

  -- The connection has ended before its first request, and has changed nothing but the stream.
  abbrev pub Denied : Client R → TcpStream → Ending × Client R × TcpStream → Type 0
  Denied c s r =
      ((r.0 ≡ unauthenticated) ⊎ (r.0 ≡ crashed)) × (r.1 ≡ c) × (r.2 ≡ (ensure_auth R lib c s).1)

  after_auth-cases :
      (c : Client R) (rounds : List (Round R)) (a : Option (Result Error (Unit {0})) × TcpStream)
      → let r = after_auth R lib c rounds a in
        ((a.0 ≡ some (ok tt)) × (r ≡ serve R lib c a.1 rounds))
        ⊎ (((r.0 ≡ unauthenticated) ⊎ (r.0 ≡ crashed)) × (r.1 ≡ c) × (r.2 ≡ a.1))
  unfolding after_auth
  after_auth-cases c rounds (none, s) = inr (inr refl, refl, refl)
  after_auth-cases c rounds (some (err x), s) = inr (inl refl, refl, refl)
  after_auth-cases c rounds (some (ok u), s) = inl (refl, refl)

  -- A connection is served only after a login. Either the first frame of the connection held a
  -- message that parses, is an authentication request and has a right password, and the
  -- connection is then served on the stream that the authentication leaves; or the connection
  -- ends as unauthenticated or with a panic, whatever arrives on it further, and the queue server,
  -- the outstanding tasks and the users are as they were, and the stream as the authentication left
  -- it.
  pub handle_connection-LoggedIn :
      (c : Client R) (s : TcpStream) (rounds : List (Round R))
      → (LoggedIn c s
          × (handle_connection R lib c s rounds ≡ serve R lib c (ensure_auth R lib c s).1 rounds))
        ⊎ Denied c s (handle_connection R lib c s rounds)
  unfolding handle_connection
  handle_connection-LoggedIn c s rounds = elim (after_auth-cases c rounds (ensure_auth R lib c s)) [
    | inl (admitted, served) ↦ inl (ensure_auth-IsLogin c s admitted, served)
    | inr denied ↦ inr denied
  ]

  serve-failed :
      (c : Client R) (s : TcpStream) (round : Round R) (rounds : List (Round R)) (x : Error)
      → (read_message lib s).0 ≡ failed x
      → serve R lib c s (round ∷ rounds) ≡ (
        dropped,
        drop_connection R (record c { queue_server = round.interfere c.queue_server }),
        (read_message lib s).1,
      )
  unfolding serve
  serve-failed c s round rounds x unread = ground arith

  -- If the next message of a connection cannot be read, the locks are sound and no consumer
  -- waits, then the connection ends as dropped, and every outstanding task that is being
  -- processed is taken out of processing and is in a queue.
  serve_dropped :
      (c : Client R) (s : TcpStream) (round : Round R) (rounds : List (Round R)) (x : Error)
      → (read_message lib s).0 ≡ failed x
      → c.outstanding_tasks.poisoned ≡ false
      → (round.interfere c.queue_server).processing.poisoned ≡ false
      → R.rendezvous.ready (round.interfere c.queue_server).waiting ≡ 0
      → let r = serve R lib c s (round ∷ rounds) in
        (r.0 ≡ dropped)
        × ((id : U) (item : QueueItem U Bytes)
            → HashSet.contains c.outstanding_tasks.value id ≡ true
            → in_process R (round.interfere c.queue_server) id ≡ some item
            → (in_process R r.1.queue_server id ≡ none) × IsQueued R r.1.queue_server item)
  serve_dropped c s round rounds x unread sound h idle =
      let d = record c { queue_server = round.interfere c.queue_server } in
      let step = serve-failed c s round rounds x unread in
      let (gone, moved, _) = drop_connection_requeues R d sound h idle in
      (rw step refl, λ id item k p. rw step (rw (gone id, k) refl, moved id item k p))
